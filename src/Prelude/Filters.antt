-- ===== src/Prelude/Filters.antt =====
-- Boolean predicates over lists: what is kept, what occurs, what holds of every entry.
use mathlib.Core.Path.{◌≡◌, refl}
use mathlib.Core.List.{List, [], ◌∷◌, ◌++◌}
use mathlib.Core.Bool.{Bool, false, ◌||◌}
use native.Mathlib.Omega.{arith}
use ubuntu_pro_for_wsl.Prelude.Tests.{if◌then◌else◌}

abbrev pub All {ℓ κ} : {A : Type ℓ} → (A → Type κ) → List A → Type κ
All P [] = Unit
All P (x ∷ xs) = P x × All P xs

module _ {ℓ} {A : Type ℓ} where
  -- The entries that `p` does not hold of, in their order.
  abbrev pub reject : (A → Bool) → List A → List A
  reject p [] = []
  reject p (x ∷ xs) = if p x then reject p xs else x ∷ reject p xs

  abbrev pub any : (A → Bool) → List A → Bool
  any p [] = false
  any p (x ∷ xs) = p x || any p xs

  pub reject-append :
      (p : A → Bool) (xs ys : List A) → reject p (xs ++ ys) ≡ reject p xs ++ reject p ys
  reject-append p [] ys = refl
  reject-append p (x ∷ xs) ys = ground (arith, reject-append p xs ys)

  pub any-append : (p : A → Bool) (xs ys : List A) → any p (xs ++ ys) ≡ (any p xs || any p ys)
  any-append p [] ys = refl
  any-append p (x ∷ xs) ys = ground (arith, any-append p xs ys)

  pub any-reject : (p : A → Bool) (xs : List A) → any p (reject p xs) ≡ false
  any-reject p [] = refl
  any-reject p (x ∷ xs) = ground (arith, any-reject p xs)

  pub reject_of_none : (p : A → Bool) (xs : List A) → any p xs ≡ false → reject p xs ≡ xs
  reject_of_none p [] h = refl
  reject_of_none p (x ∷ xs) h = ground (arith, reject_of_none p xs)

module _ {ℓ κ} {A : Type ℓ} where
  pub All-append : (P : A → Type κ) (xs ys : List A) → All P xs → All P ys → All P (xs ++ ys)
  All-append P [] ys hx hy = hy
  All-append P (x ∷ xs) ys hx hy = (hx.0, All-append P xs ys hx.1 hy)

  pub All-reject : (P : A → Type κ) (p : A → Bool) (xs : List A) → All P xs → All P (reject p xs)
  All-reject P p [] h = h
  All-reject P p (x ∷ xs) h = ground (arith, All-reject P p xs h.1)
