-- ===== src/NetWatcher/Names.antt =====
-- The order of names that windows-agent/internal/daemon/netwatcher.go compares and sorts by.
use ubuntu_pro_for_wsl.Prelude.{
  ℕ, ◌≡◌, refl, Bool, true, false, List, [], ◌∷◌, not, same_codes, arith,
}
use ubuntu_pro_for_wsl.NetWatcher.{same, compare_names, is_greater, is_same}

-- v comes before w or is w.
abbrev pub le : List ℕ → List ℕ → Bool
le v w = not (is_greater (compare_names v w))

pub le_refl : (v : List ℕ) → compare_names v v ≡ same
unfolding compare_names
le_refl [] = refl
le_refl (a ∷ s) = ground (arith, le_refl s)

pub le_trans : (u v w : List ℕ) → le u v ≡ true → le v w ≡ true → le u w ≡ true
unfolding compare_names is_greater
le_trans [] [] [] h k = refl
le_trans [] v (c ∷ w) h k = refl
le_trans [] (b ∷ v) [] h k = absurd (cc k)
le_trans (a ∷ u) [] w h k = absurd (cc h)
le_trans (a ∷ u) (b ∷ v) [] h k = absurd (cc k)
le_trans (a ∷ u) (b ∷ v) (c ∷ w) h k = ground (arith, le_trans u v w)

pub le-total : (v w : List ℕ) → le v w ≡ false → le w v ≡ true
unfolding compare_names is_greater
le-total [] [] h = refl
le-total [] (b ∷ w) h = absurd (cc h)
le-total (a ∷ v) [] h = refl
le-total (a ∷ v) (b ∷ w) h = ground (arith, le-total v w)

pub le-antisym : (v w : List ℕ) → le v w ≡ true → le w v ≡ true → compare_names v w ≡ same
unfolding compare_names is_greater
le-antisym [] [] h k = refl
le-antisym [] (b ∷ w) h k = absurd (cc k)
le-antisym (a ∷ v) [] h k = absurd (cc h)
le-antisym (a ∷ v) (b ∷ w) h k = ground (arith, le-antisym v w)

pub same-≡ : (v w : List ℕ) → is_same (compare_names v w) ≡ same_codes v w
unfolding compare_names is_same
same-≡ [] [] = refl
same-≡ [] (b ∷ w) = refl
same-≡ (a ∷ v) [] = refl
same-≡ (a ∷ v) (b ∷ w) = ground (arith, same-≡ v w)
