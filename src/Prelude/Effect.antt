-- ===== src/Prelude/Effect.antt =====
-- Methods that change a state and may return an error or panic, as functions; and what they ensure.
use mathlib.Core.Option.{Option, none, some}
use ubuntu_pro_for_wsl.Prelude.Outcome.{Result, ok, err}

-- `none` is a panic.
abbrev pub Action : Type 0 → Type 0 → Type 0 → Type 0
Action S E A = S → Option (S × Result E A)

module _ {S E A B : Type 0} where
  infixl 5 ◌>>>◌
  -- An error ends the method.
  abbrev pub ◌>>>◌ : Action S E A → (A → Action S E B) → Action S E B
  ◌>>>◌ m f s = elim (m s) [
    | none ↦ none
    | some (s', err e) ↦ some (s', err e)
    | some (s', ok a) ↦ f a s'
  ]

module _ {S E A : Type 0} where
  abbrev pub yields : A → Action S E A
  yields a s = some (s, ok a)

  abbrev pub fails : E → Action S E A
  fails e s = some (s, err e)

  -- If the method returns, `Q` holds of its state and its result.
  abbrev pub Ensures : (S → Result E A → Type 0) → Option (S × Result E A) → Type 0
  Ensures Q none = Unit {0}
  Ensures Q (some (s, r)) = Q s r

module _ {S E A B : Type 0} where
  pub bind-Ensures :
      (Q : S → Result E A → Type 0) (R : S → Result E B → Type 0) (m : Action S E A)
      (f : A → Action S E B) (s : S)
      → Ensures Q (m s)
      → ((s' : S) (e : E) → Q s' (err e) → R s' (err e))
      → ((s' : S) (a : A) → Q s' (ok a) → Ensures R (f a s'))
      → Ensures R ((m >>> f) s)
  bind-Ensures Q R m f s h on_error on_ok = step (m s) h
    where
      step :
          (r : Option (S × Result E A))
          → Ensures Q r
          → Ensures R (elim r [
            | none ↦ none
            | some (s', err e) ↦ some (s', err e)
            | some (s', ok a) ↦ f a s'
          ])
      step none h = tt
      step (some (s', err e)) h = on_error s' e h
      step (some (s', ok a)) h = on_ok s' a h
