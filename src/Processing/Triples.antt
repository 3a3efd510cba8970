-- ===== src/Processing/Triples.antt =====
-- Total correctness of the methods of windows-agent/internal/distros/distro/distro.go that hold and
-- release a distro: they return, without a panic, and the count is as stated.
use ubuntu_pro_for_wsl.Prelude.{
  ℕ, ◌+◌, ◌^◌, ◌<◌, ◌≡◌, refl, inl, inr, true, false, Option, none, some, Result, ok, err, arith,
  subst, ap, if◌then◌else◌,
}
use ubuntu_pro_for_wsl.StateManager.{
  StateManager, Outcome, done, error, panics, ReleaseError, lock, release,
}
use ubuntu_pro_for_wsl.StateManager.Balance.{IsTidy, Locks, lock-Locks, Releases, release-Releases}
use ubuntu_pro_for_wsl.Distro.{
  Distro, RegistryAnswer, registered, Answers, DistroError, M, ◌>>=◌, return, not_valid, is_valid,
  lock_awake, release_awake, if_valid, settle_lock, settle_release,
}

module _ {Bytes A : Type 0} where
  -- The method returned, in a state of which `Q` holds.
  abbrev pub Returns : (A → Distro Bytes → Type 0) → Option (A × Distro Bytes) → Type 0
  Returns Q none = ⊥
  Returns Q (some (a, d)) = Q a d

  abbrev pub Triple : (Distro Bytes → Type 0) → M Bytes A → (A → Distro Bytes → Type 0) → Type 0
  Triple P m Q = (d : Distro Bytes) → P d → Returns Q (m d)

module _ {Bytes A B : Type 0} where
  after_return :
      (m : M Bytes A) (f : A → M Bytes B) (a : A) (d d' : Distro Bytes)
      → m d ≡ some (a, d')
      → (m >>= f) d ≡ f a d'
  after_return m f a d d' e =
      ap (λ r. elim r as (λ _. Option (B × Distro Bytes)) [ none ↦ none | some (a, d) ↦ f a d ]) e

  bind-Returns :
      (Q : A → Distro Bytes → Type 0) (R : B → Distro Bytes → Type 0) (f : A → M Bytes B)
      (r : Option (A × Distro Bytes))
      → Returns Q r
      → ((a : A) → Triple (Q a) (f a) R)
      → Returns R (elim r [ none ↦ none | some (a, d) ↦ f a d ])
  bind-Returns Q R f none h k = absurd h
  bind-Returns Q R f (some (a, d)) h k = k a d h

  pub bind-Triple :
      (P : Distro Bytes → Type 0) (Q : A → Distro Bytes → Type 0) (R : B → Distro Bytes → Type 0)
      (m : M Bytes A) (f : A → M Bytes B)
      → Triple P m Q
      → ((a : A) → Triple (Q a) (f a) R)
      → Triple P (m >>= f) R
  bind-Triple P Q R m f h k d p = bind-Returns Q R f (m d) (h d p) k

-- A valid distro, whose GUID is `guid`, that is held `count` times.
pub record IsHeld {Bytes : Type 0} (guid count : ℕ) (d : Distro Bytes) : Type 0 where
  pub tidy : IsTidy d.state_manager
  pub counted : d.state_manager.refcount ≡ count
  pub valid : d.invalidated ≡ false
  pub same_guid : d.identity.guid ≡ guid

-- Held once more if the call returned no error, and as often if it returned one.
abbrev pub HeldAfter :
    {Bytes E : Type 0} → ℕ → ℕ → Result (DistroError E) (Unit {0}) → Distro Bytes → Type 0
HeldAfter guid count (ok _) d = IsHeld guid (count + 1) d
HeldAfter guid count (err e) d = IsHeld guid count d

is_valid-valid :
    {Bytes : Type 0} (guid : ℕ) (answer : RegistryAnswer) (d : Distro Bytes)
    → answer ≡ registered guid
    → d.invalidated ≡ false
    → d.identity.guid ≡ guid
    → is_valid answer d ≡ some (true, d)
unfolding is_valid
is_valid-valid guid answer d a v e = ground arith

if_valid-valid :
    {Bytes E A : Type 0} (guid : ℕ) (answer : RegistryAnswer)
    (m : M Bytes (Result (DistroError E) A)) (d : Distro Bytes)
    → answer ≡ registered guid
    → d.invalidated ≡ false
    → d.identity.guid ≡ guid
    → if_valid answer m d ≡ m d
unfolding if_valid
if_valid-valid guid answer m d a v e =
    after_return (is_valid answer) (λ valid. if valid then m else return (err not_valid)) true d d
      (is_valid-valid guid answer d a v e)

module _ {Bytes : Type 0} (guid count : ℕ) where
  pub is_valid-Triple :
      (answer : RegistryAnswer)
      → answer ≡ registered guid
      → Triple
          (IsHeld {Bytes = Bytes} guid count)
          (is_valid answer)
          (λ v d. (v ≡ true) × IsHeld guid count d)
  is_valid-Triple answer e d h = rw (is_valid-valid guid answer d e h.valid h.same_guid) (refl, h)

  if_valid-Triple :
      {E A : Type 0} (answer : RegistryAnswer) (m : M Bytes (Result (DistroError E) A))
      (Q : Result (DistroError E) A → Distro Bytes → Type 0)
      → answer ≡ registered guid
      → Triple (IsHeld guid count) m Q
      → Triple (IsHeld guid count) (if_valid answer m) Q
  if_valid-Triple answer m Q e t d h =
      rw (if_valid-valid guid answer m d e h.valid h.same_guid) (t d h)

  settle_lock-HeldAfter :
      {E : Type 0} (s : StateManager × Outcome E) (d : Distro Bytes)
      → IsHeld guid count d
      → Locks count s
      → Returns (HeldAfter guid count) (settle_lock s d)
  unfolding settle_lock
  settle_lock-HeldAfter (m, done) d h (tidy, inl (r, c)) = record {
    tidy = tidy;
    counted = c;
    valid = h.valid;
    same_guid = h.same_guid;
  }
  settle_lock-HeldAfter (m, done) d h (tidy, inr (e, r, c)) = cc
  settle_lock-HeldAfter (m, error e) d h (tidy, inl (r, c)) = cc
  settle_lock-HeldAfter (m, error e) d h (tidy, inr (e', r, c)) = record {
    tidy = tidy;
    counted = c;
    valid = h.valid;
    same_guid = h.same_guid;
  }
  settle_lock-HeldAfter (m, panics) d h (tidy, inl (r, c)) = cc
  settle_lock-HeldAfter (m, panics) d h (tidy, inr (e, r, c)) = cc

  pub lock_awake-Triple :
      {E : Type 0} (a : Answers E)
      → a.registry ≡ registered guid
      → count + 1 < 2 ^ 32
      → Triple (IsHeld {Bytes = Bytes} guid count) (lock_awake a) (HeldAfter guid count)
  unfolding lock_awake
  lock_awake-Triple a e b = if_valid-Triple a.registry _ (HeldAfter guid count) e (λ d h.
      settle_lock-HeldAfter _ d h (
        subst (λ n. Locks n (lock a.state a.touch d.state_manager)) h.counted
          (lock-Locks a.state a.touch d.state_manager (rw h.counted b) h.tidy)))

  settle_release-IsHeld :
      (E : Type 0) (s : StateManager × Outcome ReleaseError) (d : Distro Bytes)
      → IsHeld guid (count + 1) d
      → Releases d.state_manager s
      → Returns (λ r d'. IsHeld guid count d') (settle_release {E = E} s d)
  unfolding settle_release
  settle_release-IsHeld E s d h (tidy, inl (z, r, c)) = absurd (omega (arith, h.counted))
  settle_release-IsHeld E (m, done) d h (tidy, inr (p, r, c)) = record {
    tidy = tidy;
    counted = omega (arith, h.counted);
    valid = h.valid;
    same_guid = h.same_guid;
  }
  settle_release-IsHeld E (m, error e) d h (tidy, inr (p, r, c)) = cc
  settle_release-IsHeld E (m, panics) d h (tidy, inr (p, r, c)) = cc

module _ {Bytes : Type 0} (guid count : ℕ) where
  pub release_awake-Triple :
      (E : Type 0) (answer : RegistryAnswer)
      → answer ≡ registered guid
      → Triple
          (IsHeld {Bytes = Bytes} guid (count + 1))
          (release_awake {E = E} answer)
          (λ r d. IsHeld guid count d)
  unfolding release_awake
  release_awake-Triple E answer e = if_valid-Triple guid (count + 1) answer _ _ e (λ d h.
      settle_release-IsHeld guid count E (release d.state_manager) d h
        (release-Releases d.state_manager h.tidy))
