-- ===== src/ProService/Serve/Backoff.antt =====
-- How long Serve of wsl-pro-service/internal/daemon/daemon.go waits, and how it ends.
use ubuntu_pro_for_wsl.Prelude.{
  ℕ, zero, suc, ◌*◌, ◌^◌, ◌≤◌, ◌≡◌, refl, ap, inl, inr, true, false, List, [], ◌∷◌, map, any,
  Option, none, some, Result, ok, err, min, arith, Bool-cases, Result-cases,
}
use native.Mathlib.Omega.{pow_step}
use ubuntu_pro_for_wsl.ProService.Serve.{
  DaemonError, Attempt, Ending, fails_with, disconnects, Round, quits, tries, is_system_error, max,
  clamp, min_wait, max_wait, growth_factor, next_wait, connect, after_serve, attempt, serve_rounds,
  serve,
}

-- The wait after a number of failures in a row.
abbrev pub backoff : ℕ → ℕ
backoff zero = 0
backoff (suc k) = min (2 ^ k) 60

module _ {E : Type 0} where
  -- How many attempts in a row have failed before each attempt.
  abbrev pub streaks : ℕ → List (Round E) → List ℕ
  streaks k [] = []
  streaks k (quits ∷ rs) = []
  streaks k (tries a ∷ rs) = elim (attempt a) [
    | err e ↦ k ∷ []
    | ok true ↦ k ∷ streaks 0 rs
    | ok false ↦ k ∷ streaks (suc k) rs
  ]

  -- The loop ends with an error just after an attempt that met a SystemError, and without one just
  -- after Quit.
  abbrev pub Ends : List (Round E) → Option (Result (DaemonError E) (Unit {0})) → Type 0
  Ends rs none = Unit {0}
  Ends rs (some (ok _)) = any (λ r. elim r [ quits ↦ true | tries a ↦ false ]) rs ≡ true
  Ends rs (some (err e)) = is_system_error e ≡ true

doubled : (x : ℕ) → 1 ≤ x → max 1 (min (min x 60 * 2) 60) ≡ min (2 * x) 60
unfolding max
doubled x h = ground (arith, h)

positive : (k : ℕ) → 1 ≤ 2 ^ k
positive zero = omega arith
positive (suc k) = rw (pow_step 2 k) (omega (arith, positive k))

next_wait-backoff : (k : ℕ) → next_wait (backoff k) false ≡ backoff (suc k)
unfolding next_wait clamp min_wait max_wait growth_factor max
next_wait-backoff zero = refl
next_wait-backoff (suc k) = rw (pow_step 2 k) (doubled (2 ^ k) (positive k))

module _ {E : Type 0} where
  serve_rounds-backoff :
      (k : ℕ) (rs : List (Round E)) → (serve_rounds (backoff k) rs).0 ≡ map backoff (streaks k rs)
  unfolding serve_rounds next_wait
  serve_rounds-backoff k [] = refl
  serve_rounds-backoff k (quits ∷ rs) = refl
  serve_rounds-backoff k (tries a ∷ rs) = elim (Result-cases (attempt a)) [
    | inr (e, h) ↦ rw (h, serve_rounds, streaks) refl
    | inl (true, h) ↦
        rw (h, serve_rounds, streaks) (ap (λ x. backoff k ∷ x) (serve_rounds-backoff 0 rs))
    | inl (false, h) ↦
        rw (h, serve_rounds, streaks)
          (rw (next_wait-backoff k) (ap (λ x. backoff k ∷ x) (serve_rounds-backoff (suc k) rs)))
  ]

  attempt_lem : (a : Attempt E) (e : DaemonError E) → attempt a ≡ err e → is_system_error e ≡ true
  unfolding attempt after_serve is_system_error
  attempt_lem a e h = elim (Result-cases (connect a)) [
    | inr (x, c) ↦ elim (Bool-cases (is_system_error x)) [
      | inl y ↦ ground (arith, h, c, y)
      | inr y ↦ absurd (ground (arith, h, c, y))
    ]
    | inl (x, c) ↦ ended a.served (ground (arith, h, c))
  ]
    where
      ended : (s : Ending E) → after_serve s ≡ err e → is_system_error e ≡ true
      ended (fails_with x) q = ground (arith, q)
      ended (disconnects l) q = absurd (cc q)

  serve_rounds-Ends : (wait : ℕ) (rs : List (Round E)) → Ends rs (serve_rounds wait rs).1
  unfolding serve_rounds
  serve_rounds-Ends wait [] = tt
  serve_rounds-Ends wait (quits ∷ rs) = refl
  serve_rounds-Ends wait (tries a ∷ rs) = elim (Result-cases (attempt a)) [
    | inr (e, h) ↦ rw (h, serve_rounds) (attempt_lem a e h)
    | inl (success, h) ↦
        rw (h, serve_rounds)
          (later (serve_rounds (next_wait wait success) rs).1
            (serve_rounds-Ends (next_wait wait success) rs))
  ]
    where
      later : (r : Option (Result (DaemonError E) (Unit {0}))) → Ends rs r → Ends (tries a ∷ rs) r
      later none p = tt
      later (some (ok _)) p = p
      later (some (err e)) p = p

  -- A daemon that has not quit and that systemd has answered waits before each attempt as long as the
  -- number of attempts that have failed in a row says: not at all after none, and min(2 ^ k, 60) seconds
  -- after k + 1 failures.
  pub serve-backoff : (rs : List (Round E)) → (serve false none rs).0 ≡ map backoff (streaks 0 rs)
  unfolding serve
  serve-backoff rs = serve_rounds-backoff 0 rs

  -- A daemon that has not quit and that systemd has answered returns an error only if that is a
  -- SystemError, and returns without one only if one of the rounds is Quit.
  pub serve-Ends : (rs : List (Round E)) → Ends rs (serve false none rs).1
  unfolding serve
  serve-Ends rs = serve_rounds-Ends 0 rs
