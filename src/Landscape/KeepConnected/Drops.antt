-- ===== src/Landscape/KeepConnected/Drops.antt =====
-- How keepConnected of windows-agent/internal/proservices/landscape/service.go takes a connection that
-- the server drops.
use ubuntu_pro_for_wsl.Prelude.{
  ℕ, zero, suc, ◌+◌, ◌*◌, ◌^◌, ◌≡◌, refl, ◌∙◌, ap, Bool, true, false, List, [], ◌∷◌, some, ok,
  if◌then◌else◌, min, arith,
}
use native.Mathlib.Omega.{pow_step}
use ubuntu_pro_for_wsl.Landscape.Retry.{RetryConnection}
use ubuntu_pro_for_wsl.Landscape.Retry.Flag.{Stands, reset-Stands}
use ubuntu_pro_for_wsl.Landscape.KeepConnected.{
  Round, cooled, drops, Loop, min_wait, max_wait, growth_factor, fails, succeeds, first_wait,
  end_connection, connected, attempt, run_round, run_rounds,
}

module _ {E : Type 0} where
  -- A round that the timer wakes, that connects, and that the server drops.
  abbrev pub dropped : Bool → Round E
  dropped timer = record { wake = cooled; connection = ok tt; end = drops timer }

  abbrev pub times : ℕ → Round E → List (Round E)
  times zero round = []
  times (suc n) round = round ∷ times n round

-- A loop that has connected before, and waits for w seconds.
abbrev pub connected_loop : ℕ → RetryConnection → Loop
connected_loop w r = record {
  wait = w;
  first = false;
  started = true;
  disabled = false;
  retrier = r;
}

doubled : (k : ℕ) → min (2 * min (2 ^ k) 600) 600 ≡ min (2 ^ suc k) 600
doubled k = rw (pow_step 2 k) (omega arith)

module _ (E : Type 0) where
  run_round-dropped :
      (timer : Bool) (w : ℕ) (b : Bool) (r : RetryConnection)
      → Stands b r
      → (r' : RetryConnection) × (run_round {E = E} (dropped timer) (connected_loop w r)
          ≡ some (connected_loop (if timer then min (2 * w) 600 else 1) r', true))
        × Stands false r'
  unfolding run_round attempt connected first_wait end_connection fails succeeds min_wait max_wait
      growth_factor
  run_round-dropped true w b r s =
      let (r', e, t) = reset-Stands b r s in (r', rw (e, attempt) refl, t)
  run_round-dropped false w b r s =
      let (r', e, t) = reset-Stands b r s in (r', rw (e, attempt) refl, t)

  run_rounds-late :
      (n k : ℕ) (b : Bool) (r : RetryConnection)
      → Stands b r
      → (r' : RetryConnection) × (run_rounds {E = E}
            (times n (dropped true))
            (connected_loop (min (2 ^ k) 600) r)
          ≡ some (connected_loop (min (2 ^ (n + k)) 600) r'))
  unfolding run_rounds
  run_rounds-late zero k b r s =
      (r, ap (λ x. some (connected_loop (min (2 ^ x) 600) r)) (omega arith))
  run_rounds-late (suc n) k b r s =
      let (r', e, t) = run_round-dropped true (min (2 ^ k) 600) b r s in
      let (r'', e') = run_rounds-late n (suc k) false r' t in
      (
        r'',
        rw (e, run_rounds)
            (rw (doubled k)
              (e' ∙ ap (λ x. some (connected_loop (min (2 ^ x) 600) r'')) (omega arith))),
      )

  run_rounds-early :
      (n : ℕ) (b : Bool) (r : RetryConnection)
      → Stands b r
      → (r' : RetryConnection) × (run_rounds {E = E} (times n (dropped false)) (connected_loop 1 r)
          ≡ some (connected_loop 1 r'))
  unfolding run_rounds
  run_rounds-early zero b r s = (r, refl)
  run_rounds-early (suc n) b r s =
      let (r', e, t) = run_round-dropped false 1 b r s in
      let (r'', e') = run_rounds-early n false r' t in (r'', rw (e, run_rounds) e')

  -- From a loop that has connected before and waits for one second: after n rounds in a row whose
  -- connection is dropped once the timer has gone off, the wait is min(2 ^ n, 600) seconds; if each is
  -- dropped before that, the wait stays at one second.
  pub run_rounds-dropped :
      (n : ℕ) (b : Bool) (r : RetryConnection)
      → Stands b r
      → ((r' : RetryConnection) × (run_rounds {E = E} (times n (dropped true)) (connected_loop 1 r)
            ≡ some (connected_loop (min (2 ^ n) 600) r')))
        × ((r' : RetryConnection) × (run_rounds {E = E}
                (times n (dropped false))
                (connected_loop 1 r)
              ≡ some (connected_loop 1 r')))
  run_rounds-dropped n b r s =
      let (r', e) = run_rounds-late n 0 b r s in
      (
        (r', e ∙ ap (λ x. some (connected_loop (min (2 ^ x) 600) r')) (omega arith)),
        run_rounds-early n b r s,
      )
