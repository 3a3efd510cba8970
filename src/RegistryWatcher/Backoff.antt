-- ===== src/RegistryWatcher/Backoff.antt =====
-- How long run of windows-agent/internal/proservices/registrywatcher/watcher.go sleeps after failures.
use native.Mathlib.Omega.{pow_step}
use ubuntu_pro_for_wsl.Prelude.{
  ℕ, suc, ◌+◌, ◌*◌, ◌^◌, min, ◌≡◌, refl, true, false, List, [], ◌∷◌, arith, All, length, ◌∙◌, ap,
}
use ubuntu_pro_for_wsl.RegistryWatcher.{
  not_opened, Round, Service, min_rate, max_rate, growth_factor, watch_once, fall_back, run_round,
  run, open_watched,
}
use ubuntu_pro_for_wsl.RegistryWatcher.Handles.{read_then_push-IsQuiet}

-- A round in which the key cannot be opened, and nothing is cancelled.
pub record IsFailing {E : Type 0} (r : Round E) : Type 0 where
  pub error : E
  pub not_open : r.opening ≡ not_opened error
  pub not_stopped : r.stopped ≡ false
  pub not_stopped_asleep : r.stopped_asleep ≡ false

module _ {E : Type 0} where
  run_round-rate :
      (r : Round E) (s : Service)
      → IsFailing r
      → (((run_round r s).0).retry_rate ≡ min (growth_factor * s.retry_rate) max_rate)
        × ((run_round r s).1 ≡ true)
  unfolding run_round watch_once fall_back open_watched
  run_round-rate r s f =
      let q = read_then_push-IsQuiet r.read_again s in
      let rate = q.retry_rate in
      rw (f.not_stopped, f.not_open, f.not_stopped_asleep, rate) (refl, refl)

doubled :
    (k rate : ℕ)
    → rate ≡ min (2 ^ k) max_rate
    → min (growth_factor * rate) max_rate ≡ min (2 ^ suc k) max_rate
doubled k rate e = capped (2 ^ k) (2 ^ suc k) rate (pow_step 2 k) e
  where
    capped : (p q r : ℕ) → q ≡ 2 * p → r ≡ min p 1800 → min (2 * r) 1800 ≡ min q 1800
    capped p q r e f = omega (arith, e, f)

module _ {E : Type 0} where
  run-failing :
      (rs : List (Round E)) (s : Service) (k n : ℕ)
      → All IsFailing rs
      → s.retry_rate ≡ min (2 ^ k) max_rate
      → n ≡ k + length rs
      → (run rs s).retry_rate ≡ min (2 ^ n) max_rate
  unfolding run
  run-failing [] s k n h e m = e ∙ ap (λ x. min (2 ^ x) max_rate) (omega (arith, m))
  run-failing (r ∷ rs) s k n (f, h) e m =
      let (rate, go_on) = run_round-rate r s f in
      rw (go_on, run)
        (run-failing rs (run_round r s).0 (suc k) n h (rate ∙ doubled k s.retry_rate e)
          (omega (arith, m)))

  -- After any number `n` of rounds in a row in which the key cannot be opened, from the least rate
  -- on, the next sleep is 2 ^ n times the least rate, but no longer than the largest.
  pub run_backoff :
      (rs : List (Round E)) (s : Service)
      → All IsFailing rs
      → s.retry_rate ≡ min_rate
      → (run rs s).retry_rate ≡ min (2 ^ length rs) max_rate
  run_backoff rs s h e = run-failing rs s 0 (length rs) h (e ∙ omega arith) (omega arith)
