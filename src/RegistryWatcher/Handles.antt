-- ===== src/RegistryWatcher/Handles.antt =====
-- run of windows-agent/internal/proservices/registrywatcher/watcher.go closes what it opens, and
-- never leaves the bounds of its rate.
use ubuntu_pro_for_wsl.Prelude.{
  ℕ, ◌*◌, ◌≤◌, min, ◌≡◌, refl, List, [], ◌∷◌, Result, ok, err, arith, All, ◌∙◌, Bool-cases,
  Option-cases, inl, inr,
}
use ubuntu_pro_for_wsl.Config.Registry.{RegistryData}
use ubuntu_pro_for_wsl.RegistryWatcher.{
  Opening, opened, key_not_exist, not_opened, Snapshot, Round, Service, min_rate, max_rate,
  growth_factor, load_opened, load_registry, push_loaded, read_then_push, open_watched, watch_event,
  watch_once, fall_back, run_round, run, open_key, close_key, open_event, close_event,
}

-- The same keys and events are open, and the rate and the sleeps are the same.
pub record IsQuiet (s s' : Service) : Type 0 where
  pub keys : s'.keys ≡ s.keys
  pub events : s'.events ≡ s.events
  pub retry_rate : s'.retry_rate ≡ s.retry_rate
  pub slept : s'.slept ≡ s.slept

IsQuiet-trans : (a b c : Service) → IsQuiet a b → IsQuiet b c → IsQuiet a c
IsQuiet-trans a b c p q = record {
  keys = q.keys ∙ p.keys;
  events = q.events ∙ p.events;
  retry_rate = q.retry_rate ∙ p.retry_rate;
  slept = q.slept ∙ p.slept;
}

-- What is done between an opening and its deferred closing is quiet if the whole is.
between_keys : (s s' : Service) → IsQuiet (open_key s) s' → IsQuiet s (close_key s')
unfolding open_key close_key
between_keys s s' q = record {
  keys = omega (arith, q.keys);
  events = q.events;
  retry_rate = q.retry_rate;
  slept = q.slept;
}

between_events : (s s' : Service) → IsQuiet (open_event s) s' → IsQuiet s (close_event s')
unfolding open_event close_event
between_events s s' q = record {
  keys = q.keys;
  events = omega (arith, q.events);
  retry_rate = q.retry_rate;
  slept = q.slept;
}

nothing : (s : Service) → IsQuiet s s
nothing s = record { keys = refl; events = refl; retry_rate = refl; slept = refl }

module _ {E : Type 0} where
  load_opened-IsQuiet :
      (snap : Snapshot E) (o : Opening E) (s : Service) → IsQuiet s (load_opened snap o s).0
  unfolding load_opened
  load_opened-IsQuiet snap opened s = between_keys s (open_key s) (nothing (open_key s))
  load_opened-IsQuiet snap key_not_exist s = nothing s
  load_opened-IsQuiet snap (not_opened e) s = nothing s

  push_loaded-IsQuiet :
      (s : Service) (p : Service × Result E RegistryData)
      → IsQuiet s p.0
      → IsQuiet s (push_loaded p)
  unfolding push_loaded
  push_loaded-IsQuiet s (s', ok d) q = record {
    keys = q.keys;
    events = q.events;
    retry_rate = q.retry_rate;
    slept = q.slept;
  }
  push_loaded-IsQuiet s (s', err e) q = q

  pub read_then_push-IsQuiet : (snap : Snapshot E) (s : Service) → IsQuiet s (read_then_push snap s)
  unfolding read_then_push load_registry
  read_then_push-IsQuiet snap s =
      push_loaded-IsQuiet s (load_opened snap snap.opening s)
        (load_opened-IsQuiet snap snap.opening s)

  watch_event-IsQuiet : (r : Round E) (s : Service) → IsQuiet s (watch_event r s).0
  unfolding watch_event
  watch_event-IsQuiet r s = elim (Option-cases r.watching) [
    | inr (e, w) ↦ rw (w, watch_event) (nothing s)
    | inl w ↦
        rw (w, watch_event)
          (between_events s (read_then_push r.read (open_event s))
            (read_then_push-IsQuiet r.read (open_event s)))
  ]

  watch_once-IsQuiet : (r : Round E) (s : Service) → IsQuiet s (watch_once r s).0
  unfolding watch_once
  watch_once-IsQuiet r s = elim (Option-cases (open_watched r.opening r.opening_parent)) [
    | inr (e, o) ↦ rw (o, watch_once) (nothing s)
    | inl o ↦
        rw (o, watch_once)
          (between_keys s (watch_event r (open_key s)).0 (watch_event-IsQuiet r (open_key s)))
  ]

-- The rate is within its bounds, and so was every sleep.
pub record IsPaced (s : Service) : Type 0 where
  pub at_least : min_rate ≤ s.retry_rate
  pub at_most : s.retry_rate ≤ max_rate
  pub sleeps : All (λ t. (min_rate ≤ t) × (t ≤ max_rate)) s.slept

-- The keys and events of `s` are open, and the rate is within its bounds.
abbrev pub Steady : Service → Service → Type 0
Steady s s' = (s'.keys ≡ s.keys) × (s'.events ≡ s.events) × IsPaced s'

quiet-Steady : (s s' : Service) → IsQuiet s s' → IsPaced s → Steady s s'
quiet-Steady s s' q p = (
  q.keys,
  q.events,
  record {
    at_least = rw q.retry_rate p.at_least;
    at_most = rw q.retry_rate p.at_most;
    sleeps = rw q.slept p.sleeps;
  },
)

module _ {E : Type 0} where
  fall_back-Steady : (r : Round E) (s : Service) → IsPaced s → Steady s (fall_back r s).0
  unfolding fall_back
  fall_back-Steady r s p =
      let s' = read_then_push r.read_again s in
      let (k, v, q) = quiet-Steady s s' (read_then_push-IsQuiet r.read_again s) p in
      elim (Bool-cases r.stopped_asleep) [
        | inl h ↦ rw (h, fall_back) (k, v, q)
        | inr h ↦
            rw (h, fall_back)
              (
                k,
                v,
                record {
                  at_least = grown s'.retry_rate q.at_least;
                  at_most = capped s'.retry_rate;
                  sleeps = ((q.at_least, q.at_most), q.sleeps);
                },
              )
      ]
    where
      grown : (rate : ℕ) → min_rate ≤ rate → min_rate ≤ min (growth_factor * rate) max_rate
      grown rate h = omega arith

      capped : (rate : ℕ) → min (growth_factor * rate) max_rate ≤ max_rate
      capped rate = omega arith

  run_round-Steady : (r : Round E) (s : Service) → IsPaced s → Steady s (run_round r s).0
  unfolding run_round watch_once
  run_round-Steady r s p =
      let s' = (watch_once r s).0 in
      let (k, v, q) = quiet-Steady s s' (watch_once-IsQuiet r s) p in
      elim (Bool-cases r.stopped) [
        | inl h ↦ rw (h, run_round) (refl, refl, p)
        | inr h ↦ elim (Bool-cases (watch_once r s).1) [
          | inl f ↦
              let (k', v', q') = fall_back-Steady r s' q in
              rw (h, run_round) (rw (f, run_round) (k' ∙ k, v' ∙ v, q'))
          | inr f ↦
              rw (h, run_round)
                (rw (f, run_round)
                  (
                    k,
                    v,
                    record { at_least = omega arith; at_most = omega arith; sleeps = q.sleeps },
                  ))
        ]
      ]

  -- Over any number of rounds, whatever the registry answers in each, run closes every key and every
  -- event that it opens, its rate stays between the least and the largest, and so does every time
  -- that it sleeps for.
  pub run-Steady : (rs : List (Round E)) (s : Service) → IsPaced s → Steady s (run rs s)
  unfolding run
  run-Steady [] s p = (refl, refl, p)
  run-Steady (r ∷ rs) s p =
      let (k, v, q) = run_round-Steady r s p in
      elim (Bool-cases (run_round r s).1) [
        | inl h ↦
            let (k', v', q') = run-Steady rs (run_round r s).0 q in rw (h, run) (k' ∙ k, v' ∙ v, q')
        | inr h ↦ rw (h, run) (k, v, q)
      ]
