-- ===== src/Landscape/KeepConnected/Pace.antt =====
-- How long keepConnected of windows-agent/internal/proservices/landscape/service.go waits.
use ubuntu_pro_for_wsl.Prelude.{
  ◌≤◌, ◌≡◌, ◌⊎◌, refl, inl, inr, Bool, true, false, List, [], ◌∷◌, Option, none, some,
  if◌then◌else◌, arith, Result-cases,
}
use ubuntu_pro_for_wsl.Landscape.Retry.{RetryConnection, request}
use ubuntu_pro_for_wsl.Landscape.Retry.Flag.{Stands, new-Stands, request-Stands, reset-Stands}
use ubuntu_pro_for_wsl.Landscape.KeepConnected.{
  Round, Wake, context_done, requested, cooled, End, stops, reconnects, drops, no_config,
  not_connected, Loop, Ended, new_loop, min_wait, max_wait, growth_factor, fails, succeeds,
  first_wait, end_connection, connected, attempt, run_round, run_rounds,
}

-- A loop that has not tried to connect has not closed started; one that has waits for one second to ten
-- minutes.
abbrev pub IsReady : Loop → Type 0
IsReady l =
    ((l.first ≡ true) × (l.started ≡ false)) ⊎ ((l.first ≡ false) × (1 ≤ l.wait) × (l.wait ≤ 600))

-- A loop that is ready, and whose retrier stands for a flag.
pub record IsPaced (l : Loop) : Type 0 where
  pub pace : IsReady l
  pub pending : Bool
  pub stands : Stands pending l.retrier

-- A loop that is there, and paced.
abbrev pub Keeps : Option (Loop × Bool) → Type 0
Keeps none = ⊥
Keeps (some (l, go_on)) = IsPaced l

mk-IsPaced :
    (l : Loop)
    → l.first ≡ false
    → 1 ≤ l.wait
    → l.wait ≤ 600
    → (b : Bool) → Stands b l.retrier
    → IsPaced l
mk-IsPaced l f x y b s = record { pace = inr (f, x, y); pending = b; stands = s }

end_connection-Keeps :
    (end : End) (l : Loop) (b : Bool)
    → l.first ≡ false
    → 1 ≤ l.wait
    → l.wait ≤ 600
    → Stands b l.retrier
    → Keeps (end_connection end l)
unfolding end_connection fails succeeds growth_factor max_wait min_wait
end_connection-Keeps stops l b f x y s = mk-IsPaced l f x y b s
end_connection-Keeps (drops true) l b f x y s =
    mk-IsPaced (fails l) f (ground (arith, x, y)) (ground (arith, x, y)) b s
end_connection-Keeps (drops false) l b f x y s =
    mk-IsPaced (succeeds l) f (omega arith) (omega arith) b s
end_connection-Keeps reconnects l b f x y s =
    let (r, e, t) = request-Stands b l.retrier s in
    rw (e, end_connection)
      (mk-IsPaced (succeeds (record l { retrier = r })) f (omega arith) (omega arith) true t)

module _ {E : Type 0} where
  connected-Keeps :
      (round : Round E) (l : Loop) (b : Bool)
      → l.first ≡ false
      → 1 ≤ l.wait
      → l.wait ≤ 600
      → Stands b l.retrier
      → Keeps (connected round l)
  unfolding connected fails growth_factor max_wait
  connected-Keeps round l b f x y s = elim (Result-cases round.connection) [
    | inl (_, c) ↦
        rw (c, connected) (end_connection-Keeps round.end (record l { disabled = false }) b f x y s)
    | inr (no_config, c) ↦ rw (c, connected) (mk-IsPaced (record l { disabled = true }) f x y b s)
    | inr (not_connected e, c) ↦
        rw (c, connected) (mk-IsPaced (fails l) f (ground (arith, x, y)) (ground (arith, x, y)) b s)
  ]

  first-Keeps :
      (round : Round E) (l : Loop) (b : Bool)
      → IsReady l
      → Stands b l.retrier
      → Keeps (elim (first_wait l) [ none ↦ none | some l' ↦ connected round l' ])
  unfolding first_wait min_wait
  first-Keeps round l b (inl (f, g)) s =
      rw (f, first_wait)
        (rw (g, first_wait)
          (connected-Keeps round (record l { wait = 1; first = false; started = true }) b refl
            (omega arith) (omega arith) s))
  first-Keeps round l b (inr (f, x, y)) s =
      rw (f, first_wait) (connected-Keeps round (record l { first = false }) b refl x y s)

  attempt-Keeps :
      (round : Round E) (r : RetryConnection) (l : Loop) (b : Bool)
      → IsReady l
      → Stands b r
      → Keeps (attempt round (some r) l)
  unfolding attempt
  attempt-Keeps round r l b p s =
      let (r', e, t) = reset-Stands b r s in
      rw (e, attempt) (first-Keeps round (record l { retrier = r' }) false p t)

  run_round-Keeps : (round : Round E) (l : Loop) → IsPaced l → Keeps (run_round round l)
  unfolding run_round
  run_round-Keeps round l p = woken round.wake
    where
      woken :
          (w : Wake)
          → Keeps (elim w [
            | context_done ↦ some (l, false)
            | requested ↦ attempt round (request l.retrier) l
            | cooled ↦ if l.disabled then some (l, true) else attempt round (some l.retrier) l
          ])
      woken context_done = p
      woken requested =
          let (r, e, t) = request-Stands p.pending l.retrier p.stands in
          rw e (attempt-Keeps round r l true p.pace t)
      woken cooled = timed l.disabled
        where
          timed :
              (b : Bool) → Keeps (if b then some (l, true) else attempt round (some l.retrier) l)
          timed true = p
          timed false = attempt-Keeps round l.retrier l p.pending p.pace p.stands

  run_rounds-IsPaced_from :
      (rounds : List (Round E)) (l : Loop)
      → IsPaced l
      → (l' : Loop) × (run_rounds rounds l ≡ some l') × IsPaced l'
  unfolding run_rounds
  run_rounds-IsPaced_from [] l p = (l, refl, p)
  run_rounds-IsPaced_from (round ∷ rounds) l p =
      after (run_round round l) (run_round-Keeps round l p)
        (λ l' q. run_rounds-IsPaced_from rounds l' q)
    where
      after :
          (o : Ended)
          → Keeps o
          → ((l' : Loop)
              → IsPaced l'
              → (l'' : Loop) × (run_rounds rounds l' ≡ some l'') × IsPaced l'')
          → (l' : Loop) × (elim o [
            | none ↦ none
            | some (l', false) ↦ some l'
            | some (l', true) ↦ run_rounds rounds l'
          ]
              ≡ some l')
            × IsPaced l'
      after none k ih = absurd k
      after (some (l', false)) k ih = (l', refl, k)
      after (some (l', true)) k ih = ih l' k

  -- Over every sequence of rounds, neither a channel of the retrier nor started is closed twice, and once a
  -- round has tried to connect the wait is between one second and ten minutes.
  pub run_rounds-IsPaced :
      (rounds : List (Round E)) → (l : Loop) × (run_rounds rounds new_loop ≡ some l) × IsPaced l
  unfolding new_loop
  run_rounds-IsPaced rounds =
      run_rounds-IsPaced_from rounds new_loop
        (record { pace = inl (refl, refl); pending = false; stands = new-Stands })
