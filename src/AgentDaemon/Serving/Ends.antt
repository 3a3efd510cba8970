-- ===== src/AgentDaemon/Serving/Ends.antt =====
-- What Serve of windows-agent/internal/daemon/daemon.go leaves when it returns.
use ubuntu_pro_for_wsl.Prelude.{
  ◌+◌, ◌≡◌, ◌≢◌, refl, sym, subst, ◌∙◌, ap, Bool, true, false, List, [], ◌∷◌, Option, none, some,
  Result, ok, err, arith, Option-cases, Result-cases, inl, inr,
}
use ubuntu_pro_for_wsl.AgentDaemon.Serving.{
  quit_graceful, quit_force, restart, ServeError, called_twice, called_after_quit,
  restart_requested, context_cancelled, no_monitoring, no_listener, no_address_file, server_failed,
  AgentDaemon, Setup, Waking, context_ends, server_ends, requests, Round, choose_ip, start_serving,
  stop_server, end_server, await_end, remove_address, settle_round, try_serving_once, clean_up,
  serve_rounds, serve,
}

-- A daemon that does not serve: no server, and no file with an address unless one could not be removed.
abbrev pub IsQuiet : Bool → AgentDaemon → Type 0
IsQuiet removed d = (d.servers ≡ 0) × (removed ≡ true → d.address_file ≡ none)

-- The error of starting to serve leaves no server, and without an error there is one.
abbrev Starts : {E : Type 0} → AgentDaemon × Result (ServeError E) (Unit {0}) → Type 0
Starts (d, ok _) = d.servers ≡ 1
Starts (d, err e) = d.servers ≡ 0

module _ {E : Type 0} where
  choose_ip-servers : (a : Setup E) (d : AgentDaemon) → (choose_ip a d).0.servers ≡ d.servers
  unfolding choose_ip
  choose_ip-servers a d = ground arith

  start_serving-Starts :
      (a : Setup E) (d : AgentDaemon) → d.servers ≡ 0 → Starts (start_serving a d)
  unfolding start_serving
  start_serving-Starts a d z = elim (Result-cases (choose_ip a d).1) [
    | inr (e, c) ↦ rw (c, start_serving) (choose_ip-servers a d ∙ z)
    | inl (ip, c) ↦ elim (Result-cases (a.listen ip)) [
      | inr (e, l) ↦ rw (c, start_serving) (rw (l, start_serving) (choose_ip-servers a d ∙ z))
      | inl (addr, l) ↦ elim (Option-cases a.write_error) [
        | inr ((e, left), w) ↦
            rw (c, start_serving)
              (rw (l, start_serving) (rw (w, start_serving) (choose_ip-servers a d ∙ z)))
        | inl w ↦
            rw (c, start_serving)
              (rw (l, start_serving)
                (rw (w, start_serving) (ap (λ n. n + 1) (choose_ip-servers a d ∙ z))))
      ]
    ]
  ]

  settle_round-servers :
      (waking : Waking) (e : Option E) (s : AgentDaemon × Result (ServeError E) (Unit {0}))
      → Starts s
      → (settle_round waking e s).0.servers ≡ 0
  unfolding settle_round await_end stop_server end_server
  settle_round-servers context_ends e (d, ok _) h = omega (arith, h)
  settle_round-servers server_ends e (d, ok _) h = omega (arith, h)
  settle_round-servers (requests quit_graceful) e (d, ok _) h = omega (arith, h)
  settle_round-servers (requests quit_force) e (d, ok _) h = omega (arith, h)
  settle_round-servers (requests restart) e (d, ok _) h = omega (arith, h)
  settle_round-servers context_ends e (d, err x) h = h
  settle_round-servers server_ends e (d, err x) h = h
  settle_round-servers (requests quit_graceful) e (d, err x) h = h
  settle_round-servers (requests quit_force) e (d, err x) h = h
  settle_round-servers (requests restart) e (d, err x) h = h

  -- Whether no os.Remove fails.
  abbrev pub removes : List (Round E) → Bool
  removes [] = true
  removes (round ∷ rounds) = elim round.remove_error [ some _ ↦ false | none ↦ removes rounds ]

  -- What Serve returns and leaves: it has returned, or rounds are left to serve.
  abbrev pub Ends : Bool → AgentDaemon × Option (Result (ServeError E) (Unit {0})) → Type 0
  Ends removed (d, some r) =
      (r ≢ err restart_requested) × (d.stopped ≡ true) × (d.net_subs ≡ none) × IsQuiet removed d
  Ends removed (d, none) = d.servers ≡ 0

  -- An attempt leaves no server, and no file with an address if that can be removed.
  try_serving_once-IsQuiet :
      (round : Round E) (d : AgentDaemon)
      → d.servers ≡ 0
      → IsQuiet (removes (round ∷ [])) (try_serving_once round d).0
  unfolding try_serving_once remove_address
  try_serving_once-IsQuiet round d z =
      let started = start_serving round.setup d in
      let settled =
        settle_round-servers round.waking round.server_error started
          (start_serving-Starts round.setup d z) in
      elim (Option-cases round.remove_error) [
        | inl q ↦ rw q (settled, λ _. refl)
        | inr (e, q) ↦ rw q (settled, λ h. absurd (cc h))
      ]

  more_rounds-IsQuiet :
      (round : Round E) (rounds : List (Round E)) (d : AgentDaemon)
      → IsQuiet (removes (round ∷ [])) d
      → IsQuiet (removes (round ∷ rounds)) d
  more_rounds-IsQuiet round rounds d (z, f) = elim (Option-cases round.remove_error) [
    | inl q ↦ (z, λ _. f (rw q refl))
    | inr (e, q) ↦ (z, λ h. absurd (cc (q, h)))
  ]

  more_rounds-Ends :
      (round : Round E) (rounds : List (Round E))
      (x : AgentDaemon × Option (Result (ServeError E) (Unit {0})))
      → Ends (removes rounds) x
      → Ends (removes (round ∷ rounds)) x
  more_rounds-Ends round rounds (d, none) h = h
  more_rounds-Ends round rounds (d, some r) (a, b, c, (z, f)) =
      elim (Option-cases round.remove_error) [
        | inl q ↦ (a, b, c, (z, λ h. f (cc (q, h))))
        | inr (e, q) ↦ (a, b, c, (z, λ h. absurd (cc (q, h))))
      ]

  serve_rounds-Ends :
      (rounds : List (Round E)) (d : AgentDaemon)
      → d.servers ≡ 0
      → Ends (removes rounds) (serve_rounds rounds d)
  unfolding serve_rounds clean_up
  serve_rounds-Ends [] d z = z
  serve_rounds-Ends (round ∷ rounds) d z =
      by_result (try_serving_once round d) (try_serving_once-IsQuiet round d z)
        (λ d' z'. serve_rounds-Ends rounds d' z')
    where
      ends :
          (d' : AgentDaemon) {r : Result (ServeError E) (Unit {0})}
          → IsQuiet (removes (round ∷ [])) d'
          → r ≢ err restart_requested
          → Ends (removes (round ∷ rounds)) (clean_up d', some r)
      ends d' q n = elim (Option-cases d'.net_subs) [
        | inl k ↦ rw (k, clean_up) (n, refl, k, more_rounds-IsQuiet round rounds d' q)
        | inr (w, k) ↦ rw (k, clean_up) (n, refl, refl, more_rounds-IsQuiet round rounds d' q)
      ]

      by_result :
          (x : AgentDaemon × Result (ServeError E) (Unit {0}))
          → IsQuiet (removes (round ∷ [])) x.0
          → ((d' : AgentDaemon) → d'.servers ≡ 0 → Ends (removes rounds) (serve_rounds rounds d'))
          → Ends (removes (round ∷ rounds)) (elim x.1 [
            | ok u ↦ (clean_up x.0, some (ok u))
            | err restart_requested ↦ serve_rounds rounds x.0
            | err e ↦ (clean_up x.0, some (err e))
          ])
      by_result (d', ok u) q ih = ends d' q (λ h. cc h)
      by_result (d', err restart_requested) q ih =
          more_rounds-Ends round rounds (serve_rounds rounds d') (ih d' q.0)
      by_result (d', err called_twice) q ih = ends d' q (λ h. cc h)
      by_result (d', err called_after_quit) q ih = ends d' q (λ h. cc h)
      by_result (d', err context_cancelled) q ih = ends d' q (λ h. cc h)
      by_result (d', err (no_monitoring e)) q ih = ends d' q (λ h. cc h)
      by_result (d', err (no_listener e)) q ih = ends d' q (λ h. cc h)
      by_result (d', err (no_address_file e)) q ih = ends d' q (λ h. cc h)
      by_result (d', err (server_failed e)) q ih = ends d' q (λ h. cc h)

  serve-serve_rounds :
      (rounds : List (Round E)) (d : AgentDaemon)
      → d.serving ≡ false
      → d.stopped ≡ false
      → serve rounds d ≡ serve_rounds rounds (record d { serving = true })
  unfolding serve
  serve-serve_rounds rounds d s t = ground (arith, s, t)

  -- From a daemon that was not served and has no server, over every sequence of rounds: when Serve
  -- returns, its error is no request to restart, no gRPC server serves, no NetWatcher is left in netSubs,
  -- the daemon is stopped, and the file with its address is gone, if none of the calls of os.Remove
  -- has failed; while it restarts, no server serves either.
  pub serve-Ends :
      (rounds : List (Round E)) (d : AgentDaemon)
      → d.serving ≡ false
      → d.stopped ≡ false
      → d.servers ≡ 0
      → Ends (removes rounds) (serve rounds d)
  serve-Ends rounds d s t z =
      subst (Ends (removes rounds)) (sym (serve-serve_rounds rounds d s t))
        (serve_rounds-Ends rounds (record d { serving = true }) z)
