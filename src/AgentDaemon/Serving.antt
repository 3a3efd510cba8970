-- ===== src/AgentDaemon/Serving.antt =====
-- windows-agent/internal/daemon/daemon.go: how the agent serves, and what Quit and restart do. What
-- the network and the file system answer, and what wakes a round, is an argument.
pub mod Ends
use ubuntu_pro_for_wsl.Prelude.{
  ℕ, ◌+◌, ◌-◌, Bool, true, false, List, [], ◌∷◌, ◌++◌, Option, none, some, Result, ok, err, String,
  if◌then◌else◌,
}

pub data QuitRequest : Type 0 where
  quit_graceful quit_force restart : QuitRequest

pub data ServeError (E : Type 0) : Type 0 where
  called_twice called_after_quit restart_requested context_cancelled : ServeError E
  no_monitoring no_listener no_address_file server_failed : E → ServeError E

-- The agent's daemon. `address_file` is the file with its address; `servers` are the gRPC servers that
-- serve; `stops` is how each was stopped, by force or not. `subscribed` is how many NetWatchers were made,
-- `net_subs` the number of the last one, if it is still there, and `stopped_subs` those that were told to
-- stop.
pub record AgentDaemon : Type 0 where
  pub serving : Bool
  pub stopped : Bool
  pub address_file : Option String
  pub servers : ℕ
  pub stops : List Bool
  pub subscribed : ℕ
  pub net_subs : Option ℕ
  pub stopped_subs : List ℕ

unfoldable pub new_daemon : Option String → AgentDaemon
new_daemon file = record {
  serving = false;
  stopped = false;
  address_file = file;
  servers = 0;
  stops = [];
  subscribed = 0;
  net_subs = none;
  stopped_subs = [];
}

-- What `serve` meets: the address of WSL, the subscription to the network, the listener with its
-- address, and os.WriteFile with what it leaves.
pub record Setup (E : Type 0) : Type 0 where
  pub wsl_ip : Result E String
  pub subscribe_error : Option E
  pub listen : String → Result E String
  pub write_error : Option (E × Option String)

-- What ends a round: the context, the end of the server, or a request of Quit or restart.
pub data Waking : Type 0 where
  context_ends server_ends : Waking
  requests : QuitRequest → Waking

-- A round of Serve, with the error of the server, if it ends with one, and that of os.Remove.
pub record Round (E : Type 0) : Type 0 where
  pub setup : Setup E
  pub waking : Waking
  pub server_error : Option E
  pub remove_error : Option E

-- A server that has ended, after a stop or by itself.
unfoldable pub stop_server : Bool → AgentDaemon → AgentDaemon
stop_server force d = record d { servers = d.servers - 1; stops = force ∷ d.stops }

unfoldable pub end_server : AgentDaemon → AgentDaemon
end_server d = record d { servers = d.servers - 1 }

-- cleanup: an error of Stop is logged.
unfoldable pub clean_up : AgentDaemon → AgentDaemon
clean_up d = elim d.net_subs [
  | none ↦ record d { stopped = true }
  | some n ↦ record d { stopped = true; net_subs = none; stopped_subs = n ∷ d.stopped_subs }
]

module _ {E : Type 0} where
  -- The address to listen on: the loopback address if that of WSL is not known, and then the network is
  -- watched: the watcher takes the place of that of an earlier round, which nobody stops.
  unfoldable pub choose_ip : Setup E → AgentDaemon → AgentDaemon × Result (ServeError E) String
  choose_ip a d = elim a.wsl_ip [
    | ok ip ↦ (d, ok ip)
    | err _ ↦ elim a.subscribe_error [
      | some e ↦ (d, err (no_monitoring e))
      | none ↦
          (record d { subscribed = d.subscribed + 1; net_subs = some d.subscribed }, ok "127.0.0.1")
    ]
  ]

  -- serve: a gRPC server serves, or there is an error.
  unfoldable pub start_serving :
      Setup E → AgentDaemon → AgentDaemon × Result (ServeError E) (Unit {0})
  unfolding choose_ip
  start_serving a d =
      let (d', r) = choose_ip a d in
      elim r [
        | err e ↦ (d', err e)
        | ok ip ↦ elim (a.listen ip) [
          | err e ↦ (d', err (no_listener e))
          | ok addr ↦ elim a.write_error [
            | some (e, left) ↦ (record d' { address_file = left }, err (no_address_file e))
            | none ↦ (record d' { address_file = some addr; servers = d'.servers + 1 }, ok tt)
          ]
        ]
      ]

  -- What is read from the channel of errors.
  unfoldable pub server_result : Option E → Result (ServeError E) (Unit {0})
  server_result none = ok tt
  server_result (some e) = err (server_failed e)

  -- The select of tryServingOnce, with a server that serves. The error of the context is joined with
  -- that of the server.
  unfoldable pub await_end :
      Waking → Option E → AgentDaemon → AgentDaemon × Result (ServeError E) (Unit {0})
  unfolding stop_server end_server server_result
  await_end context_ends e d = (stop_server true d, err context_cancelled)
  await_end server_ends e d = (end_server d, server_result e)
  await_end (requests quit_graceful) e d = (stop_server false d, server_result e)
  await_end (requests quit_force) e d = (stop_server true d, server_result e)
  await_end (requests restart) e d = (stop_server false d, err restart_requested)

  -- The deferred function of tryServingOnce, without its signal. A failed os.Remove is logged.
  unfoldable pub remove_address : Option E → AgentDaemon → AgentDaemon
  remove_address none d = record d { address_file = none }
  remove_address (some e) d = d

  -- What follows serve: with an error of it there is nothing to stop, and a request to restart is
  -- heard, if it is what the select takes.
  unfoldable pub settle_round :
      Waking
      → Option E
      → AgentDaemon × Result (ServeError E) (Unit {0})
      → AgentDaemon × Result (ServeError E) (Unit {0})
  unfolding await_end
  settle_round waking e (d, ok _) = await_end waking e d
  settle_round (requests restart) e (d, err x) = (d, err restart_requested)
  settle_round context_ends e (d, err x) = (d, err context_cancelled)
  settle_round _ e (d, err x) = (d, err x)

  unfoldable pub try_serving_once :
      Round E → AgentDaemon → AgentDaemon × Result (ServeError E) (Unit {0})
  unfolding start_serving settle_round remove_address
  try_serving_once round d =
      let (d', r) = settle_round round.waking round.server_error (start_serving round.setup d) in
      (remove_address round.remove_error d', r)

  -- The loop of Serve. With no round left it is serving still, which is `none`.
  unfoldable pub serve_rounds :
      List (Round E) → AgentDaemon → AgentDaemon × Option (Result (ServeError E) (Unit {0}))
  unfolding try_serving_once
  serve_rounds [] d = (d, none)
  serve_rounds (round ∷ rounds) d =
      let (d', r) = try_serving_once round d in
      let rest = serve_rounds rounds d' in
      elim r [
        | ok u ↦ (clean_up d', some (ok u))
        | err restart_requested ↦ rest
        | err e ↦ (clean_up d', some (err e))
      ]

  -- Serve
  unfoldable pub serve :
      List (Round E) → AgentDaemon → AgentDaemon × Option (Result (ServeError E) (Unit {0}))
  unfolding serve_rounds
  serve rounds d =
      if d.serving
      then (d, some (err called_twice))
      else (if d.stopped
          then (d, some (err called_after_quit))
          else serve_rounds rounds (record d { serving = true }))

-- The request that Quit sends, if Serve was called.
unfoldable pub quit : Bool → AgentDaemon → Option QuitRequest
quit force d = if d.serving then some (if force then quit_force else quit_graceful) else none

-- restart
unfoldable pub request_restart : AgentDaemon → Option QuitRequest
request_restart d = if d.serving then some restart else none
