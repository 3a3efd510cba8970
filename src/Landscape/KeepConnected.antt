-- ===== src/Landscape/KeepConnected.antt =====
-- The loop of keepConnected of windows-agent/internal/proservices/landscape/service.go, round by round.
-- What a round meets is an argument: what wakes it, how connecting ends, and how the connection ends.
-- Waits are in seconds; `none` is the panic of closing a channel twice.
pub mod Pace
pub mod Drops
use ubuntu_pro_for_wsl.Prelude.{
  ℕ, ◌*◌, Bool, true, false, List, [], ◌∷◌, Option, none, some, Result, ok, err, if◌then◌else◌, min,
  String,
}
use ubuntu_pro_for_wsl.Landscape.Retry.{RetryConnection, new_retry_connection, request, reset}

unfoldable pub min_wait : ℕ
min_wait = 1

unfoldable pub max_wait : ℕ
max_wait = 600

unfoldable pub growth_factor : ℕ
growth_factor = 2

-- The error of a connection: a noConfigError, or another one.
pub data ConnectError (E : Type 0) : Type 0 where
  no_config : ConnectError E
  not_connected : E → ConnectError E

-- What ends the sleep of a round: the context, a request to connect, or the timer, which is not started
-- while the service is disabled.
pub data Wake : Type 0 where
  context_done requested cooled : Wake

-- What ends the connection of a round: the context, a request to connect anew, or the server, and whether
-- the second timer had gone off by then.
pub data End : Type 0 where
  stops reconnects : End
  drops : Bool → End

pub record Round (E : Type 0) : Type 0 where
  pub wake : Wake
  pub connection : Result (ConnectError E) (Unit {0})
  pub end : End

-- The variables of the loop. `first` is whether no round has tried to connect yet; `started` is whether
-- the channel that connect waits for is closed.
pub record Loop : Type 0 where
  pub wait : ℕ
  pub first : Bool
  pub started : Bool
  pub disabled : Bool
  pub retrier : RetryConnection

unfoldable pub new_loop : Loop
new_loop = record {
  wait = 0;
  first = true;
  started = false;
  disabled = false;
  retrier = new_retry_connection;
}

-- The end of a round: the loop, and whether it goes on.
abbrev pub Ended : Type 0
Ended = Option (Loop × Bool)

fails : Loop → Loop
unfolding growth_factor max_wait
fails l = record l { wait = min (growth_factor * l.wait) max_wait }

succeeds : Loop → Loop
unfolding min_wait
succeeds l = record l { wait = min_wait }

-- A connection that the server drops is a failure if the second timer had gone off.
unfoldable pub end_connection : End → Loop → Ended
unfolding fails succeeds
end_connection stops l = some (l, false)
end_connection (drops true) l = some (fails l, true)
end_connection (drops false) l = some (succeeds l, true)
end_connection reconnects l = elim (request l.retrier) [
  | none ↦ none
  | some r ↦ some (succeeds (record l { retrier = r }), true)
]

-- After the first connectOnce its error is sent to started, which is closed: `none` is the panic if it is
-- closed already.
unfoldable pub first_wait : Loop → Option Loop
unfolding min_wait
first_wait l =
    if l.first
    then (if l.started
        then none
        else some (record l { wait = min_wait; first = false; started = true }))
    else some l

-- What follows connectOnce.
connected : {E : Type 0} → Round E → Loop → Ended
unfolding end_connection fails
connected round l = elim round.connection [
  | ok _ ↦ end_connection round.end (record l { disabled = false })
  | err no_config ↦ some (record l { disabled = true }, true)
  | err (not_connected e) ↦ some (fails l, true)
]

-- The requests that are there are satisfied before connecting.
attempt : {E : Type 0} → Round E → Option RetryConnection → Loop → Ended
unfolding connected first_wait
attempt round none l = none
attempt round (some r) l = elim (reset r) [
  | none ↦ none
  | some r' ↦ elim (first_wait (record l { retrier = r' })) [
    | none ↦ none
    | some l' ↦ connected round l'
  ]
]

unfoldable pub run_round : {E : Type 0} → Round E → Loop → Ended
unfolding attempt
run_round round l = elim round.wake [
  | context_done ↦ some (l, false)
  | requested ↦ attempt round (request l.retrier) l
  | cooled ↦ if l.disabled then some (l, true) else attempt round (some l.retrier) l
]

unfoldable pub run_rounds : {E : Type 0} → List (Round E) → Loop → Option Loop
run_rounds [] l = some l
run_rounds (round ∷ rounds) l = elim (run_round round l) [
  | none ↦ none
  | some (l', false) ↦ some l'
  | some (l', true) ↦ run_rounds rounds l'
]
