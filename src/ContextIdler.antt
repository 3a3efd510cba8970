-- ===== src/ContextIdler.antt =====
-- common/grpc/contextidler/contextidler.go: RecvMsg, which resets the idle timer of a stream. What the
-- stream answers is an argument.
pub mod Idle
pub mod Examples
use ubuntu_pro_for_wsl.Prelude.{
  ℕ, ◌+◌, Bool, true, false, List, [], ◌∷◌, Option, none, some, Result, ok, err, if◌then◌else◌,
  ◌==◌,
}

-- The code of a gRPC status; codes.Canceled and codes.DeadlineExceeded.
unfoldable pub canceled : ℕ
canceled = 1

unfoldable pub deadline_exceeded : ℕ
deadline_exceeded = 4

-- An error of RecvMsg, of the stream's and of the one that wraps it: io.EOF, or the status of a code.
pub data RecvError : Type 0 where
  eof : RecvError
  status : ℕ → RecvError

-- A stream: whether its timer runs; `resets` counts the
-- resets of the timer.
pub record IdlerStream : Type 0 where
  pub is_running : Bool
  pub resets : ℕ

-- timer.Stop: whether it has stopped the timer.
unfoldable pub stop_timer : IdlerStream → IdlerStream × Bool
stop_timer s = (record s { is_running = false }, s.is_running)

-- Whether status.Convert(err).Code() is codes.Canceled; that of io.EOF is codes.Unknown.
unfoldable pub is_canceled : RecvError → Bool
unfolding canceled
is_canceled eof = false
is_canceled (status code) = code == canceled

-- RecvMsg, with the error of the stream, if it returns one.
unfoldable pub recv_msg : Option RecvError → IdlerStream → IdlerStream × Option RecvError
unfolding stop_timer is_canceled deadline_exceeded
recv_msg none s =
    let (s', _) = stop_timer s in (record s' { is_running = true; resets = s'.resets + 1 }, none)
recv_msg (some e) s =
    let (s', stopped) = stop_timer s in
    if stopped
    then (s', some (if is_canceled e then eof else e))
    else (s', some (if is_canceled e then status deadline_exceeded else e))

-- Either a message arrives, or the stream returns an error, or the timer goes off.
pub data IdlerEvent : Type 0 where
  message timer_fires : IdlerEvent
  stream_error : RecvError → IdlerEvent

unfoldable pub idler_step : IdlerEvent → IdlerStream → IdlerStream × Option RecvError
unfolding recv_msg
idler_step message s = recv_msg none s
idler_step timer_fires s = (record s { is_running = false }, none)
idler_step (stream_error e) s = recv_msg (some e) s

-- The events, up to the first error that RecvMsg returns.
unfoldable pub run_idler : List IdlerEvent → IdlerStream → IdlerStream × Option RecvError
unfolding idler_step
run_idler [] s = (s, none)
run_idler (e ∷ es) s =
    let (s', r) = idler_step e s in
    let rest = run_idler es s' in elim r [ some x ↦ (s', some x) | none ↦ rest ]
