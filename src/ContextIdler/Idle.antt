-- ===== src/ContextIdler/Idle.antt =====
-- How RecvMsg of common/grpc/contextidler/contextidler.go tells a timeout from a cancellation.
use ubuntu_pro_for_wsl.Prelude.{Bool, true, false, List, [], ◌∷◌, if◌then◌else◌, ◌==◌}
use ubuntu_pro_for_wsl.ContextIdler.{
  RecvError, eof, status, IdlerEvent, message, timer_fires, stream_error,
}

-- Whether the timer runs after events without an error: the last of them decides.
abbrev pub runs_after : Bool → List IdlerEvent → Bool
runs_after b [] = b
runs_after b (message ∷ es) = runs_after true es
runs_after b (timer_fires ∷ es) = runs_after false es
runs_after b (stream_error e ∷ es) = runs_after b es

-- No event is an error.
abbrev pub AreFine : List IdlerEvent → Type 0
AreFine [] = Unit {0}
AreFine (stream_error e ∷ es) = ⊥
AreFine (_ ∷ es) = AreFine es

-- The error that an error of the stream becomes: a status 1, codes.Canceled, is io.EOF or a status 4,
-- codes.DeadlineExceeded.
abbrev pub reported : Bool → RecvError → RecvError
reported runs eof = eof
reported runs (status code) = if code == 1 then (if runs then eof else status 4) else status code
