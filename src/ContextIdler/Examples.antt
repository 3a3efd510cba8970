-- ===== src/ContextIdler/Examples.antt =====
-- The idle timer at concrete inputs: the stream is cancelled after the timer has gone off.
use ubuntu_pro_for_wsl.Prelude.{true}
use ubuntu_pro_for_wsl.ContextIdler.{IdlerStream}

abbrev stream : IdlerStream
stream = record { is_running = true; resets = 0 }
