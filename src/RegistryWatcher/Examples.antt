-- ===== src/RegistryWatcher/Examples.antt =====
-- The theorems about the registry watcher at concrete inputs: one round that fails, and one that
-- watches.
use ubuntu_pro_for_wsl.Prelude.{refl, false, [], ◌∷◌, none, some, String, arith}
use ubuntu_pro_for_wsl.RegistryWatcher.{
  opened, not_opened, value, field_not_exist, Snapshot, Round, Service, run,
}
use ubuntu_pro_for_wsl.RegistryWatcher.Handles.{IsPaced, Steady, run-Steady}
use ubuntu_pro_for_wsl.RegistryWatcher.Backoff.{IsFailing}
use ubuntu_pro_for_wsl.RegistryWatcher.Defaults.{Fields}

abbrev snapshot : Snapshot String
snapshot = record { opening = opened; token = value "token"; landscape = field_not_exist }

abbrev watched : Round String
watched = record {
  stopped = false;
  opening = opened;
  opening_parent = opened;
  watching = none;
  read = snapshot;
  waiting = none;
  read_again = snapshot;
  stopped_asleep = false;
}

abbrev refused : Round String
refused = record {
  stopped = false;
  opening = not_opened "denied";
  opening_parent = opened;
  watching = none;
  read = snapshot;
  waiting = none;
  read_again = snapshot;
  stopped_asleep = false;
}

abbrev started : Service
started = record { keys = 0; events = 0; retry_rate = 1; slept = []; pushed = [] }

started-IsPaced : IsPaced started
started-IsPaced = record { at_least = omega arith; at_most = omega arith; sleeps = tt }

run-Steady_example : Steady started (run (refused ∷ watched ∷ []) started)
run-Steady_example = run-Steady (refused ∷ watched ∷ []) started started-IsPaced

refused-IsFailing : IsFailing refused
refused-IsFailing = record {
  error = "denied";
  not_open = refl;
  not_stopped = refl;
  not_stopped_asleep = refl;
}

abbrev half : Fields
half = record { token = some "token"; landscape = none }
