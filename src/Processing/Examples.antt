-- ===== src/Processing/Examples.antt =====
-- The theorem about processSingleTask at a concrete input.
use ubuntu_pro_for_wsl.Prelude.{refl, [], ◌∷◌, ok, none, some, false, arith, String}
use ubuntu_pro_for_wsl.Task.{pro_attachment}
use ubuntu_pro_for_wsl.Worker.{timed_out}
use ubuntu_pro_for_wsl.StateManager.{running, new_state_manager}
use ubuntu_pro_for_wsl.StateManager.Balance.{new_state_manager-IsTidy}
use ubuntu_pro_for_wsl.Distro.{Distro, registered, Answers}
use ubuntu_pro_for_wsl.Processing.{Attempt, Surroundings, process_single_task}
use ubuntu_pro_for_wsl.Processing.Triples.{IsHeld, Returns}
use ubuntu_pro_for_wsl.Processing.Rounds.{IsSettled, process_single_task-IsHeld}

abbrev answers : Answers String
answers = record { registry = registered 7; state = ok running; touch = none }

abbrev attempt_one : Attempt String
attempt_one = record {
  locking = answers;
  ticks = none ∷ some 3 ∷ [];
  ending = timed_out;
  releasing = registered 7;
}

abbrev env : Surroundings String
env = record {
  entry = registered 7;
  locking = answers;
  attempts = λ _. attempt_one;
  connections =
      λ _. record { send_pro_attachment = λ _. ok tt; send_landscape_config = λ _. ok tt };
  releasing = registered 7;
  stopped = "stopped";
}

abbrev distro : Distro String
distro = record {
  identity = record { name = "Ubuntu"; guid = 7 };
  properties = record {
    distro_id = "ubuntu";
    version_id = "24.04";
    pretty_name = "Ubuntu";
    hostname = "host";
    pro_attached = false;
  };
  invalidated = false;
  worker = record {
    manager = record {
      tasks = record { channel = 0; notified = 0; items = [] };
      deferred_tasks = record { channel = 0; notified = 0; items = [] };
      disk = record { file = none; file_new = none };
    };
    conn = none;
    closed = [];
  };
  state_manager = new_state_manager;
}

distro-IsHeld : IsHeld 7 0 distro
unfolding new_state_manager
distro-IsHeld = record {
  tidy = new_state_manager-IsTidy;
  counted = refl;
  valid = refl;
  same_guid = refl;
}

env-IsSettled : IsSettled 7 env
env-IsSettled = record {
  entry = refl;
  locking = refl;
  attempt_locking = λ _. refl;
  attempt_releasing = λ _. refl;
  releasing = refl;
}

process_single_task-IsHeld_example :
    Returns (λ _ d. IsHeld 7 0 d) (process_single_task env (pro_attachment "token") distro)
process_single_task-IsHeld_example =
    process_single_task-IsHeld 7 0 env (pro_attachment "token") env-IsSettled (omega arith) distro
      distro-IsHeld
