-- ===== src/StateManager/Examples.antt =====
-- The theorems about the counter at concrete inputs.
use ubuntu_pro_for_wsl.Prelude.{ok, none, arith}
use ubuntu_pro_for_wsl.StateManager.{StateManager, stopped, running, lock, new_state_manager}
use ubuntu_pro_for_wsl.StateManager.Balance.{IsTidy, new_state_manager-IsTidy, Locks, lock-Locks}

abbrev once : StateManager
once = (lock {E = StateManager} (ok running) none new_state_manager).0

-- A manager that is locked once is tidy, and holds one goroutine.
once-IsTidy : IsTidy once
unfolding lock new_state_manager
once-IsTidy =
    (lock-Locks {E = StateManager} (ok running) none new_state_manager (omega arith)
      new_state_manager-IsTidy).0

lock-Locks_example : Locks {E = StateManager} 0 (lock (ok stopped) none new_state_manager)
unfolding new_state_manager
lock-Locks_example =
    lock-Locks (ok stopped) none new_state_manager (omega arith) new_state_manager-IsTidy
