-- ===== src/TaskQueue/Examples.antt =====
-- Tests of the task queue, and its theorems at concrete queues.
use ubuntu_pro_for_wsl.Prelude.{◌≡◌, refl, Bool, true, false, List, [], ◌∷◌, none, ◌⊎◌}
use ubuntu_pro_for_wsl.Task.{Task, pro_attachment, landscape_configure, is}
use ubuntu_pro_for_wsl.TaskQueue.{
  TaskQueue, swap, compact, compact_step, remove_if, push, notify, try_pop_front,
}
use ubuntu_pro_for_wsl.TaskQueue.Compact.{remove_if-reject}
use ubuntu_pro_for_wsl.TaskQueue.Waiting.{Event, pulls, absorbs, waiting, pull_step, apply, run}
use ubuntu_pro_for_wsl.TaskQueue.Waiting.Wakeup.{
  HasReturned, start, run_no_lost_wakeup, absorb_lost_wakeup,
}

abbrev attach : Task
attach = pro_attachment "token"

abbrev reattach : Task
reattach = pro_attachment "newer"

abbrev configure : Task
configure = landscape_configure "[client]"

abbrev two_tasks : TaskQueue Task
two_tasks = record { channel = 0; notified = 2; items = attach ∷ configure ∷ [] }

abbrev is_attachment : Task → Bool
is_attachment (pro_attachment t) = true
is_attachment (landscape_configure c) = false

remove_if_test :
    remove_if (attach ∷ configure ∷ reattach ∷ configure ∷ []) is_attachment
    ≡ configure ∷ configure ∷ []
unfolding remove_if compact compact_step swap
remove_if_test = refl

push_test : (push is reattach two_tasks).items ≡ configure ∷ reattach ∷ []
unfolding push notify remove_if compact compact_step swap is
push_test = refl

remove_if-reject_example :
    remove_if (attach ∷ configure ∷ reattach ∷ []) is_attachment ≡ configure ∷ []
remove_if-reject_example = remove_if-reject (attach ∷ configure ∷ reattach ∷ []) is_attachment

abbrev empty_queue : TaskQueue Task
empty_queue = record { channel = 0; notified = 0; items = [] }

abbrev deferred_queue : TaskQueue Task
deferred_queue = record { channel = 0; notified = 1; items = attach ∷ [] }

abbrev misses : List (Event Task)
misses = pulls ∷ pulls ∷ []

run_no_lost_wakeup_example :
    HasReturned (run is misses (start empty_queue)).puller
    ⊎ ((run is misses (start empty_queue)).queue.items ≡ [])
unfolding run apply pull_step try_pop_front
run_no_lost_wakeup_example = run_no_lost_wakeup is empty_queue misses (tt, (tt, tt)) refl

absorb_lost_wakeup_example :
    let w = run is (pulls ∷ absorbs deferred_queue ∷ pulls ∷ []) (start empty_queue) in
    (pull_step w ≡ none) × (w.puller ≡ waiting 1) × (w.queue.items ≡ attach ∷ [])
absorb_lost_wakeup_example = absorb_lost_wakeup is empty_queue deferred_queue attach [] refl refl
