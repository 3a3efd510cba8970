-- ===== src/TaskQueue.antt =====
-- windows-agent/internal/distros/worker/task_queue.go: the FIFO queue of tasks without
-- duplicates. `same t queued` stands for `task.Is(t, queued)`. Each method runs under the
-- queue's mutex, so it is one function from state to state; the channel `wait` is its
-- generation (a fresh channel for each `close` and `make`) and the notifications it buffers.
pub mod Compact
pub mod Unique
pub mod Waiting
mod Examples
use ubuntu_pro_for_wsl.Prelude.{
  ℕ, zero, suc, ◌+◌, Bool, true, false, List, [], ◌∷◌, ◌++◌, Option, none, some, ltb, ◌==◌,
  if◌then◌else◌, length, get_elem?, set, take, any,
}

-- The capacity of the channel made by newWaitChannel.
abbrev pub wait_capacity : ℕ
wait_capacity = 4

pub record TaskQueue {ℓ} (A : Type ℓ) : Type ℓ where
  pub channel : ℕ
  pub notified : ℕ
  pub items : List A

module _ {ℓ} {A : Type ℓ} where
  -- array[i], array[j] = array[j], array[i]
  unfoldable pub swap : List A → ℕ → ℕ → List A
  swap array i j = elim (get_elem? array i) [
    | none ↦ array
    | some a ↦ elim (get_elem? array j) [ none ↦ array | some b ↦ set (set array i b) j a ]
  ]

  -- One round of the loop of removeIf, at index i: the array and j.
  unfoldable pub compact_step : (A → Bool) → ℕ → List A × ℕ → List A × ℕ
  compact_step predicate i (array, j) = elim (get_elem? array i) [
    | none ↦ (array, j)
    | some x ↦
        if predicate x
        then (array, j)
        else (if i == j then (array, j + 1) else (swap array i j, j + 1))
  ]

  -- `for i := range array`, with the number of rounds left.
  unfoldable pub compact : (A → Bool) → ℕ → ℕ → List A × ℕ → List A × ℕ
  compact predicate zero i s = s
  compact predicate (suc rounds) i s = compact predicate rounds (i + 1) (compact_step predicate i s)

  unfoldable pub remove_if : List A → (A → Bool) → List A
  remove_if array predicate =
      let (swapped, j) = compact predicate (length array) 0 (array, 0) in take j swapped

  unfoldable pub new_task_queue : TaskQueue A
  new_task_queue = record { channel = 0; notified = 0; items = [] }

  -- close(q.wait); q.wait = newWaitChannel()
  renew_channel : TaskQueue A → TaskQueue A
  renew_channel q = record q { channel = q.channel + 1; notified = 0 }

  -- select { case q.wait <- struct{}{}: default: }
  unfoldable pub notify : TaskQueue A → TaskQueue A
  notify q = if ltb q.notified wait_capacity then record q { notified = q.notified + 1 } else q

  unfoldable pub load : List A → TaskQueue A → TaskQueue A
  unfolding renew_channel
  load new_data q = record (renew_channel q) { items = new_data }

  -- The queue and the other one, which is left empty.
  unfoldable pub absorb : TaskQueue A → TaskQueue A → TaskQueue A × TaskQueue A
  unfolding renew_channel
  absorb q other = (
    record (renew_channel q) { items = q.items ++ other.items },
    record (renew_channel other) { items = [] },
  )

  unfoldable pub try_pop_front : TaskQueue A → Option (A × TaskQueue A)
  try_pop_front q = elim q.items [ [] ↦ none | r ∷ rest ↦ some (r, record q { items = rest }) ]

module _ {ℓ} {A : Type ℓ} (same : A → A → Bool) where
  unfoldable pub push : A → TaskQueue A → TaskQueue A
  push t q = notify (record q { items = remove_if q.items (λ queued. same t queued) ++ t ∷ [] })

  unfoldable pub contains : A → TaskQueue A → Bool
  contains t q = any (λ queued. same queued t) q.items

  unfoldable pub push_if_new : A → TaskQueue A → TaskQueue A
  unfolding contains
  push_if_new t q = if contains t q then q else notify (record q { items = q.items ++ t ∷ [] })

  unfoldable pub remove : A → TaskQueue A → TaskQueue A
  remove t q = record q { items = remove_if q.items (λ queued. same t queued) }
