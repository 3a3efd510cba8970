-- ===== src/NetWatcher.antt =====
-- windows-agent/internal/daemon/netwatcher.go: which network adapters were added. A name is the list of its
-- bytes; what the adapters' API answers is an argument.
pub mod Names
pub mod Find
pub mod Difference
pub mod Examples
use ubuntu_pro_for_wsl.Prelude.{
  ℕ, zero, suc, ◌+◌, ◌/◌, Bool, true, false, List, [], ◌∷◌, ◌++◌, Option, none, some, Result, ok,
  err, if◌then◌else◌, ltb, leb, ◌==◌, ◌&&◌, not, is_nil, length, ◌||◌,
}

pub data Order : Type 0 where
  less same greater : Order

-- strings.Compare
unfoldable pub compare_names : List ℕ → List ℕ → Order
compare_names [] [] = same
compare_names [] (b ∷ t) = less
compare_names (a ∷ s) [] = greater
compare_names (a ∷ s) (b ∷ t) =
    let rest = compare_names s t in if ltb a b then less else if ltb b a then greater else rest

-- b[i]; the code reads within the bounds only.
unfoldable pub entry : List (List ℕ) → ℕ → List ℕ
entry [] i = []
entry (n ∷ ns) zero = n
entry (n ∷ ns) (suc i) = entry ns i

unfoldable pub is_greater : Order → Bool
is_greater greater = true
is_greater _ = false

unfoldable pub is_same : Order → Bool
is_same same = true
is_same _ = false

-- The loop of sort.Find, whose comparison is of `v` with the entries. `none` is a loop that runs out of fuel.
unfoldable pub find_loop : ℕ → List ℕ → List (List ℕ) → ℕ → ℕ → Option ℕ
unfolding is_greater
find_loop zero v b i j = if ltb i j then none else some i
find_loop (suc fuel) v b i j =
    let h = (i + j) / 2 in
    let right = find_loop fuel v b (h + 1) j in
    let left = find_loop fuel v b i h in
    if ltb i j then (if is_greater (compare_names v (entry b h)) then right else left) else some i

-- Whether sort.Find finds `v`. The fuel is the number of the entries.
unfoldable pub find : List ℕ → List (List ℕ) → Option (ℕ × Bool)
unfolding is_same
find v b = elim (find_loop (length b) v b 0 (length b)) [
  | none ↦ none
  | some i ↦ some (i, ltb i (length b) && is_same (compare_names v (entry b i)))
]

-- The test of difference for one entry: it is not found.
unfoldable pub is_new : List ℕ → List (List ℕ) → Option Bool
is_new v b = elim (find v b) [
  | none ↦ none
  | some (pos, found) ↦ some (not found || pos == length b)
]

unfoldable pub difference_loop : List (List ℕ) → List (List ℕ) → Option (List (List ℕ))
difference_loop [] b = some []
difference_loop (v ∷ a) b = elim (is_new v b) [
  | none ↦ none
  | some new ↦ elim (difference_loop a b) [
    | none ↦ none
    | some diff ↦ some (if new then v ∷ diff else diff)
  ]
]

unfoldable pub difference : List (List ℕ) → List (List ℕ) → Option (List (List ℕ))
difference a b = if is_nil b then some a else difference_loop a b

-- filter
unfoldable pub filter : (List ℕ → Bool) → List (List ℕ) → List (List ℕ)
filter p [] = []
filter p (v ∷ vs) = let rest = filter p vs in if p v then v ∷ rest else rest

-- slices.Sort
unfoldable pub insert : List ℕ → List (List ℕ) → List (List ℕ)
insert v [] = v ∷ []
insert v (w ∷ ws) =
    let rest = insert v ws in if is_greater (compare_names v w) then w ∷ rest else v ∷ w ∷ ws

unfoldable pub sort : List (List ℕ) → List (List ℕ)
sort [] = []
sort (v ∷ vs) = insert v (sort vs)

-- The devices and the name of each, as the API answers, and uuid.Parse.
pub record Devices (E : Type 0) : Type 0 where
  pub guids : Result E (List (List ℕ))
  pub is_uuid : List ℕ → Bool
  pub connection_name : List ℕ → Result E (List ℕ)

-- NetWatcher. `notified` are the names that the callback was called with.
pub record NetWatcher : Type 0 where
  pub cache : List (List ℕ)
  pub notified : List (List (List ℕ))

-- The end of notify: the callback says whether to go on.
unfoldable pub report_added :
    (List (List ℕ) → Bool) → List (List ℕ) → List (List ℕ) → NetWatcher → NetWatcher × Bool
report_added callback current [] n = (n, true)
report_added callback current (v ∷ added) n =
    (record { cache = current; notified = n.notified ++ (v ∷ added) ∷ [] }, callback (v ∷ added))

module _ {E : Type 0} where
  names_of : Devices E → List (List ℕ) → Result E (List (List ℕ))
  names_of api [] = ok []
  names_of api (guid ∷ guids) = elim (api.connection_name guid) [
    | err e ↦ err e
    | ok name ↦ elim (names_of api guids) [ err e ↦ err e | ok names ↦ ok (name ∷ names) ]
  ]

  sorted_names : Result E (List (List ℕ)) → Result E (List (List ℕ))
  sorted_names (err e) = err e
  sorted_names (ok names) = ok (sort names)

  unfoldable pub list_adapters : Devices E → Result E (List (List ℕ))
  unfolding names_of sorted_names filter
  list_adapters api = elim api.guids [
    | err e ↦ err e
    | ok guids ↦ sorted_names (names_of api (filter api.is_uuid guids))
  ]

  -- notify: the watcher, and whether the subscription goes on; `none` if a search runs out of fuel.
  unfoldable pub notify :
      (List (List ℕ) → Bool) → Devices E → NetWatcher → Option (NetWatcher × Bool)
  notify callback api n = elim (list_adapters api) [
    | err e ↦ some (n, true)
    | ok current ↦ elim (difference current n.cache) [
      | none ↦ none
      | some added ↦ some (report_added callback current added n)
    ]
  ]

  -- subscribe takes the adapters that are there as the first cache.
  unfoldable pub subscribe : Devices E → Result E NetWatcher
  subscribe api = elim (list_adapters api) [
    | err e ↦ err e
    | ok current ↦ ok (record { cache = current; notified = [] })
  ]

-- An event of the loop of start: the context is done, or the wait for a change returns, and what the
-- devices then are.
pub data Event (E : Type 0) : Type 0 where
  context_done : Event E
  wait_failed : E → Event E
  devices_changed : Devices E → Event E

pub data Watch (E : Type 0) : Type 0 where
  watches cancelled unsubscribed : Watch E
  failed : E → Watch E

-- The loop of start, over the events.
unfoldable pub start :
    {E : Type 0}
    → (List (List ℕ) → Bool)
    → List (Event E)
    → NetWatcher
    → Option (NetWatcher × Watch E)
start callback [] n = some (n, watches)
start callback (context_done ∷ es) n = some (n, cancelled)
start callback (wait_failed e ∷ es) n = some (n, failed e)
start callback (devices_changed api ∷ es) n = elim (notify callback api n) [
  | none ↦ none
  | some (n', true) ↦ start callback es n'
  | some (n', false) ↦ some (n', unsubscribed)
]
