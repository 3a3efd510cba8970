-- ===== src/NetWatcher/Difference.antt =====
-- Which names windows-agent/internal/daemon/netwatcher.go reports.
use ubuntu_pro_for_wsl.Prelude.{
  ℕ, ◌<◌, ◌≡◌, refl, sym, ap, subst, inl, inr, Bool, true, false, List, [], ◌∷◌, some, Result, ok,
  err, if◌then◌else◌, ◌==◌, ◌||◌, not, length, All, reject, arith, Bool-cases, Result-cases,
}
use ubuntu_pro_for_wsl.NetWatcher.{
  compare_names, is_greater, is_new, difference_loop, difference, insert, sort, Devices, NetWatcher,
  list_adapters, sorted_names, names_of, filter, report_added, notify, subscribe, watches,
  cancelled, unsubscribed, failed, Event, context_done, wait_failed, devices_changed, Watch, start,
}
use ubuntu_pro_for_wsl.NetWatcher.Names.{le, le_trans, le-total}
use ubuntu_pro_for_wsl.NetWatcher.Find.{IsSorted, is_member, find-is_member}

insert-All :
    (P : List ℕ → Type 0) (v : List ℕ) (ws : List (List ℕ)) → P v → All P ws → All P (insert v ws)
unfolding insert
insert-All P v [] h hs = (h, tt)
insert-All P v (w ∷ ws) h (k, ks) = elim (Bool-cases (is_greater (compare_names v w))) [
  | inl g ↦ rw (g, insert) (k, insert-All P v ws h ks)
  | inr g ↦ rw (g, insert) (h, (k, ks))
]

All-le :
    (v w : List ℕ) (ws : List (List ℕ))
    → le v w ≡ true
    → All (λ x. le w x ≡ true) ws
    → All (λ x. le v x ≡ true) ws
All-le v w [] h hs = tt
All-le v w (x ∷ ws) h (k, ks) = (le_trans v w x h k, All-le v w ws h ks)

insert-IsSorted : (v : List ℕ) (ws : List (List ℕ)) → IsSorted ws → IsSorted (insert v ws)
unfolding insert
insert-IsSorted v [] s = (tt, tt)
insert-IsSorted v (w ∷ ws) (h, s) = elim (Bool-cases (is_greater (compare_names v w))) [
  | inl g ↦
      rw (g, insert)
        (insert-All (λ x. le w x ≡ true) v ws (le-total v w (rw g refl)) h, insert-IsSorted v ws s)
  | inr g ↦ let l : le v w ≡ true = rw g refl in rw (g, insert) ((l, All-le v w ws l h), (h, s))
]

sort-IsSorted : (vs : List (List ℕ)) → IsSorted (sort vs)
unfolding sort
sort-IsSorted [] = tt
sort-IsSorted (v ∷ vs) = insert-IsSorted v (sort vs) (sort-IsSorted vs)

is_new_lem : (v : List ℕ) (b : List (List ℕ)) → IsSorted b → is_new v b ≡ some (not (is_member v b))
unfolding is_new
is_new_lem v b s =
    let (pos, e, l) = find-is_member v b s in rw (e, is_new) (ap some (settled pos l))
  where
    settled :
        (pos : ℕ)
        → (is_member v b ≡ true → pos < length b)
        → (not (is_member v b) || pos == length b) ≡ not (is_member v b)
    settled pos l = elim (Bool-cases (is_member v b)) [
      | inr n ↦ rw n refl
      | inl y ↦ (ground (arith, y, l y))
    ]

difference_loop-reject :
    (a b : List (List ℕ)) → IsSorted b → difference_loop a b ≡ some (reject (λ v. is_member v b) a)
unfolding difference_loop
difference_loop-reject [] b s = refl
difference_loop-reject (v ∷ a) b s =
    rw (is_new_lem v b s, difference_loop)
      (rw (difference_loop-reject a b s, difference_loop)
        (elim (Bool-cases (is_member v b)) [ inl y ↦ rw y refl | inr n ↦ rw n refl ]))

reject_no_member : (a : List (List ℕ)) → reject (λ v. is_member v []) a ≡ a
reject_no_member [] = refl
reject_no_member (v ∷ a) = ap (λ x. v ∷ x) (reject_no_member a)

-- If the second list is sorted, difference gives the names of the first that the second does not have, in
-- their order.
pub difference-reject :
    (a b : List (List ℕ)) → IsSorted b → difference a b ≡ some (reject (λ v. is_member v b) a)
unfolding difference
difference-reject a [] s = ap some (sym (reject_no_member a))
difference-reject a (w ∷ b) s = difference_loop-reject a (w ∷ b) s

report_added-IsSorted :
    (callback : List (List ℕ) → Bool) (current added : List (List ℕ)) (n : NetWatcher)
    → IsSorted current
    → IsSorted n.cache
    → IsSorted (report_added callback current added n).0.cache
unfolding report_added
report_added-IsSorted callback current [] n s c = c
report_added-IsSorted callback current (v ∷ added) n s c = s

module _ {E : Type 0} where
  -- What notify does. A list that cannot be read and one with no new name change nothing; new names are
  -- handed to the callback, and the list becomes the cache.
  abbrev pub heard :
      (List (List ℕ) → Bool) → Result E (List (List ℕ)) → NetWatcher → NetWatcher × Bool
  heard callback (err e) n = (n, true)
  heard callback (ok current) n =
      report_added callback current (reject (λ v. is_member v n.cache) current) n

  -- What start does, over the events: every notification is heard, until the callback, the context or
  -- the wait ends the watch.
  abbrev pub hears : (List (List ℕ) → Bool) → List (Event E) → NetWatcher → NetWatcher × Watch E
  hears callback [] n = (n, watches)
  hears callback (context_done ∷ es) n = (n, cancelled)
  hears callback (wait_failed e ∷ es) n = (n, failed e)
  hears callback (devices_changed api ∷ es) n =
      let (n', go_on) = heard callback (list_adapters api) n in
      let later = hears callback es n' in if go_on then later else (n', unsubscribed)

  list_adapters-IsSorted :
      (api : Devices E) (current : List (List ℕ))
      → list_adapters api ≡ ok current
      → IsSorted current
  unfolding list_adapters sorted_names
  list_adapters-IsSorted api current h = elim (Result-cases api.guids) [
    | inr (e, g) ↦ absurd (ground (arith, h, g))
    | inl (guids, g) ↦ sorted (names_of api (filter api.is_uuid guids)) (ground (arith, h, g))
  ]
    where
      sorted : (r : Result E (List (List ℕ))) → sorted_names r ≡ ok current → IsSorted current
      sorted (err e) q = absurd (cc q)
      sorted (ok names) q = subst IsSorted (ground (arith, q)) (sort-IsSorted names)

  notify-heard :
      (callback : List (List ℕ) → Bool) (api : Devices E) (n : NetWatcher)
      → IsSorted n.cache
      → (notify callback api n ≡ some (heard callback (list_adapters api) n))
        × IsSorted (heard callback (list_adapters api) n).0.cache
  unfolding notify
  notify-heard callback api n s = elim (Result-cases (list_adapters api)) [
    | inr (e, l) ↦ (rw (l, notify) refl, rw l s)
    | inl (current, l) ↦ (
      rw (l, notify) (rw (difference-reject current n.cache s, notify) refl),
      rw l (
          report_added-IsSorted callback current (reject (λ v. is_member v n.cache) current) n
            (list_adapters-IsSorted api current l) s),
    )
  ]

  start-hears_from :
      (callback : List (List ℕ) → Bool) (es : List (Event E)) (n : NetWatcher)
      → IsSorted n.cache
      → start callback es n ≡ some (hears callback es n)
  unfolding start
  start-hears_from callback [] n s = refl
  start-hears_from callback (context_done ∷ es) n s = refl
  start-hears_from callback (wait_failed e ∷ es) n s = refl
  start-hears_from callback (devices_changed api ∷ es) n s =
      let (e, s') = notify-heard callback api n s in
      rw (e, start)
        (goes_on (heard callback (list_adapters api) n) s'
          (λ n' q. start-hears_from callback es n' q))
    where
      goes_on :
          (r : NetWatcher × Bool)
          → IsSorted r.0.cache
          → ((n' : NetWatcher)
              → IsSorted n'.cache
              → start callback es n' ≡ some (hears callback es n'))
          → elim r.1 [ true ↦ start callback es r.0 | false ↦ some (r.0, unsubscribed) ]
            ≡ some (if r.1 then hears callback es r.0 else (r.0, unsubscribed))
      goes_on (n', true) s' later = later n' s'
      goes_on (n', false) s' later = refl

  -- From the watcher that subscribe returns on, over every sequence of events, no search runs out of
  -- fuel, and each change of the devices that can be read hands to the callback just the names that are
  -- not in the list of the last change with a new name, if there are any, until the callback says to stop, the context is
  -- done or a wait fails.
  pub start-hears :
      (api : Devices E) (callback : List (List ℕ) → Bool) (es : List (Event E)) (n : NetWatcher)
      → subscribe api ≡ ok n
      → start callback es n ≡ some (hears callback es n)
  unfolding subscribe
  start-hears api callback es n h = elim (Result-cases (list_adapters api)) [
    | inr (e, l) ↦ absurd (ground (arith, h, l))
    | inl (current, l) ↦
        start-hears_from callback es n
          (subst IsSorted (ground (arith, h, l)) (list_adapters-IsSorted api current l))
  ]
