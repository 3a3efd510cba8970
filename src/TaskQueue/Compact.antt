-- ===== src/TaskQueue/Compact.antt =====
-- removeIf of windows-agent/internal/distros/worker/task_queue.go: the loop that swaps accepted
-- entries to the front, against the plain filter.
use ubuntu_pro_for_wsl.Prelude.{
  ℕ, ◌+◌, ◌≡◌, refl, ◌∙◌, Bool, true, false, List, [], ◌∷◌, ◌++◌, some, inl, inr, arith, length,
  get_elem?, set, length-append, get_elem?-append, set-append, take-append, reject, Bool-cases,
  append_assoc, append-nil,
}
use ubuntu_pro_for_wsl.TaskQueue.{swap, compact_step, compact, remove_if}

module _ {ℓ} {A : Type ℓ} where
  get_elem?-parts :
      (kept rejected rest : List A) (x : A)
      → get_elem? (kept ++ (rejected ++ x ∷ rest)) (length kept + length rejected) ≡ some x
  get_elem?-parts kept rejected rest x =
      rw (← append_assoc, ← length-append) (get_elem?-append (kept ++ rejected) rest x)

  set-parts :
      (kept rejected rest : List A) (x v : A)
      → set (kept ++ (rejected ++ x ∷ rest)) (length kept + length rejected) v
        ≡ kept ++ (rejected ++ v ∷ rest)
  set-parts kept rejected rest x v =
      rw (← append_assoc, ← length-append)
        (set-append (kept ++ rejected) rest x v ∙ append_assoc kept rejected (v ∷ rest))

  -- Swapping the first rejected entry with the entry behind the rejected ones.
  swap-parts :
      (kept middle rest : List A) (r x : A)
      → swap (kept ++ (r ∷ middle ++ x ∷ rest)) (length kept + length (r ∷ middle)) (length kept)
        ≡ kept ++ x ∷ (middle ++ r ∷ rest)
  unfolding swap
  swap-parts kept middle rest r x =
      rw (get_elem?-parts kept (r ∷ middle) rest x, swap)
        (rw (get_elem?-append kept (middle ++ x ∷ rest) r)
          (rw (set-parts kept (r ∷ middle) rest x r) (set-append kept (middle ++ r ∷ rest) r x)))

  abbrev Kept : (A → Bool) → ℕ → List A → List A → List A → List A → A → Type ℓ
  Kept p i array kept rejected rest x =
      (rejected' : List A) × (compact_step p i (array, length kept)
        ≡ ((kept ++ x ∷ []) ++ (rejected' ++ rest), length (kept ++ x ∷ [])))
      × (length rejected' ≡ length rejected)

  compact_step-keep :
      (p : A → Bool) (kept rejected rest : List A) (x : A)
      → p x ≡ false
      → Kept p (length kept + length rejected) (kept ++ (rejected ++ x ∷ rest)) kept rejected rest x
  unfolding compact_step
  compact_step-keep p kept [] rest x h = (
    [],
    ground (
      arith,
      get_elem?-parts kept [] rest x,
      append_assoc kept (x ∷ []) rest,
      length-append kept (x ∷ []),
    ),
    refl,
  )
  compact_step-keep p kept (r ∷ middle) rest x h = (
    middle ++ r ∷ [],
    ground (
      arith,
      get_elem?-parts kept (r ∷ middle) rest x,
      swap-parts kept middle rest r x,
      append_assoc kept (x ∷ []) ((middle ++ r ∷ []) ++ rest),
      append_assoc middle (r ∷ []) rest,
      length-append kept (x ∷ []),
    ),
    omega (arith, length-append middle (r ∷ [])),
  )

  compact_step-drop :
      (p : A → Bool) (kept rejected rest : List A) (x : A) (j : ℕ)
      → p x ≡ true
      → let array = kept ++ (rejected ++ x ∷ rest) in
        compact_step p (length kept + length rejected) (array, j) ≡ (array, j)
  unfolding compact_step
  compact_step-drop p kept rejected rest x j h =
      ground (arith, get_elem?-parts kept rejected rest x)

  abbrev Compacted : (A → Bool) → List A → List A → List A → List A → ℕ → Type ℓ
  Compacted p kept rejected rest array i =
      (junk : List A) × (compact p (length rest) i (array, length kept)
        ≡ ((kept ++ reject p rest) ++ junk, length (kept ++ reject p rest)))

  Compacted-keep :
      (p : A → Bool) (kept rejected rest : List A) (x : A)
      → p x ≡ false
      → (k : Kept p
          (length kept + length rejected)
          (kept ++ (rejected ++ x ∷ rest))
          kept
          rejected
          rest
          x)
      → Compacted p
          (kept ++ x ∷ [])
          k.0
          rest
          ((kept ++ x ∷ []) ++ (k.0 ++ rest))
          (length kept + length rejected + 1)
      → Compacted p kept rejected
          (x ∷ rest)
          (kept ++ (rejected ++ x ∷ rest))
          (length kept + length rejected)
  unfolding compact
  Compacted-keep p kept rejected rest x keep (rejected', step, len) (junk, e) =
      (junk, rw keep (rw (step, compact) (rw (append_assoc kept (x ∷ []) (reject p rest)) at e)))

  -- The array of a half-processed slice: accepted, rejected and unprocessed entries.
  compact_lem :
      (p : A → Bool) (kept rejected rest : List A) (array : List A) (i : ℕ)
      → array ≡ kept ++ (rejected ++ rest)
      → i ≡ length kept + length rejected
      → Compacted p kept rejected rest array i
  unfolding compact
  compact_lem p kept rejected [] array i ha hi =
      (rejected, ground (arith, append-nil kept, append-nil rejected))
  compact_lem p kept rejected (x ∷ rest) array i ha hi = elim (Bool-cases (p x)) [
    | inl drop ↦
        rw (drop, ha, hi)
          (rw (compact_step-drop p kept rejected rest x (length kept) drop, compact)
            (compact_lem p kept (rejected ++ x ∷ []) rest _ _ (rw append_assoc)
              (omega (arith, length-append rejected (x ∷ [])))))
    | inr keep ↦
        let k = compact_step-keep p kept rejected rest x keep in
        rw (ha, hi)
          (Compacted-keep p kept rejected rest x keep k (
            compact_lem p (kept ++ x ∷ []) k.0 rest _ _ refl
              (omega (arith, k.2, length-append kept (x ∷ [])))))
  ]

  -- For every predicate and slice, the in-place loop leaves the entries that the predicate
  -- does not hold of, in their order.
  pub remove_if-reject : (array : List A) (p : A → Bool) → remove_if array p ≡ reject p array
  unfolding remove_if
  remove_if-reject array p =
      let (junk, e) = compact_lem p [] [] array array 0 refl refl in
      rw e (take-append (reject p array) junk)
