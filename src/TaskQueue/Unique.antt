-- ===== src/TaskQueue/Unique.antt =====
-- The queue of windows-agent/internal/distros/worker/task_queue.go holds no two equivalent tasks.
use ubuntu_pro_for_wsl.Prelude.{
  ◌≡◌, refl, Bool, false, List, [], ◌∷◌, ◌++◌, arith, any, any-append, any-reject, reject, length,
  ◌≤◌, if◌then◌else◌, Bool-cases, inl, inr,
}
use ubuntu_pro_for_wsl.Task.{IsComparator}
use ubuntu_pro_for_wsl.TaskQueue.{TaskQueue, notify, push, contains, push_if_new, remove}
use ubuntu_pro_for_wsl.TaskQueue.Compact.{remove_if-reject}

module _ {ℓ} {A : Type ℓ} (same : A → A → Bool) where
  -- No entry has an equivalent one behind it.
  abbrev pub IsUnique : List A → Type 0
  IsUnique [] = Unit {0}
  IsUnique (x ∷ xs) = (any (λ y. same x y) xs ≡ false) × IsUnique xs

  pub any-reject_le :
      (p q : A → Bool) (xs : List A) → any p xs ≡ false → any p (reject q xs) ≡ false
  any-reject_le p q [] h = refl
  any-reject_le p q (x ∷ xs) h = ground (arith, any-reject_le p q xs)

  pub reject-IsUnique : (p : A → Bool) (xs : List A) → IsUnique xs → IsUnique (reject p xs)
  reject-IsUnique p [] u = tt
  reject-IsUnique p (x ∷ xs) u =
      ground (arith, reject-IsUnique p xs u.1, any-reject_le (λ y. same x y) p xs u.0)

  pub length-reject-le : (p : A → Bool) (xs : List A) → length (reject p xs) ≤ length xs
  length-reject-le p [] = omega arith
  length-reject-le p (x ∷ xs) = ground (arith, length-reject-le p xs)

module _ {ℓ} {A : Type ℓ} (same : A → A → Bool) (laws : IsComparator same) where
  any_symm : (t : A) (xs : List A) → any (λ y. same y t) xs ≡ any (λ y. same t y) xs
  any_symm t [] = refl
  any_symm t (x ∷ xs) = ground (arith, laws.symmetric x t, any_symm t xs)

  pub snoc-IsUnique :
      (t : A) (xs : List A)
      → IsUnique same xs
      → any (λ y. same t y) xs ≡ false
      → IsUnique same (xs ++ t ∷ [])
  snoc-IsUnique t [] u h = (refl, tt)
  snoc-IsUnique t (x ∷ xs) u h =
      ground
        (arith, any-append (λ y. same x y) xs (t ∷ []), laws.symmetric x t, snoc-IsUnique t xs u.1)

module _ {ℓ} {A : Type ℓ} (q : TaskQueue A) where
  pub notify-items : (notify q).items ≡ q.items
  unfolding notify
  notify-items = ground arith

module _ {ℓ} {A : Type ℓ} (same : A → A → Bool) (laws : IsComparator same) where
  pub push-items :
      (t : A) (q : TaskQueue A) → (push same t q).items ≡ reject (λ y. same t y) q.items ++ t ∷ []
  unfolding push
  push-items t q = rw (notify-items, remove_if-reject q.items (λ y. same t y))

  pub push_if_new-items :
      (t : A) (q : TaskQueue A)
      → (push_if_new same t q).items
        ≡ (if any (λ y. same t y) q.items then q.items else q.items ++ t ∷ [])
  unfolding push_if_new
  push_if_new-items t q = elim (Bool-cases (any (λ y. same t y) q.items)) [
    | inl old ↦ rw (any_symm same laws t q.items, old)
    | inr new ↦ rw (any_symm same laws t q.items, new, notify-items)
  ]

  -- Pushing a task onto a queue without duplicates leaves a queue without duplicates, which holds
  -- the entries not equivalent to the task, in their order, and then the task.
  pub push_lem :
      (t : A) (q : TaskQueue A)
      → IsUnique same q.items
      → IsUnique same (push same t q).items
        × ((push same t q).items ≡ reject (λ y. same t y) q.items ++ t ∷ [])
  push_lem t q u = rw (push-items t q) (
    snoc-IsUnique same laws t _ (reject-IsUnique same (λ y. same t y) q.items u)
        (any-reject (λ y. same t y) q.items),
    refl,
  )

  -- Pushing a task only if it is new keeps a queue without duplicates so. The queue then holds
  -- what it held, and the task behind it exactly if no entry was equivalent.
  pub push_if_new_lem :
      (t : A) (q : TaskQueue A)
      → IsUnique same q.items
      → IsUnique same (push_if_new same t q).items
        × ((push_if_new same t q).items
            ≡ (if any (λ y. same t y) q.items then q.items else q.items ++ t ∷ []))
  push_if_new_lem t q u =
      rw (push_if_new-items t q) (ground (arith, snoc-IsUnique same laws t q.items u), refl)

  -- Removing a task leaves the entries not equivalent to it, in their order.
  pub remove_lem :
      (t : A) (q : TaskQueue A) → (remove same t q).items ≡ reject (λ y. same t y) q.items
  unfolding remove
  remove_lem t q = remove_if-reject q.items (λ y. same t y)

  pub contains_lem : (t : A) (q : TaskQueue A) → contains same t q ≡ any (λ y. same t y) q.items
  unfolding contains
  contains_lem t q = any_symm same laws t q.items
