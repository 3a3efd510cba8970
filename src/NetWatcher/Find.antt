-- ===== src/NetWatcher/Find.antt =====
-- sort.Find, as windows-agent/internal/daemon/netwatcher.go uses it: the search ends, and finds what is
-- there.
use ubuntu_pro_for_wsl.Prelude.{
  ℕ, zero, suc, ◌+◌, ◌/◌, ◌≤◌, ◌<◌, ◌≡◌, refl, ◌∙◌, sym, ap, inl, inr, Bool, true, false, List, [],
  ◌∷◌, some, ltb, ◌&&◌, length, All, any, same_codes, same_codes-≡, arith, Bool-cases,
}
use ubuntu_pro_for_wsl.NetWatcher.{same, compare_names, entry, is_greater, is_same, find_loop, find}
use ubuntu_pro_for_wsl.NetWatcher.Names.{le, le_refl, le_trans, le-antisym, same-≡}

-- The loop of the search ends on less fuel than the range has entries.
find_loop-ends :
    (fuel : ℕ) (v : List ℕ) (b : List (List ℕ)) (i j : ℕ)
    → i ≤ j
    → j ≤ i + fuel
    → (k : ℕ) × (find_loop fuel v b i j ≡ some k) × (i ≤ k) × (k ≤ j)
unfolding find_loop
find_loop-ends zero v b i j l m = (i, ground (arith, l, m), omega arith, l)
find_loop-ends (suc fuel) v b i j l m = elim (Bool-cases (ltb i j)) [
  | inr n ↦ (i, rw (n, find_loop) refl, omega arith, l)
  | inl n ↦ elim (Bool-cases (is_greater (compare_names v (entry b ((i + j) / 2))))) [
    | inl g ↦
        let (k, e, x, y) =
          find_loop-ends fuel v b ((i + j) / 2 + 1) j (ground (arith, n)) (ground (arith, n, m)) in
        (k, rw (n, find_loop) (rw g e), ground (arith, n, x), y)
    | inr g ↦
        let (k, e, x, y) =
          find_loop-ends fuel v b i ((i + j) / 2) (ground (arith, n)) (ground (arith, n, m)) in
        (k, rw (n, find_loop) (rw g e), x, ground (arith, n, y))
  ]
]

-- Every entry comes before those that follow it, or is equal.
abbrev pub IsSorted : List (List ℕ) → Type 0
IsSorted [] = Unit {0}
IsSorted (v ∷ vs) = All (λ w. le v w ≡ true) vs × IsSorted vs

All-entry :
    (P : List ℕ → Type 0) (b : List (List ℕ)) → All P b → (i : ℕ) → i < length b → P (entry b i)
unfolding entry
All-entry P [] h i l = absurd (ground (arith, l))
All-entry P (v ∷ b) (h, hs) zero l = h
All-entry P (v ∷ b) (h, hs) (suc i) l = All-entry P b hs i (ground (arith, l))

sorted_entries :
    (b : List (List ℕ))
    → IsSorted b
    → (i j : ℕ) → i ≤ j
    → j < length b
    → le (entry b i) (entry b j) ≡ true
unfolding entry is_greater
sorted_entries [] s i j l m = absurd (ground (arith, m))
sorted_entries (v ∷ b) (h, s) zero zero l m = rw (le_refl v) refl
sorted_entries (v ∷ b) (h, s) zero (suc j) l m =
    All-entry (λ w. le v w ≡ true) b h j (ground (arith, m))
sorted_entries (v ∷ b) (h, s) (suc i) zero l m = absurd (ground (arith, l))
sorted_entries (v ∷ b) (h, s) (suc i) (suc j) l m =
    sorted_entries b s i j (ground (arith, l)) (ground (arith, m))

-- The entries before the cut are smaller than v, and no entry from it on is.
record Cuts (v : List ℕ) (b : List (List ℕ)) (i j : ℕ) : Type 0 where
  before : (k : ℕ) → k < i → le v (entry b k) ≡ false
  after : (k : ℕ) → j ≤ k → k < length b → le v (entry b k) ≡ true

contra : (u v w : List ℕ) → le v w ≡ false → le u w ≡ true → le v u ≡ false
contra u v w h k = elim (Bool-cases (le v u)) [
  | inr n ↦ n
  | inl n ↦ absurd (cc (sym h ∙ le_trans v u w n k))
]

met : (v : List ℕ) (b : List (List ℕ)) (i j k : ℕ) → j ≤ i → i ≡ k → Cuts v b i j → Cuts v b k k
met v b i j k l e c = record {
  before = λ x y. c.before x (omega arith);
  after = λ x y z. c.after x (omega arith) z;
}

find_loop-Cuts :
    (fuel : ℕ) (v : List ℕ) (b : List (List ℕ))
    → IsSorted b
    → (i j k : ℕ) → i ≤ j
    → j ≤ length b
    → Cuts v b i j
    → find_loop fuel v b i j ≡ some k
    → Cuts v b k k
unfolding find_loop
find_loop-Cuts zero v b s i j k l m c h = elim (Bool-cases (ltb i j)) [
  | inl n ↦ absurd (ground (arith, h, n))
  | inr n ↦ met v b i j k (ground (arith, n)) (ground (arith, h, n)) c
]
find_loop-Cuts (suc fuel) v b s i j k l m c h = elim (Bool-cases (ltb i j)) [
  | inr n ↦ met v b i j k (ground (arith, n)) (ground (arith, h, n)) c
  | inl n ↦ elim (Bool-cases (is_greater (compare_names v (entry b ((i + j) / 2))))) [
    | inl g ↦
        find_loop-Cuts fuel v b s ((i + j) / 2 + 1) j k (ground (arith, n)) m
          (record {
            before = λ x y.
                contra (entry b x) v (entry b ((i + j) / 2)) (rw g refl)
                  (sorted_entries b s x ((i + j) / 2) (omega arith) (ground (arith, n, m)));
            after = c.after;
          })
          (ground (arith, h, n, g))
    | inr g ↦
        find_loop-Cuts fuel v b s i ((i + j) / 2) k (ground (arith, n)) (ground (arith, n, m))
          (record {
            before = c.before;
            after = λ x y z.
                le_trans v (entry b ((i + j) / 2)) (entry b x) (rw g refl)
                  (sorted_entries b s ((i + j) / 2) x y z);
          })
          (ground (arith, h, n, g))
  ]
]

-- Membership, by going through the list.
abbrev pub is_member : List ℕ → List (List ℕ) → Bool
is_member v b = any (λ w. same_codes v w) b

any-entry :
    (p : List ℕ → Bool) (b : List (List ℕ))
    → any p b ≡ true
    → (k : ℕ) × (k < length b) × (p (entry b k) ≡ true)
unfolding entry
any-entry p [] h = absurd (cc h)
any-entry p (v ∷ b) h = elim (Bool-cases (p v)) [
  | inl y ↦ (0, omega arith, y)
  | inr n ↦ let (k, l, q) = any-entry p b (ground (arith, h, n)) in (suc k, ground (arith, l), q)
]

entry-any :
    (p : List ℕ → Bool) (b : List (List ℕ)) (k : ℕ)
    → k < length b
    → p (entry b k) ≡ true
    → any p b ≡ true
unfolding entry
entry-any p [] k l h = absurd (ground (arith, l))
entry-any p (v ∷ b) zero l h = ground (arith, h)
entry-any p (v ∷ b) (suc k) l h = ground (arith, entry-any p b k (ground (arith, l)) h)

cut_found :
    (v : List ℕ) (b : List (List ℕ)) (pos k : ℕ)
    → IsSorted b
    → Cuts v b pos pos
    → k < length b
    → same_codes v (entry b k) ≡ true
    → (ltb pos (length b) && is_same (compare_names v (entry b pos))) ≡ true
unfolding is_same is_greater
cut_found v b pos k s c l h =
    let e : v ≡ entry b k = same_codes-≡ v (entry b k) h in
    let le_self : le v (entry b k) ≡ true = rw (sym e) (rw (le_refl v) refl) in
    elim (Bool-cases (ltb k pos)) [
      | inl y ↦ absurd (cc (sym (c.before k (ground (arith, y))) ∙ le_self))
      | inr n ↦
          let p : pos ≤ k = ground (arith, n) in
          let back : le (entry b pos) v ≡ true =
            ap (λ w. le (entry b pos) w) e ∙ sorted_entries b s pos k p l in
          let eq : compare_names v (entry b pos) ≡ same =
            le-antisym v (entry b pos) (c.after pos (omega arith) (omega arith)) back in
          rw eq (ground (arith, p, l))
    ]

cut_member :
    (v : List ℕ) (b : List (List ℕ)) (pos : ℕ)
    → IsSorted b
    → Cuts v b pos pos
    → (ltb pos (length b) && is_same (compare_names v (entry b pos))) ≡ is_member v b
cut_member v b pos s c = elim (Bool-cases (is_member v b)) [
  | inl y ↦
      let (k, l, q) = any-entry (λ w. same_codes v w) b y in cut_found v b pos k s c l q ∙ sym y
  | inr n ↦ elim (Bool-cases (ltb pos (length b) && is_same (compare_names v (entry b pos)))) [
    | inr f ↦ f ∙ sym n
    | inl f ↦ absurd (
        cc (
          sym n
          ∙ entry-any (λ w. same_codes v w) b pos (ground (arith, f))
              (sym (same-≡ v (entry b pos)) ∙ ground (arith, f))))
  ]
]

-- Whatever the entries are, the search ends within its fuel, with a position up to their number, and with
-- a position of an entry if it has found one.
pub find-ends :
    (v : List ℕ) (b : List (List ℕ))
    → (pos : ℕ) × (found : Bool) × (find v b ≡ some (pos, found))
      × (pos ≤ length b)
      × (found ≡ true → pos < length b)
unfolding find
find-ends v b =
    let (k, e, x, y) = find_loop-ends (length b) v b 0 (length b) (omega arith) (omega arith) in
    (
      k,
      ltb k (length b) && is_same (compare_names v (entry b k)),
      rw (e, find) refl,
      y,
      λ f. ground (arith, f),
    )

-- In a sorted list, the binary search finds a name just if the list has it.
pub find-is_member :
    (v : List ℕ) (b : List (List ℕ))
    → IsSorted b
    → (pos : ℕ) × (find v b ≡ some (pos, is_member v b)) × (is_member v b ≡ true → pos < length b)
unfolding find
find-is_member v b s =
    let (k, e, x, y) = find_loop-ends (length b) v b 0 (length b) (omega arith) (omega arith) in
    let c =
      find_loop-Cuts (length b) v b s 0 (length b) k (omega arith) (omega arith)
        (record { before = λ z l. absurd (omega arith); after = λ z l m. absurd (omega arith) })
        e in
    (
      k,
      rw (e, find) (ap (λ f. some (k, f)) (cut_member v b k s c)),
      λ f. ground (arith, cut_member v b k s c ∙ f),
    )
