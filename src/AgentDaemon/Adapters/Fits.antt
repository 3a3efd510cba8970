-- ===== src/AgentDaemon/Adapters/Fits.antt =====
-- The sizes that getAddrList of windows-agent/internal/daemon/networking.go tells the Win32 API.
use Prim.Native.Nat.{ℕ}
use native.Mathlib.Omega.{div_any}
use native.Mathlib.Nat.{mod-lt, mul-le-mul_right}
use ubuntu_pro_for_wsl.Prelude.{
  ◌≡◌, refl, ◌<◌, ◌≤◌, ◌+◌, ◌*◌, ◌%◌, ◌-◌, ◌^◌, List, [], ◌∷◌, Result, ok, err, All, arith, leb,
  ltb, ◌==◌, Bool-cases, Result-cases, inl, inr,
}
use ubuntu_pro_for_wsl.AgentDaemon.Buffer.{
  Buffer, BufferError, max_uint32, elements_for, resize_bytes,
}
use ubuntu_pro_for_wsl.AgentDaemon.Adapters.{
  AddressesAnswer, filled, overflows, refuses, ApiCall, list_loop, get_addr_list,
}

elements_for-fits :
    (size_of n : ℕ)
    → 0 < size_of
    → (n ≤ elements_for size_of n * size_of) × (elements_for size_of n * size_of < n + size_of)
unfolding elements_for
elements_for-fits size_of n h = elim (Bool-cases (n % size_of == 0)) [
  | inl q ↦
      rw q
        (ground (arith, div_any n size_of, mod-lt n h, q), ground (arith, div_any n size_of, h, q))
  | inr q ↦
      rw q (ground (arith, div_any n size_of, mod-lt n h), ground (arith, div_any n size_of, q))
]

-- The size that resizeBytes returns: it is the least multiple of the element size that holds the bytes,
-- fits the buffer and a uint32, and the buffer does not shrink.
abbrev pub Resizes : ℕ → ℕ → Buffer → Buffer × Result BufferError ℕ → Type 0
Resizes size_of n b (b', err e) = b' ≡ b
Resizes size_of n b (b', ok size) =
    (n ≤ size)
    × (size < n + size_of)
    × (size ≤ b'.elements * size_of)
    × (size < 2 ^ 32 - 1)
    × (b.elements ≤ b'.elements)

mul_mono : (a b k : ℕ) → a ≤ b → a * k ≤ b * k
mul_mono a b k h = mul-le-mul_right k h

resize_bytes-Resizes :
    (size_of n : ℕ) (b : Buffer) → 0 < size_of → Resizes size_of n b (resize_bytes size_of n b)
unfolding resize_bytes max_uint32
resize_bytes-Resizes size_of n b h =
    let len = elements_for size_of n in
    let (low, high) = elements_for-fits size_of n h in
    elim (Bool-cases (leb (2 ^ 32 - 1) (len * size_of))) [
      | inl q ↦ rw q refl
      | inr q ↦ elim (Bool-cases (ltb b.elements len)) [
        | inl g ↦ rw q (rw g (low, high, omega arith, ground (arith, q), ground (arith, g)))
        | inr g ↦ rw q (
            rw g (
              low,
              high,
              mul_mono len b.elements size_of (ground (arith, g)),
              ground (arith, q),
              omega arith,
            ))
      ]
    ]

-- A size that the buffer has room for.
abbrev pub IsSafe : ℕ → ApiCall → Type 0
IsSafe size_of call = call.size ≤ call.elements * size_of

same_size : (s t : ℕ) → ◌≡◌ {A = Result BufferError ℕ} (ok s) (ok t) → s ≡ t
same_size s t h = cc h

resized_fits :
    (size_of n : ℕ) (b : Buffer) (x : Buffer × Result BufferError ℕ) (size : ℕ)
    → x.1 ≡ ok size
    → Resizes size_of n b x
    → size ≤ x.0.elements * size_of
resized_fits size_of n b (b', err e) size r k = absurd (cc r)
resized_fits size_of n b (b', ok s) size r (_, _, fits, _, _) = rw⁻¹ (same_size s size r) fits

module _ {E Ip : Type 0} (size_of : ℕ) (positive : 0 < size_of) where
  list_loop-IsSafe :
      (answers : List (AddressesAnswer E Ip)) (b : Buffer) (size : ℕ)
      → size ≤ b.elements * size_of
      → All (IsSafe size_of) (list_loop size_of answers b size).0
  unfolding list_loop
  list_loop-IsSafe [] b size h = tt
  list_loop-IsSafe (filled adapters ∷ answers) b size h = (h, tt)
  list_loop-IsSafe (refuses e ∷ answers) b size h = (h, tt)
  list_loop-IsSafe (overflows needed ∷ answers) b size h =
      let resized = resize_bytes size_of needed b in
      elim (Result-cases resized.1) [
        | inr (e, r) ↦ rw (r, list_loop) (h, tt)
        | inl (size', r) ↦
            rw (r, list_loop)
              (
                h,
                list_loop-IsSafe answers resized.0 size' (
                    resized_fits size_of needed b resized size' r
                      (resize_bytes-Resizes size_of needed b positive)),
              )
      ]

  -- If the elements have a size, then whatever the Win32 API answers, getAddrList never tells it that the
  -- buffer is larger than it is.
  pub get_addr_list-IsSafe :
      (api : ℕ → AddressesAnswer E Ip) → All (IsSafe size_of) (get_addr_list size_of api).0
  unfolding get_addr_list
  get_addr_list-IsSafe api =
      let start = resize_bytes size_of (15 * 1024) (record { elements = 0 }) in
      elim (Result-cases start.1) [
        | inr (e, r) ↦ rw (r, get_addr_list) tt
        | inl (size, r) ↦
            rw (r, get_addr_list)
              (list_loop-IsSafe
                (api 0 ∷ api 1 ∷ api 2 ∷ api 3 ∷ api 4 ∷ api 5 ∷ api 6 ∷ api 7 ∷ api 8 ∷ api 9 ∷ [])
                start.0 size
                (resized_fits size_of (15 * 1024) (record { elements = 0 }) start size r
                  (resize_bytes-Resizes size_of (15 * 1024) (record { elements = 0 }) positive)))
      ]
