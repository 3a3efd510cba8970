-- ===== src/AgentDaemon/Buffer.antt =====
-- The buffer of windows-agent/internal/daemon/networking.go, which is resized to a number of bytes.
use ubuntu_pro_for_wsl.Prelude.{
  ℕ, ◌+◌, ◌*◌, ◌/◌, ◌%◌, ◌^◌, ◌-◌, Result, ok, err, if◌then◌else◌, ◌==◌, ltb, leb,
}

-- The number of elements of its slice.
pub record Buffer : Type 0 where
  pub elements : ℕ

pub data BufferError : Type 0 where
  limit_reached : BufferError

unfoldable pub max_uint32 : ℕ
max_uint32 = 2 ^ 32 - 1

-- The elements that hold n bytes. A size of an element is no zero; as n is a uint32, no uint64
-- overflows below an element size of 2 ^ 31.
unfoldable pub elements_for : ℕ → ℕ → ℕ
elements_for size_of n = if n % size_of == 0 then n / size_of else n / size_of + 1

-- resizeBytes: the buffer, and the size in bytes.
unfoldable pub resize_bytes : ℕ → ℕ → Buffer → Buffer × Result BufferError ℕ
unfolding elements_for max_uint32
resize_bytes size_of n b =
    let new_len = elements_for size_of n in
    if leb max_uint32 (new_len * size_of) then (b, err limit_reached) else (
      if ltb b.elements new_len then record { elements = new_len } else b,
      ok (new_len * size_of),
    )
