-- ===== src/Slice.antt =====
-- Go's `[]byte`: nil, or a view of `cap` bytes of memory from the address `base`, of which `len` are
-- the slice's contents. And pool_admission.go's zeroBufferCapacity, over the memory's bytes.
use bufferpool.Base.{ℕ, ◌+◌, ◌≡◌, ◌&&◌, Bool, true, false, arith, ltb, leb, if◌then◌else◌}

pub data Slice : Type 0 where
  nil : Slice
  view : (base len cap : ℕ) → Slice

abbrev pub capacity : Slice → ℕ
capacity nil = 0
capacity (view base len cap) = cap

abbrev pub is_nil : Slice → Bool
is_nil nil = true
is_nil (view base len cap) = false

-- `buffer[:0]`
abbrev pub reslice_empty : Slice → Slice
reslice_empty nil = nil
reslice_empty (view base len cap) = view base 0 cap

abbrev pub Memory : Type 0
Memory = ℕ → ℕ

-- `clear(buffer[:cap(buffer)])`
unfoldable pub zero_buffer_capacity : Slice → Memory → Memory
zero_buffer_capacity nil m a = m a
zero_buffer_capacity (view base len cap) m a = if leb base a && ltb a (base + cap) then 0 else m a

pub capacity-reslice_empty : (s : Slice) → capacity (reslice_empty s) ≡ capacity s
capacity-reslice_empty nil = omega arith
capacity-reslice_empty (view base len cap) = omega arith
