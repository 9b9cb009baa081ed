-- ===== src/Common/Int.antt =====
-- The C++ `int`s that may be negative: indices, and changes of a count.
use Prim.Native.Nat.{ℕ, ◌+◌, ◌-◌}

-- `negsuc n` is -(n + 1).
pub data ℤ : Type 0 where
  pos : ℕ → ℤ
  negsuc : ℕ → ℤ

-- `MAX(n + d, 0)`.
abbrev pub add_clamped : ℕ → ℤ → ℕ
add_clamped n (pos d) = n + d
add_clamped n (negsuc d) = n - (d + 1)
