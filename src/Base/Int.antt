-- ===== src/Base/Int.antt =====
-- Go's signed integers: `negsuc n` is -(n + 1). int64 arithmetic wraps around at 2 ^ 63.
use Prim.Native.Nat.{ℕ, ◌-◌, ◌%◌, ◌^◌}
use crossplane_provider_slac.Base.{ltb, if◌then◌else◌}

pub data ℤ : Type 0 where
  pos : ℕ → ℤ
  negsuc : ℕ → ℤ

-- The int64 with the bits of `n`.
unfoldable pub to_int64 : ℕ → ℤ
to_int64 n = let m = n % 2 ^ 64 in if ltb m (2 ^ 63) then pos m else negsuc (2 ^ 64 - m - 1)
