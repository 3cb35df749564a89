-- ===== src/Prelude/Int.antt =====
-- Signed integers over the native numbers, as far as the program's int64 values need them.
use Prim.Native.Nat.{ℕ, suc, ◌+◌, ◌-◌}
use mathlib.Core.Bool.{Bool, true, false}
use pg_live_sync.Prelude.Tests.{ltb, leb, if◌then◌else◌}

-- `negsuc n` stands for -(n + 1).
pub data ℤ : Type 0 where
  pos negsuc : ℕ → ℤ

-- The difference of two numbers, which may be negative.
abbrev pub sub_ℕ : ℕ → ℕ → ℤ
sub_ℕ m n = if leb n m then pos (m - n) else negsuc (n - m - 1)

-- m < n
abbrev pub ltb_ℤ : ℤ → ℤ → Bool
ltb_ℤ (pos m) (pos n) = ltb m n
ltb_ℤ (pos m) (negsuc n) = false
ltb_ℤ (negsuc m) (pos n) = true
ltb_ℤ (negsuc m) (negsuc n) = ltb n m

infixl 65 ◌-ℤ◌
-- a - b for numbers of either sign
unfoldable pub ◌-ℤ◌ : ℤ → ℤ → ℤ
pos m -ℤ pos n = sub_ℕ m n
pos m -ℤ negsuc n = pos (m + suc n)
negsuc m -ℤ pos n = negsuc (m + n)
negsuc m -ℤ negsuc n = sub_ℕ n m
