-- ===== src/Prelude/Ints.antt =====
-- The integers over the native numbers, and the distance of two of them.
use Prim.Native.Nat.{ℕ, ◌+◌, ◌-◌}
use mathlib.Core.Bool.{Bool, true, false}
use apollo_mavis_v2_runtime.Prelude.Tests.{if◌then◌else◌, leb}

pub data ℤ : Type 0 where
  pos : ℕ → ℤ
  negsuc : ℕ → ℤ

-- `abs(a - b)`
abbrev pub dist : ℤ → ℤ → ℕ
dist (pos m) (pos n) = (m - n) + (n - m)
dist (negsuc m) (negsuc n) = (m - n) + (n - m)
dist (pos m) (negsuc n) = m + n + 1
dist (negsuc m) (pos n) = m + n + 1

abbrev pub leb_int : ℤ → ℤ → Bool
leb_int (pos m) (pos n) = leb m n
leb_int (negsuc m) (pos n) = true
leb_int (pos m) (negsuc n) = false
leb_int (negsuc m) (negsuc n) = leb n m

-- `a + n`
abbrev pub add_nat : ℤ → ℕ → ℤ
add_nat (pos m) n = pos (m + n)
add_nat (negsuc m) n = if leb n m then negsuc (m - n) else pos (n - m - 1)
