-- ===== src/Base/Integers.antt =====
-- Signed integers over the native numbers, with the operations and the range of a C int.
use Prim.Native.Nat.{ℕ, suc, ◌+◌, ◌-◌, ◌*◌}
use mathlib.Core.Bool.{Bool}
use mongo_sgx_client.Base.Tests.{leb, if◌then◌else◌}
use mongo_sgx_client.Base.Outcome.{Run, done, fault}

-- `negsuc n` is -(n + 1).
pub data ℤ : Type 0 where
  pos : ℕ → ℤ
  negsuc : ℕ → ℤ

abbrev pub pos_part : ℤ → ℕ
pos_part (pos n) = n
pos_part (negsuc n) = 0

abbrev pub neg_part : ℤ → ℕ
neg_part (pos n) = 0
neg_part (negsuc n) = suc n

-- a - b.
abbrev pub difference : ℕ → ℕ → ℤ
difference a b = if leb b a then pos (a - b) else negsuc (b - a - 1)

-- A value that a 32-bit int holds.
abbrev pub fits_int : ℤ → Bool
fits_int (pos n) = leb n 2147483647
fits_int (negsuc n) = leb n 2147483647

-- Signed arithmetic beyond the range of the type has no defined behaviour.
abbrev pub checked : ℤ → Run ℤ
checked z = if fits_int z then done z else fault

-- `z * n`, `z - n` and `-z`, for a number `n`.
abbrev pub times : ℤ → ℕ → Run ℤ
times z n = checked (difference (pos_part z * n) (neg_part z * n))

abbrev pub minus : ℤ → ℕ → Run ℤ
minus z n = checked (difference (pos_part z) (neg_part z + n))

abbrev pub negate : ℤ → Run ℤ
negate z = checked (difference (neg_part z) (pos_part z))
