-- ===== src/Base/Bits.antt =====
-- `(v << k) | d` where `d` has no more than `k` bits is an addition: evaluated for every pair of
-- values in the two ranges that the sources use.
use Prim.Native.Nat.{ℕ, zero, suc, ◌+◌, ◌*◌, ◌≤◌, ◌<◌, bit_or}
use mathlib.Core.Path.{◌≡◌, refl}
use mathlib.Core.Logic.{inl, inr}
use mathlib.Core.Bool.{Bool, true, false}
use native.Mathlib.Omega.{arith}
use mongo_sgx_client.Base.Tests.{◌==◌, Bool-cases}

-- Does the test hold of the `count` numbers from `first` on?
unfoldable pub range_holds : (test : ℕ → Bool) (count first : ℕ) → Bool
range_holds test zero first = true
range_holds test (suc count) first = elim (test first) [
  | true ↦ range_holds test count (first + 1)
  | false ↦ false
]

-- Then it holds of each of them.
pub range_holds_at :
    (test : ℕ → Bool) (count first i : ℕ)
    → range_holds test count first ≡ true
    → first ≤ i
    → i < first + count
    → test i ≡ true
unfolding range_holds
range_holds_at test zero first i h low high = absurd (omega arith)
range_holds_at test (suc count) first i h low high = elim (Bool-cases (first == i)) [
  | inl here ↦ ground (arith, here)
  | inr later ↦ ground (arith, later, range_holds_at test count (first + 1) i)
]

-- No bit of `d` meets one of `v` shifted.
abbrev adds_up : ℕ → ℕ → ℕ → Bool
adds_up base v d = bit_or (v * base) d == v * base + d

adds_up_eq : (base v d : ℕ) → adds_up base v d ≡ true → bit_or (v * base) d ≡ v * base + d
adds_up_eq base v d h = ground arith

every_nibble : range_holds (λ v. range_holds (adds_up 16 v) 16 0) 4096 0 ≡ true
unfolding range_holds
every_nibble = refl

every_byte : range_holds (λ v. range_holds (adds_up 256 v) 256 0) 256 0 ≡ true
unfolding range_holds
every_byte = refl

pub or_nibble : (v d : ℕ) → v < 4096 → d < 16 → bit_or (v * 16) d ≡ v * 16 + d
or_nibble v d h k =
    adds_up_eq 16 v d (range_holds_at (adds_up 16 v) 16 0 d row (omega arith) (omega arith))
  where
    row : range_holds (adds_up 16 v) 16 0 ≡ true
    row =
        range_holds_at (λ v. range_holds (adds_up 16 v) 16 0) 4096 0 v every_nibble (omega arith)
          (omega arith)

pub or_byte : (v d : ℕ) → v < 256 → d < 256 → bit_or (v * 256) d ≡ v * 256 + d
or_byte v d h k =
    adds_up_eq 256 v d (range_holds_at (adds_up 256 v) 256 0 d row (omega arith) (omega arith))
  where
    row : range_holds (adds_up 256 v) 256 0 ≡ true
    row =
        range_holds_at (λ v. range_holds (adds_up 256 v) 256 0) 256 0 v every_byte (omega arith)
          (omega arith)
