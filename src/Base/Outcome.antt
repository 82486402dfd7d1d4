-- ===== src/Base/Outcome.antt =====
-- What a run of C code comes to. `fault` is behaviour that C leaves undefined: an
-- access outside of a buffer, or an int beyond its range.
use Prim.Native.Nat.{ℕ}
use mathlib.Core.Option.{none, some}
use mongo_sgx_client.Base.Tests.{ltb, if◌then◌else◌}
use mongo_sgx_client.Base.Lists.{Bytes, length, get_elem?, set}

pub data Run {ℓ} (A : Type ℓ) : Type ℓ where
  done : A → Run A
  fault : Run A

-- One round of a loop: it goes on in a new state, or leaves the function.
pub data Round {ℓ κ} (S : Type ℓ) (R : Type κ) : Type (ℓ ⊔ κ) where
  next : S → Round S R
  leave : R → Round S R

infixl 5 ◌>>=◌
abbrev pub ◌>>=◌ {ℓ κ} : {A : Type ℓ} {B : Type κ} → Run A → (A → Run B) → Run B
done a >>= f = f a
fault >>= f = fault

-- `*p` and `*p = v` for a pointer at offset `p` of a buffer.
abbrev pub load : Bytes → ℕ → Run ℕ
load m p = elim (get_elem? m p) [ none ↦ fault | some v ↦ done v ]

abbrev pub store : Bytes → ℕ → ℕ → Run Bytes
store m p v = if ltb p (length m) then done (set m p v) else fault
