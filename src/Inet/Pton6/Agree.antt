-- ===== src/Inet/Pton6/Agree.antt =====
-- When the state of the loop of `inet_pton6` agrees with the walk.
use native.Mathlib.Numerals.{add-one}
use mongo_sgx_client.Base.{
  ℕ, zero, suc, ◌+◌, ◌*◌, ◌<◌, ◌≤◌, ◌≡◌, Bytes, Option, none, some, arith, length, take, done,
  Round, next, leave,
}
use mongo_sgx_client.Inet.Pton6.{State, Exit, endp}
use mongo_sgx_client.Inet.Pton6.Walk.{View, Move, go, refuse, stop}

-- The numbers with so many digits.
abbrev pub bound : ℕ → ℕ
bound zero = 1
bound (suc n) = 16 * bound n

pub bound-le : (n : ℕ) → n < 4 → bound n ≤ 4096
bound-le zero h = omega arith
bound-le (suc zero) h = omega arith
bound-le (suc (suc zero)) h = omega arith
bound-le (suc (suc (suc zero))) h = omega arith
bound-le (suc (suc (suc (suc n)))) h = absurd (omega arith)

pub bound-add : (n : ℕ) → bound (n + 1) ≡ 16 * bound n
bound-add n = rw add-one

-- The place of :: is inside of what has been read.
abbrev pub GapIn : Option ℕ → ℕ → Type 0
GapIn none n = Unit
GapIn (some c) n = c ≤ n

pub GapIn-mono : (o : Option ℕ) (n m : ℕ) → n ≤ m → GapIn o n → GapIn o m
GapIn-mono none n m h k = tt
GapIn-mono (some c) n m h k = omega arith

-- The buffer up to `tp` holds `out`, and `colonp` is `gap`.
pub record Holds (st : State) (out : Bytes) (gap : Option ℕ) : Type 0 where
  pub whole : length st.tmp ≡ endp
  pub at : st.tp ≡ length out
  pub inside : st.tp ≤ endp
  pub part : take st.tp st.tmp ≡ out
  pub same_gap : st.colonp ≡ gap
  pub gap_inside : GapIn gap (length out)

-- What counts behind the loop.
pub record Ends (st : State) (v : View) : Type 0 where
  pub holds : Holds st v.out v.gap
  pub open holds use *
  pub same_seen : st.xdigits_seen ≡ v.seen
  pub same_val : st.val ≡ v.val

pub record Agrees (st : State) (v : View) : Type 0 where
  pub ends : Ends st v
  pub open ends use *
  pub same_token : st.curtok ≡ v.token
  pub few : v.seen ≤ 4
  pub small : v.val < bound v.seen

abbrev pub Follows : Round State Exit → Move → Type 0
Follows (next st) (go v) = Agrees st v
Follows (leave (done none)) refuse = Unit
Follows (leave (done (some st))) (stop v) = Ends st v
Follows _ _ = ⊥
