-- ===== src/Inet/Pton4.antt =====
-- `inet_pton4` of trusted/inet_pton_ntop.c: dotted text to four bytes.
-- The text from `src` to `end` is a list. `tmp` is a buffer of four cells, whose first contents are
-- a parameter since C leaves them undefined, and `tp` is an offset in it.
pub mod Walk
pub mod Texts
pub mod Accepts
use mongo_sgx_client.Base.{
  ℕ, suc, ◌+◌, ◌-◌, ◌*◌, ◌≡◌, refl, Bool, true, false, ◌&&◌, Bytes, [], ◌∷◌, Option, none, some,
  arith, ltb, leb, ◌==◌, if◌then◌else◌, codes, Run, done, fault, Round, next, leave, ◌>>=◌, load,
  store,
}

pub record State : Type 0 where
  pub tmp : Bytes
  pub tp : ℕ
  pub saw_digit : Bool
  pub octets : ℕ

-- `return 0` and `return 1` with the bytes that memcpy hands to `dst`.
abbrev pub Result : Type 0
Result = Run (Option Bytes)

-- The branch of a digit, `v` being `*tp`.
unfoldable pub on_digit : ℕ → State → ℕ → Round State Result
on_digit ch st v =
    let value = v * 10 + (ch - b'0') in
    if st.saw_digit && v == 0
    then leave (done none)
    else if ltb 255 value
    then leave (done none)
    else elim (store st.tmp st.tp value) [
      | fault ↦ leave fault
      | done m ↦
          if st.saw_digit
          then next (record st { tmp = m })
          else if ltb 4 (st.octets + 1)
          then leave (done none)
          else next (record st { tmp = m; octets = st.octets + 1; saw_digit = true })
    ]

-- One round of the loop over the text.
unfoldable pub step : ℕ → State → Round State Result
step ch st =
    if leb b'0' ch && leb ch b'9'
    then elim (load st.tmp st.tp) [ fault ↦ leave fault | done v ↦ on_digit ch st v ]
    else if ch == b'.' && st.saw_digit
    then if st.octets == 4 then leave (done none) else elim (store st.tmp (st.tp + 1) 0) [
      | fault ↦ leave fault
      | done m ↦ next (record st { tmp = m; tp = st.tp + 1; saw_digit = false })
    ]
    else leave (done none)

unfoldable pub loop : Bytes → State → Result
loop [] st = done (if ltb st.octets 4 then none else some st.tmp)
loop (ch ∷ src) st = elim (step ch st) [ next st' ↦ loop src st' | leave r ↦ r ]

-- `*(tp = tmp) = 0`, and the loop.
unfoldable pub inet_pton4 : Bytes → Bytes → Result
unfolding loop step on_digit
inet_pton4 src tmp = do
  m ← store tmp 0 0
  loop src (record { tmp = m; tp = 0; saw_digit = false; octets = 0 })

abbrev junk : Bytes
junk = 7 ∷ 7 ∷ 7 ∷ 7 ∷ []

accepts_address : inet_pton4 (codes "192.168.0.1") junk ≡ done (some (192 ∷ 168 ∷ 0 ∷ 1 ∷ []))
unfolding inet_pton4
accepts_address = refl

refuses_leading_zero : inet_pton4 (codes "192.168.00.1") junk ≡ done none
unfolding inet_pton4
refuses_leading_zero = refl

refuses_five : inet_pton4 (codes "1.2.3.4.5") junk ≡ done none
unfolding inet_pton4
refuses_five = refl
