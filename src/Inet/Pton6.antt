-- ===== src/Inet/Pton6.antt =====
-- `inet_pton6` of trusted/inet_pton_ntop.c: an IPv6 address in text to sixteen bytes.
-- `src` is the text up to `src_endp`, `tmp` the local buffer, `tp` and `colonp` offsets in it.
pub mod Walk
pub mod Agree
pub mod Rounds
pub mod Refines
pub mod Groups
pub mod Gaps
pub mod Accepts
pub mod Texts
use Prim.Native.Nat.{bit_or}
use mongo_sgx_client.Base.{
  ℕ, suc, ◌+◌, ◌-◌, ◌*◌, ◌/◌, ◌%◌, ◌^◌, ◌≡◌, refl, Bool, true, false, ◌&&◌, Bytes, [], ◌∷◌, ◌++◌,
  Option, none, some, arith, ltb, leb, ◌==◌, if◌then◌else◌, codes, length, take, drop, replicate,
  Run, done, fault, Round, next, leave, ◌>>=◌, load, store,
}
use mongo_sgx_client.Libc.{write}
use mongo_sgx_client.Inet.Digits.{hex_digit_value}
use mongo_sgx_client.Inet.Pton4.{inet_pton4}

pub record State : Type 0 where
  pub tmp : Bytes
  pub tp : ℕ
  pub colonp : Option ℕ
  pub curtok : Bytes
  pub xdigits_seen : ℕ
  pub val : ℕ

-- How the loop ends: `return 0`, or falling out of it in a state.
abbrev pub Exit : Type 0
Exit = Run (Option State)

-- NS_IN6ADDRSZ, which is also the offset `endp`.
abbrev pub endp : ℕ
endp = 16

-- A hexadecimal digit.
unfoldable pub on_digit : ℕ → State → Round State Exit
on_digit digit st =
    let val = bit_or (st.val * 16 % 2 ^ 32) digit in
    if st.xdigits_seen == 4
    then leave (done none)
    else if ltb 0xffff val
    then leave (done none)
    else next (record st { val = val; xdigits_seen = st.xdigits_seen + 1 })

-- `*tp++ = (val >> 8) & 0xff; *tp++ = val & 0xff`.
unfoldable pub put_word : State → Run State
put_word st = do
  m ← store st.tmp st.tp (st.val / 256 % 256)
  m' ← store m (st.tp + 1) (st.val % 256)
  done (record st { tmp = m'; tp = st.tp + 2 })

-- A colon; `rest` is the text behind it.
unfoldable pub on_colon : Bytes → State → Round State Exit
on_colon rest st =
    if st.xdigits_seen == 0
    then elim st.colonp [
      | some _ ↦ leave (done none)
      | none ↦ next (record st { curtok = rest; colonp = some st.tp })
    ]
    else if length rest == 0
    then leave (done none)
    else if ltb endp (st.tp + 2)
    then leave (done none)
    else elim (put_word st) [
      | fault ↦ leave fault
      | done s ↦ next (record s { curtok = rest; xdigits_seen = 0; val = 0 })
    ]

-- A dot: the token that it stands in has to be an IPv4 address up to the end of the text.
unfoldable pub on_dot : Bytes → State → Round State Exit
on_dot junk st =
    if leb (st.tp + 4) endp
    then elim (inet_pton4 st.curtok junk) [
      | fault ↦ leave fault
      | done none ↦ leave (done none)
      | done (some quad) ↦ elim (write st.tmp st.tp quad) [
        | fault ↦ leave fault
        | done m ↦ leave (done (some (record st { tmp = m; tp = st.tp + 4; xdigits_seen = 0 })))
      ]
    ]
    else leave (done none)

-- One round of the loop over the text. `junk` is what the buffer of `inet_pton4` holds first.
unfoldable pub step : Bytes → ℕ → Bytes → State → Round State Exit
step junk ch rest st = elim (hex_digit_value ch) [
  | some digit ↦ on_digit digit st
  | none ↦
      if ch == b':'
      then on_colon rest st
      else if ch == b'.'
      then on_dot junk st
      else leave (done none)
]

unfoldable pub loop : Bytes → Bytes → State → Exit
loop junk [] st = done (some st)
loop junk (ch ∷ src) st = elim (step junk ch src st) [ next s ↦ loop junk src s | leave r ↦ r ]

-- The word that the text ends with.
unfoldable pub last_word : State → Exit
last_word st =
    if ltb 0 st.xdigits_seen
    then if ltb endp (st.tp + 2) then done none else (do s ← put_word st; done (some s))
    else done (some st)

-- What follows `colonp` goes to the end of the buffer, and zeros take its place.
unfoldable pub expand : State → Exit
expand st = elim st.colonp [
  | none ↦ done (some st)
  | some colon ↦ if st.tp == endp then done none else do
    let n = st.tp - colon
    m ← write st.tmp (endp - n) (take n (drop colon st.tmp))
    m' ← write m colon (replicate (endp - n - colon) 0)
    done (some (record st { tmp = m'; tp = endp }))
]

-- `if (tp != endp) return 0`; the bytes are those that memcpy hands to `dst`.
abbrev pub to_dst : Exit → Run (Option Bytes)
to_dst fault = fault
to_dst (done none) = done none
to_dst (done (some st)) = if st.tp == endp then done (some st.tmp) else done none

abbrev pub after_word : Exit → Run (Option Bytes)
after_word fault = fault
after_word (done none) = done none
after_word (done (some st)) = to_dst (expand st)

-- The statements behind the loop.
abbrev pub after_loop : Exit → Run (Option Bytes)
after_loop fault = fault
after_loop (done none) = done none
after_loop (done (some st)) = after_word (last_word st)

-- The address must not begin with a single colon.
unfoldable pub skip_colon : Bytes → Option Bytes
skip_colon [] = none
skip_colon (c ∷ src) =
    if c == b':'
    then elim src [ [] ↦ none | d ∷ r ↦ if d == b':' then some (d ∷ r) else none ]
    else some (c ∷ src)

unfoldable pub inet_pton6 : Bytes → Bytes → Run (Option Bytes)
inet_pton6 src junk = elim (skip_colon src) [
  | none ↦ done none
  | some text ↦ after_loop (
      loop junk text (record {
        tmp = replicate endp 0;
        tp = 0;
        colonp = none;
        curtok = text;
        xdigits_seen = 0;
        val = 0;
      }))
]

program : Unit {0}
unfolding inet_pton6 skip_colon expand last_word loop step on_dot on_colon put_word on_digit write
    inet_pton4 hex_digit_value
program = tt

abbrev junk4 : Bytes
junk4 = 9 ∷ 9 ∷ 9 ∷ 9 ∷ []

loopback : inet_pton6 (codes "::1") junk4 ≡ done (some (replicate 15 0 ++ 1 ∷ []))
unfolding program
loopback = refl

mapped :
    inet_pton6 (codes "::fFff:1.2.3.4") junk4
    ≡ done (some (replicate 10 0 ++ 255 ∷ 255 ∷ 1 ∷ 2 ∷ 3 ∷ 4 ∷ []))
unfolding program
mapped = refl

two_gaps : inet_pton6 (codes "1::2::3") junk4 ≡ done none
unfolding program
two_gaps = refl

nine_words : inet_pton6 (codes "1:2:3:4:5:6:7:8:9") junk4 ≡ done none
unfolding program
nine_words = refl
