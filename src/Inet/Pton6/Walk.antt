-- ===== src/Inet/Pton6/Walk.antt =====
-- `inet_pton6` seen without its buffer: the bytes that are complete, where :: stood among them, the
-- token that is being read, and its digits.
use mongo_sgx_client.Base.{
  ℕ, ◌+◌, ◌-◌, ◌*◌, ◌/◌, ◌%◌, Bytes, [], ◌∷◌, ◌++◌, Option, none, some, ltb, leb, ◌==◌,
  if◌then◌else◌, length, take, drop, replicate,
}
use mongo_sgx_client.Inet.Digits.{hex_digit_value}
use mongo_sgx_client.Inet.Pton4.Walk as Quad
use mongo_sgx_client.Inet.Pton6.{endp, skip_colon}

pub record View : Type 0 where
  pub out : Bytes
  pub gap : Option ℕ
  pub token : Bytes
  pub seen : ℕ
  pub val : ℕ

-- A round goes on, refuses the text, or ends the loop.
pub data Move : Type 0 where
  go : View → Move
  refuse : Move
  stop : View → Move

abbrev pub word_bytes : ℕ → Bytes
word_bytes w = (w / 256 % 256) ∷ (w % 256) ∷ []

abbrev pub advance_digit : ℕ → View → Move
advance_digit d v =
    if v.seen == 4
    then refuse
    else if ltb 0xffff (v.val * 16 + d)
    then refuse
    else go (record v { val = v.val * 16 + d; seen = v.seen + 1 })

abbrev pub advance_colon : Bytes → View → Move
advance_colon rest v =
    if v.seen == 0
    then elim v.gap [
      | some _ ↦ refuse
      | none ↦ go (record v { token = rest; gap = some (length v.out) })
    ]
    else if length rest == 0
    then refuse
    else if ltb endp (length v.out + 2)
    then refuse
    else go (record v { out = v.out ++ word_bytes v.val; token = rest; seen = 0; val = 0 })

abbrev pub advance_dot : View → Move
advance_dot v =
    if leb (length v.out + 4) endp
    then elim (Quad.walk v.token Quad.start) [
      | none ↦ refuse
      | some quad ↦ stop (record v { out = v.out ++ quad; seen = 0 })
    ]
    else refuse

unfoldable pub advance : ℕ → Bytes → View → Move
advance ch rest v = elim (hex_digit_value ch) [
  | some d ↦ advance_digit d v
  | none ↦ if ch == b':' then advance_colon rest v else if ch == b'.' then advance_dot v else refuse
]

unfoldable pub walk : Bytes → View → Option View
walk [] v = some v
walk (ch ∷ src) v = elim (advance ch src v) [ go u ↦ walk src u | refuse ↦ none | stop u ↦ some u ]

abbrev pub last_word : View → Option View
last_word v =
    if ltb 0 v.seen
    then if ltb endp (length v.out + 2)
      then none
      else some (record v { out = v.out ++ word_bytes v.val })
    else some v

abbrev pub expand : View → Option Bytes
expand v = elim v.gap [
  | none ↦ some v.out
  | some colon ↦
      if length v.out == endp
      then none
      else some (take colon v.out ++ replicate (endp - length v.out) 0 ++ drop colon v.out)
]

abbrev pub exact : Option Bytes → Option Bytes
exact none = none
exact (some bytes) = if length bytes == endp then some bytes else none

abbrev pub after_word : Option View → Option Bytes
after_word none = none
after_word (some v) = exact (expand v)

abbrev pub after_loop : Option View → Option Bytes
after_loop none = none
after_loop (some v) = after_word (last_word v)

abbrev pub start : Bytes → View
start text = record { out = []; gap = none; token = text; seen = 0; val = 0 }

unfoldable pub read_address : Bytes → Option Bytes
read_address src = elim (skip_colon src) [
  | none ↦ none
  | some text ↦ after_loop (walk text (start text))
]
