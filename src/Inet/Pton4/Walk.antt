-- ===== src/Inet/Pton4/Walk.antt =====
-- The loop of `inet_pton4` seen without its buffer: the octets that are complete, and the one that
-- is being read. The detailed loop never faults and goes the same way.
use native.Mathlib.Numerals.{add-one}
use mongo_sgx_client.Base.{
  ℕ, suc, ◌+◌, ◌-◌, ◌*◌, ◌<◌, ◌≤◌, ◌≡◌, refl, sym, ◌∙◌, true, false, ◌&&◌, Bytes, [], ◌∷◌, ◌++◌,
  Option, none, some, arith, ltb, leb, ◌==◌, if◌then◌else◌, done, Round, next, leave, length,
  get_elem?, set, take, length-set, take-set, take-suc, get_elem?-set_self, take-all, length-append,
  inl, inr, ap, lt→ltb, Option-cases,
}
use mongo_sgx_client.Inet.Pton4.{State, Result, on_digit, step, loop, inet_pton4}

pub record View : Type 0 where
  pub complete : Bytes
  pub current : Option ℕ

abbrev pub started : Option ℕ → ℕ
started none = 0
started (some v) = 1

abbrev pub value_of : Option ℕ → ℕ
value_of none = 0
value_of (some v) = v

-- A digit behind the octet: 0 takes none, and the octet stays below 256.
abbrev pub extend : ℕ → View → Option View
extend d w = elim w.current [
  | some v ↦
      if v == 0
      then none
      else if ltb 255 (v * 10 + d)
      then none
      else some (record w { current = some (v * 10 + d) })
  | none ↦
      if ltb 255 d
      then none
      else if ltb 4 (length w.complete + 1)
      then none
      else some (record w { current = some d })
]

abbrev pub advance : ℕ → View → Option View
advance ch w =
    if leb b'0' ch && leb ch b'9'
    then extend (ch - b'0') w
    else if ch == b'.'
    then elim w.current [
      | none ↦ none
      | some v ↦
          if length w.complete + 1 == 4
          then none
          else some (record { complete = w.complete ++ v ∷ []; current = none })
    ]
    else none

abbrev pub finish : View → Option Bytes
finish w =
    if ltb (length w.complete + started w.current) 4
    then none
    else some (w.complete ++ value_of w.current ∷ [])

unfoldable pub walk : Bytes → View → Option Bytes
walk [] w = finish w
walk (ch ∷ src) w = elim (advance ch w) [ none ↦ none | some w' ↦ walk src w' ]

pub record Agrees (st : State) (w : View) : Type 0 where
  pub four : length st.tmp ≡ 4
  pub inside : st.tp < 4
  pub at : st.tp ≡ length w.complete
  pub done_part : take st.tp st.tmp ≡ w.complete
  pub cell : get_elem? st.tmp st.tp ≡ some (value_of w.current)
  pub saw : st.saw_digit ≡ (started w.current == 1)
  pub count : st.octets ≡ st.tp + started w.current

-- What a round of the detailed loop may do when the other makes `r`.
abbrev Follows : Round State Result → Option View → Type 0
Follows (leave r) none = r ≡ done none
Follows (next st) (some w) = Agrees st w
Follows _ _ = ⊥

write_current :
    (st : State) (c : Bytes) (v : ℕ)
    → length st.tmp ≡ 4
    → st.tp < 4
    → st.tp ≡ length c
    → take st.tp st.tmp ≡ c
    → Agrees
        (record st { tmp = set st.tmp st.tp v; saw_digit = true; octets = st.tp + 1 })
        (record { complete = c; current = some v })
write_current st c v four inside at part = record {
  four = length-set st.tmp st.tp v ∙ four;
  inside = inside;
  at = at;
  done_part = take-set st.tmp st.tp v ∙ part;
  cell = get_elem?-set_self st.tmp st.tp v (omega arith);
  saw = refl;
  count = refl;
}

next_octet :
    (st : State) (c : Bytes) (v : ℕ)
    → length st.tmp ≡ 4
    → st.tp + 1 < 4
    → st.tp ≡ length c
    → take st.tp st.tmp ≡ c
    → get_elem? st.tmp st.tp ≡ some v
    → Agrees
        (record {
          tmp = set st.tmp (st.tp + 1) 0;
          tp = st.tp + 1;
          saw_digit = false;
          octets = st.tp + 1;
        })
        (record { complete = c ++ v ∷ []; current = none })
next_octet st c v four inside at part cell = record {
  four = length-set st.tmp (st.tp + 1) 0 ∙ four;
  inside = inside;
  at = omega (arith, length-append {0} c (v ∷ []));
  done_part =
      rw add-one
        (take-set st.tmp (suc st.tp) 0 ∙ take-suc st.tmp st.tp cell ∙ ap (λ t. t ++ v ∷ []) part);
  cell = get_elem?-set_self st.tmp (st.tp + 1) 0 (omega arith);
  saw = refl;
  count = omega arith;
}

on_digit-Follows :
    (ch : ℕ) (st : State) (w : View)
    → Agrees st w
    → Follows (on_digit ch st (value_of w.current)) (extend (ch - b'0') w)
unfolding on_digit
on_digit-Follows ch st w a = elim (Option-cases w.current) [
  | inl e ↦
      ground (arith, e, write_current st w.complete (ch - b'0') a.four a.inside a.at a.done_part)
  | inr (v, e) ↦ ground (
    arith,
    e,
    write_current st w.complete (v * 10 + (ch - b'0')) a.four a.inside a.at a.done_part,
  )
]

step-Follows : (ch : ℕ) (st : State) (w : View) → Agrees st w → Follows (step ch st) (advance ch w)
unfolding step
step-Follows ch st w a = elim (Option-cases w.current) [
  | inl e ↦ ground (arith, e, on_digit-Follows ch st w a)
  | inr (v, e) ↦
      ground
        (arith, e, on_digit-Follows ch st w a, next_octet st w.complete v a.four _ a.at a.done_part)
]

filled :
    (st : State) (w : View)
    → Agrees st w
    → 4 ≤ st.octets
    → st.tmp ≡ w.complete ++ value_of w.current ∷ []
filled st w a h =
    let four_read : 4 ≡ suc st.tp = ground (arith, a.count, a.inside) in
    sym (take-all 4 st.tmp (omega arith))
    ∙ ap (λ n. take n st.tmp) four_read
    ∙ take-suc st.tmp st.tp a.cell
    ∙ ap (λ t. t ++ value_of w.current ∷ []) a.done_part

finish-eq :
    (st : State) (w : View)
    → Agrees st w
    → (if ltb st.octets 4 then none else some st.tmp) ≡ finish w
finish-eq st w a = ground (arith, filled st w a, a.count, a.at)

follow :
    (src : Bytes) (r : Round State Result) (o : Option View)
    → Follows r o
    → ((st : State) (w : View) → Agrees st w → loop src st ≡ done (walk src w))
    → ◌≡◌ {A = Result}
        (elim r [ next st' ↦ loop src st' | leave r ↦ r ])
        (done (elim o [ none ↦ none | some w' ↦ walk src w' ]))
follow src (leave r) none h k = h
follow src (leave r) (some w) h k = elim h [ ]
follow src (next st) none h k = elim h [ ]
follow src (next st) (some w) h k = k st w h

loop-walk : (src : Bytes) (st : State) (w : View) → Agrees st w → loop src st ≡ done (walk src w)
unfolding loop walk
loop-walk [] st w a = ap done (finish-eq st w a)
loop-walk (ch ∷ src) st w a =
    follow src (step ch st) (advance ch w) (step-Follows ch st w a) (loop-walk src)

abbrev pub start : View
start = record { complete = []; current = none }

abbrev from_start : Bytes → State
from_start tmp = record { tmp = 0 ∷ tmp; tp = 0; saw_digit = false; octets = 0 }

starts : (tmp : Bytes) → length tmp ≡ 3 → Agrees (from_start tmp) start
starts tmp h = ground arith

-- The function never faults, whatever its buffer held, and does what the walk does.
pub inet_pton4-walk :
    (src tmp : Bytes) → length tmp ≡ 4 → inet_pton4 src tmp ≡ done (walk src start)
inet_pton4-walk src [] h = absurd (omega arith)
inet_pton4-walk src (x ∷ tmp) h =
    let room : ltb 0 (suc (length tmp)) ≡ true = lt→ltb 0 (suc (length tmp)) (omega arith) in
    unfold inet_pton4 in rw room (loop-walk src (from_start tmp) start (starts tmp (omega arith)))
