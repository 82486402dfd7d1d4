-- ===== src/Inet/Pton6/Refines.antt =====
-- The statements behind the loop of `inet_pton6`, and the function as a whole beside the walk.
use mongo_sgx_client.Base.{
  ℕ, ◌+◌, ◌-◌, ◌≤◌, ◌≡◌, refl, sym, ◌∙◌, ap, Bytes, [], ◌++◌, Option, none, some, arith, ltb, ◌==◌,
  if◌then◌else◌, length, take, drop, replicate, Run, done, fault, length-append, Option-cases,
  Bool-cases, inl, inr, ltb→ge, ap₂, take-all, subst, length-take, length-drop, append-nil,
  drop-all, take-take, drop-take, take-prefix, drop-prefix, length-replicate,
}
use mongo_sgx_client.Libc.{write}
use mongo_sgx_client.Libc.Laws.{write_fits}
use mongo_sgx_client.Inet.Pton6
use mongo_sgx_client.Inet.Pton6.{
  State, Exit, endp, on_digit, put_word, on_colon, on_dot, inet_pton6,
}
use mongo_sgx_client.Inet.Pton6.Walk
use mongo_sgx_client.Inet.Pton6.Walk.{View, Move, go, refuse, stop}
use mongo_sgx_client.Inet.Pton6.Agree.{GapIn, Ends, Agrees}
use mongo_sgx_client.Inet.Pton6.Rounds.{LoopEnds, put_word_lem, loop-Ends}

last_word-Ends :
    (st : State) (v : View) → Ends st v → LoopEnds (Pton6.last_word st) (Walk.last_word v)
unfolding Pton6.last_word
last_word-Ends st v a = elim (Bool-cases (ltb endp (st.tp + 2))) [
  | inl full ↦ ground (arith, a)
  | inr room ↦
      let (s, e, h) = put_word_lem st v a (ltb→ge endp (st.tp + 2) room) in ground (arith, a, e, h)
]

-- memmove and memset on a buffer that holds `tp` bytes.
moved :
    (tmp : Bytes) (tp c : ℕ)
    → length tmp ≡ endp
    → tp ≤ endp
    → c ≤ tp
    → (m m' : Bytes) × (write tmp (endp - (tp - c)) (take (tp - c) (drop c tmp)) ≡ done m)
      × (write m c (replicate (endp - (tp - c) - c) 0) ≡ done m')
      × (m' ≡ take c (take tp tmp) ++ replicate (endp - tp) 0 ++ drop c (take tp tmp))
moved tmp tp c whole inside below =
    let n : ℕ = tp - c in
    let k : ℕ = endp - n in
    let tail = take n (drop c tmp) in
    let zeros : Bytes = replicate (k - c) 0 in
    let m : Bytes = take k tmp ++ tail in
    let tail_length : length tail ≡ n =
      omega (arith, length-take n (drop c tmp), length-drop c tmp) in
    let over : drop (k + length tail) tmp ≡ [] = drop-all _ tmp (omega arith) in
    let cells : length m ≡ endp =
      omega (arith, length-append {0} (take k tmp) tail, length-take k tmp) in
    let upto : c + length zeros ≡ k = omega (arith, length-replicate {A = ℕ} (k - c) 0) in
    let head : take c m ≡ take c tmp = take-prefix c k tmp tail (omega arith) (omega arith) in
    let rest : drop (c + length zeros) m ≡ tail =
      ap (λ j. drop j m) upto ∙ drop-prefix k tmp tail (omega arith) in
    let hole : k - c ≡ endp - tp = omega arith in
    let total : c + n ≡ tp = omega arith in
    (
      m,
      take c tmp ++ zeros ++ tail,
      write_fits tmp tail k (omega arith) ∙ ap (λ t. done (m ++ t)) over ∙ ap done (append-nil m),
      write_fits m zeros c (omega arith) ∙ ap₂ (λ x y. done (x ++ zeros ++ y)) head rest,
      ap₂ (λ x y. x ++ replicate y 0 ++ tail) (sym (take-take c tp tmp below)) hole
          ∙ ap (λ t. take c (take tp tmp) ++ replicate (endp - tp) 0 ++ t)
              (sym (drop-take c n tmp) ∙ ap (λ j. drop c (take j tmp)) total),
    )

-- What the statements behind the loop come to.
abbrev Whole : Run (Option State) → Option Bytes → Type 0
Whole (done none) none = Unit
Whole (done (some st)) (some bytes) =
    (length st.tmp ≡ endp) × (st.tp ≡ length bytes) × (st.tp ≤ endp) × (take st.tp st.tmp ≡ bytes)
Whole _ _ = ⊥

pub filled_length :
    (c : ℕ) (out : Bytes)
    → c ≤ length out
    → length out ≤ endp
    → length (take c out ++ replicate (endp - length out) 0 ++ drop c out) ≡ endp
filled_length c out h k =
    let zeros : Bytes = replicate (endp - length out) 0 in
    omega (
      arith,
      length-append {0} (take c out ++ zeros) (drop c out),
      length-append {0} (take c out) zeros,
      length-take c out,
      length-drop c out,
      length-replicate {A = ℕ} (endp - length out) 0,
    )

expand-Whole : (st : State) (v : View) → Ends st v → Whole (Pton6.expand st) (Walk.expand v)
unfolding Pton6.expand
expand-Whole st v a = elim (Option-cases v.gap) [
  | inl e ↦ ground (arith, a, e)
  | inr (c, e) ↦
      let below : c ≤ length v.out = subst (λ o. GapIn o (length v.out)) e a.gap_inside in
      let (m, m', first, second, is) =
        moved st.tmp st.tp c a.whole a.inside (omega (arith, a.at)) in
      let bytes = take c v.out ++ replicate (endp - length v.out) 0 ++ drop c v.out in
      let same : m' ≡ bytes = cc (is, a.part, a.at) in
      let size : length bytes ≡ endp =
        filled_length c v.out below (omega (arith, a.at, a.inside)) in
      let size' : length m' ≡ endp = ap length same ∙ size in
      let all : take endp m' ≡ bytes = take-all endp m' (omega arith) ∙ same in
      ground (arith, a, e, first, second, size, size', all)
]

full_buffer :
    (tmp b : Bytes) (tp : ℕ)
    → length tmp ≡ endp
    → tp ≡ length b
    → take tp tmp ≡ b
    → (if tp == endp then done (some tmp) else done none)
      ≡ done (if length b == endp then some b else none)
full_buffer tmp b tp whole at part = elim (Bool-cases (tp == endp)) [
  | inl full ↦
      let all : tmp ≡ b = sym (take-all tp tmp (ground arith)) ∙ part in ground (arith, all, full)
  | inr short ↦ ground arith
]

to_dst-exact : (r : Exit) (o : Option Bytes) → Whole r o → Pton6.to_dst r ≡ done (Walk.exact o)
to_dst-exact fault o h = elim h [ ]
to_dst-exact (done none) none h = refl
to_dst-exact (done none) (some b) h = elim h [ ]
to_dst-exact (done (some st)) none h = elim h [ ]
to_dst-exact (done (some st)) (some b) h = full_buffer st.tmp b st.tp h.0 h.1 h.3

after_word-Walk :
    (r : Exit) (o : Option View) → LoopEnds r o → Pton6.after_word r ≡ done (Walk.after_word o)
after_word-Walk fault o h = elim h [ ]
after_word-Walk (done none) none h = refl
after_word-Walk (done none) (some v) h = elim h [ ]
after_word-Walk (done (some st)) none h = elim h [ ]
after_word-Walk (done (some st)) (some v) h =
    to_dst-exact (Pton6.expand st) (Walk.expand v) (expand-Whole st v h)

after_loop-Walk :
    (r : Exit) (o : Option View) → LoopEnds r o → Pton6.after_loop r ≡ done (Walk.after_loop o)
after_loop-Walk fault o h = elim h [ ]
after_loop-Walk (done none) none h = refl
after_loop-Walk (done none) (some v) h = elim h [ ]
after_loop-Walk (done (some st)) none h = elim h [ ]
after_loop-Walk (done (some st)) (some v) h =
    after_word-Walk (Pton6.last_word st) (Walk.last_word v) (last_word-Ends st v h)

abbrev from_start : Bytes → State
from_start text = record {
  tmp = replicate endp 0;
  tp = 0;
  colonp = none;
  curtok = text;
  xdigits_seen = 0;
  val = 0;
}

starts : (text : Bytes) → Agrees (from_start text) (Walk.start text)
starts text = ground arith

-- Given a local buffer of four bytes for `inet_pton4`, `inet_pton6` makes no access outside of a
-- buffer on any text, and returns what `read_address` returns, which reads the text without a
-- buffer or pointers and collects the bytes in a list.
pub inet_pton6-read_address :
    (src junk : Bytes) → length junk ≡ 4 → inet_pton6 src junk ≡ done (Walk.read_address src)
unfolding inet_pton6 Walk.read_address
inet_pton6-read_address src junk local = elim (Option-cases (Pton6.skip_colon src)) [
  | inl e ↦ rw (e, inet_pton6, Walk.read_address)
  | inr (text, e) ↦
      rw (e, inet_pton6, Walk.read_address)
        (after_loop-Walk _ (Walk.walk text (Walk.start text))
          (loop-Ends junk text (from_start text) (Walk.start text) local (starts text)))
]
