-- ===== src/Inet/Pton6/Rounds.antt =====
-- The rounds of the loop of `inet_pton6` beside those of the walk: the buffer holds what the walk has
-- collected, and no access leaves it.
use Prim.Native.Nat.{bit_or}
use mongo_sgx_client.Base.{
  ℕ, ◌+◌, ◌*◌, ◌/◌, ◌%◌, ◌^◌, ◌<◌, ◌≤◌, ◌≡◌, ◌≢◌, refl, ◌∙◌, ap, Bytes, [], ◌∷◌, ◌++◌, Option, none,
  some, arith, ltb, leb, length, take, drop, done, fault, Round, next, leave, set, length-set,
  length-append, take_two_writes, take-append, Option-cases, Bool-cases, inl, inr, lt→ltb, ltb→ge,
  ap₂, length-take, length-drop,
}
use mongo_sgx_client.Base.Bits.{or_nibble}
use mongo_sgx_client.Libc.{write}
use mongo_sgx_client.Libc.Laws.{write_fits}
use mongo_sgx_client.Inet.Digits.{hex_digit_value}
use mongo_sgx_client.Inet.Pton4.Walk as Quad
use mongo_sgx_client.Inet.Pton4.Accepts.{inet_pton4_exact}
use mongo_sgx_client.Inet.Pton6
use mongo_sgx_client.Inet.Pton6.{
  State, Exit, endp, on_digit, put_word, on_colon, on_dot, inet_pton6,
}
use mongo_sgx_client.Inet.Pton6.Walk
use mongo_sgx_client.Inet.Pton6.Walk.{View, Move, go, refuse, stop}
use mongo_sgx_client.Inet.Pton6.Agree.{
  bound, bound-le, bound-add, GapIn-mono, Ends, Agrees, Follows,
}

hex_digit_small : (ch d : ℕ) → hex_digit_value ch ≡ some d → d < 16
unfolding hex_digit_value
hex_digit_small ch d h = ground arith

-- The shift loses no bit, so that the | is an addition.
shifted :
    (d : ℕ) (st : State) (v : View)
    → d < 16
    → v.seen ≢ 4
    → Agrees st v
    → (bit_or (st.val * 16 % 2 ^ 32) d ≡ v.val * 16 + d)
      × (v.val * 16 + d < bound (v.seen + 1))
      × (v.val * 16 + d ≤ 0xffff)
shifted d st v h k a =
    let low : v.val < 4096 = omega (arith, bound-le v.seen (omega (arith, a.few)), a.small) in
    let kept : st.val * 16 % 2 ^ 32 ≡ v.val * 16 = omega (arith, a.same_val) in
    (
      ap (λ n. bit_or n d) kept ∙ or_nibble v.val d low h,
      omega (arith, bound-add v.seen, a.small),
      omega arith,
    )

on_digit-Follows :
    (d : ℕ) (st : State) (v : View)
    → d < 16
    → Agrees st v
    → Follows (on_digit d st) (Walk.advance_digit d v)
unfolding on_digit
on_digit-Follows d st v h a = ground (arith, a, shifted d st v h)

pub put_word_lem :
    (st : State) (v : View)
    → Ends st v
    → st.tp + 2 ≤ endp
    → (s : State) × (put_word st ≡ done s)
      × Ends s (record v { out = v.out ++ Walk.word_bytes v.val })
unfolding put_word
put_word_lem st v a h =
    let hi = st.val / 256 % 256 in
    let lo = st.val % 256 in
    let m = set (set st.tmp st.tp hi) (st.tp + 1) lo in
    let one : length (set st.tmp st.tp hi) ≡ endp = length-set st.tmp st.tp hi ∙ a.whole in
    let longer : length (v.out ++ Walk.word_bytes v.val) ≡ length v.out + 2 =
      length-append {0} v.out (Walk.word_bytes v.val) in
    (
      record st { tmp = m; tp = st.tp + 2 },
      rw (
        lt→ltb st.tp (length st.tmp) (omega (arith, a.whole)),
        lt→ltb (st.tp + 1) (length (set st.tmp st.tp hi)) (omega arith),
      ),
      record {
        holds = record {
          whole = length-set _ _ _ ∙ one;
          at = omega (arith, a.at);
          inside = h;
          part =
              take_two_writes st.tmp st.tp hi lo (omega (arith, a.whole))
              ∙ ap₂ (λ t w. t ++ Walk.word_bytes w) a.part a.same_val;
          same_gap = a.same_gap;
          gap_inside = GapIn-mono v.gap (length v.out) _ (omega arith) a.gap_inside;
        };
        same_seen = a.same_seen;
        same_val = a.same_val;
      },
    )

on_colon-Follows :
    (rest : Bytes) (st : State) (v : View)
    → Agrees st v
    → Follows (on_colon rest st) (Walk.advance_colon rest v)
unfolding on_colon
on_colon-Follows rest st v a = elim (Bool-cases (ltb endp (st.tp + 2))) [
  | inl full ↦ ground (arith, a)
  | inr room ↦
      let (s, e, h) = put_word_lem st v a.ends (ltb→ge endp (st.tp + 2) room) in
      ground (arith, a, e, h)
]

-- The address that memcpy stores at `tp`.
put_quad_lem :
    (st : State) (v : View) (quad : Bytes)
    → Ends st v
    → st.tp + 4 ≤ endp
    → length quad ≡ 4
    → (m : Bytes) × (write st.tmp st.tp quad ≡ done m)
      × Ends
          (record st { tmp = m; tp = st.tp + 4; xdigits_seen = 0 })
          (record v { out = v.out ++ quad; seen = 0 })
put_quad_lem st v quad a h four =
    let rest = drop (st.tp + length quad) st.tmp in
    let cells = length-take st.tp st.tmp in
    (
      take st.tp st.tmp ++ quad ++ rest,
      write_fits st.tmp quad st.tp (omega (arith, a.whole)),
      record {
        holds = record {
          whole = omega (
            arith,
            a.whole,
            cells,
            length-append {0} (take st.tp st.tmp ++ quad) rest,
            length-append {0} (take st.tp st.tmp) quad,
            length-drop (st.tp + length quad) st.tmp,
          );
          at = omega (arith, a.at, length-append {0} v.out quad);
          inside = h;
          part =
              ap (λ n. take n (take st.tp st.tmp ++ quad ++ rest))
                (length_both (omega (arith, a.whole, cells)))
              ∙ take-append (take st.tp st.tmp ++ quad) rest
              ∙ ap (λ t. t ++ quad) a.part;
          same_gap = a.same_gap;
          gap_inside =
              GapIn-mono v.gap (length v.out) _ (omega (arith, length-append {0} v.out quad))
                a.gap_inside;
        };
        same_seen = refl;
        same_val = a.same_val;
      },
    )
  where
    length_both :
        length (take st.tp st.tmp) ≡ st.tp → st.tp + 4 ≡ length (take st.tp st.tmp ++ quad)
    length_both e = omega (arith, length-append {0} (take st.tp st.tmp) quad)

on_dot-Follows :
    (junk : Bytes) (st : State) (v : View)
    → length junk ≡ 4
    → Agrees st v
    → Follows (on_dot junk st) (Walk.advance_dot v)
unfolding on_dot
on_dot-Follows junk st v local a = elim (Bool-cases (leb (st.tp + 4) endp)) [
  | inl room ↦ elim (Option-cases (Quad.walk v.token Quad.start)) [
    | inl bad ↦ ground (arith, a, bad, Quad.inet_pton4-walk st.curtok junk local)
    | inr (quad, e) ↦
        let run =
          Quad.inet_pton4-walk st.curtok junk local
          ∙ ap (λ t. done (Quad.walk t Quad.start)) a.same_token
          ∙ ap done e in
        let (m, w, h) =
          put_quad_lem st v quad a.ends (ground arith)
            ((inet_pton4_exact st.curtok junk quad local).0 run).1.0 in
        ground (arith, a, e, run, w, h)
  ]
  | inr full ↦ ground (arith, a)
]

step-Follows :
    (junk : Bytes) (ch : ℕ) (rest : Bytes) (st : State) (v : View)
    → length junk ≡ 4
    → Agrees st v
    → Follows (Pton6.step junk ch rest st) (Walk.advance ch rest v)
unfolding Pton6.step Walk.advance
step-Follows junk ch rest st v local a = elim (Option-cases (hex_digit_value ch)) [
  | inl e ↦ ground (arith, e, on_colon-Follows rest st v a, on_dot-Follows junk st v local a)
  | inr (d, e) ↦ ground (arith, e, on_digit-Follows d st v (hex_digit_small ch d e) a)
]

-- What the loop may end with when the walk ends with the second.
abbrev pub LoopEnds : Exit → Option View → Type 0
LoopEnds (done none) none = Unit
LoopEnds (done (some st)) (some v) = Ends st v
LoopEnds _ _ = ⊥

follow :
    (junk src : Bytes) (r : Round State Exit) (m : Move)
    → Follows r m
    → ((st : State) (v : View) → Agrees st v → LoopEnds (Pton6.loop junk src st) (Walk.walk src v))
    → LoopEnds
        (elim r [ next st ↦ Pton6.loop junk src st | leave e ↦ e ])
        (elim m [ go u ↦ Walk.walk src u | refuse ↦ none | stop u ↦ some u ])
follow junk src (next st) (go v) h k = k st v h
follow junk src (next st) refuse h k = elim h [ ]
follow junk src (next st) (stop v) h k = elim h [ ]
follow junk src (leave (done none)) (go v) h k = elim h [ ]
follow junk src (leave (done none)) refuse h k = tt
follow junk src (leave (done none)) (stop v) h k = elim h [ ]
follow junk src (leave (done (some st))) (go v) h k = elim h [ ]
follow junk src (leave (done (some st))) refuse h k = elim h [ ]
follow junk src (leave (done (some st))) (stop v) h k = h
follow junk src (leave fault) m h k = elim h [ ]

pub loop-Ends :
    (junk src : Bytes) (st : State) (v : View)
    → length junk ≡ 4
    → Agrees st v
    → LoopEnds (Pton6.loop junk src st) (Walk.walk src v)
unfolding Pton6.loop Walk.walk
loop-Ends junk [] st v local a = a.ends
loop-Ends junk (ch ∷ src) st v local a =
    follow junk src (Pton6.step junk ch src st) (Walk.advance ch src v)
      (step-Follows junk ch src st v local a) (λ s u. loop-Ends junk src s u local)
