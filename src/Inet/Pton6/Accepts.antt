-- ===== src/Inet/Pton6/Accepts.antt =====
-- What `inet_pton6` reads from the texts of addresses.
use mongo_sgx_client.Base.{
  ℕ, ◌+◌, ◌*◌, ◌/◌, ◌%◌, ◌<◌, ◌≤◌, ◌≡◌, ◌≢◌, ◌∙◌, ap, Bytes, [], ◌∷◌, ◌++◌, append_assoc, List,
  Option, none, some, arith, ltb, length, length-append, Bool-cases, inl, inr, ltb→ge,
}
use mongo_sgx_client.Inet.Digits.{hex_digit_value, digit, format, format_small, format_large}
use mongo_sgx_client.Inet.Pton4.Texts.{joined, IsAddress}
use mongo_sgx_client.Inet.Pton4.Accepts.{walk-joined-start}
use mongo_sgx_client.Inet.Pton6.{endp}
use mongo_sgx_client.Inet.Pton6.Walk.{
  View, go, refuse, stop, advance, walk, read_address, after_loop,
}
use mongo_sgx_client.Inet.Pton6.Groups.{
  colons, words_bytes, AreWords, view, walk-colons, ending, append-ne-nil, walk-go, read_digit,
  length-words_bytes,
}
use mongo_sgx_client.Inet.Pton6.Gaps.{with_gap, read_with_gap, filled, ending-filled}

-- The decimal digits of a byte are read as hexadecimal ones, until the dot.
walk-digit :
    (d : ℕ) (rest out : Bytes) (gap : Option ℕ) (token : Bytes) (seen val : ℕ)
    → d < 16
    → seen ≤ 3
    → val < 4096
    → walk (digit d ∷ rest) (view out gap token seen val)
      ≡ walk rest (view out gap token (seen + 1) (val * 16 + d))
walk-digit d rest out gap token seen val h k l =
    walk-go (digit d) rest (view out gap token seen val)
      (read_digit d rest out gap token seen val h k l)

-- Where the digits of a token that is read end.
abbrev Reads : Bytes → Bytes → Bytes → Option ℕ → Bytes → Type 0
Reads t rest out gap token =
    (seen : ℕ) × (val : ℕ) × (walk (t ++ rest) (view out gap token 0 0)
      ≡ walk rest (view out gap token seen val))

Reads-one :
    (a : ℕ) (rest out : Bytes) (gap : Option ℕ) (token : Bytes)
    → a < 16
    → Reads (digit a ∷ []) rest out gap token
Reads-one a rest out gap token h =
    (0 + 1, 0 * 16 + a, walk-digit a rest out gap token 0 0 h (omega arith) (omega arith))

Reads-two :
    (a b : ℕ) (rest out : Bytes) (gap : Option ℕ) (token : Bytes)
    → a < 16
    → b < 16
    → Reads (digit a ∷ digit b ∷ []) rest out gap token
Reads-two a b rest out gap token h k =
    let (s, v, e) = Reads-one a (digit b ∷ rest) out gap token h in
    (
      0 + 1 + 1,
      (0 * 16 + a) * 16 + b,
      walk-digit a (digit b ∷ rest) out gap token 0 0 h (omega arith) (omega arith)
          ∙ walk-digit b rest out gap token (0 + 1) (0 * 16 + a) k (omega arith) (omega arith),
    )

Reads-three :
    (a b c : ℕ) (rest out : Bytes) (gap : Option ℕ) (token : Bytes)
    → a < 16
    → b < 16
    → c < 16
    → Reads (digit a ∷ digit b ∷ digit c ∷ []) rest out gap token
Reads-three a b c rest out gap token h k l = (
  0 + 1 + 1 + 1,
  ((0 * 16 + a) * 16 + b) * 16 + c,
  walk-digit a (digit b ∷ digit c ∷ rest) out gap token 0 0 h (omega arith) (omega arith)
      ∙ walk-digit b (digit c ∷ rest) out gap token (0 + 1) (0 * 16 + a) k (omega arith)
          (omega arith)
      ∙ walk-digit c rest out gap token (0 + 1 + 1) ((0 * 16 + a) * 16 + b) l (omega arith)
          (omega arith),
)

walk-decimal :
    (a : ℕ) (rest out : Bytes) (gap : Option ℕ) (token : Bytes)
    → a < 256
    → Reads (format 10 a) rest out gap token
walk-decimal a rest out gap token h = elim (Bool-cases (ltb a 10)) [
  | inl one ↦ rw (format_small 10 a (ground arith)) (Reads-one a rest out gap token (ground arith))
  | inr more ↦
      rw (format_large 10 a (omega arith) (ltb→ge a 10 more)) (elim (Bool-cases (ltb (a / 10) 10)) [
        | inl two ↦
            rw (format_small 10 (a / 10) (ground arith))
              (Reads-two (a / 10) (a % 10) rest out gap token (ground arith) (omega arith))
        | inr three ↦
            rw
              (
                format_large 10 (a / 10) (omega arith) (ltb→ge (a / 10) 10 three),
                format_small 10 (a / 10 / 10) (omega arith),
              )
              (Reads-three (a / 10 / 10) (a / 10 % 10) (a % 10) rest out gap token (omega arith)
                (omega arith) (omega arith))
      ])
]

read_dot :
    (rest out quad : Bytes) (gap : Option ℕ) (seen val : ℕ)
    → IsAddress quad
    → length out + 4 ≤ endp
    → advance b'.' rest (view out gap (joined quad) seen val)
      ≡ stop (view (out ++ quad) gap (joined quad) 0 val)
unfolding advance hex_digit_value
read_dot rest out quad gap seen val h k = ground (arith, walk-joined-start quad h)

walk-stop :
    (ch : ℕ) (rest : Bytes) (v : View) {u : View}
    → advance ch rest v ≡ stop u
    → walk (ch ∷ rest) v ≡ some u
unfolding walk
walk-stop ch rest v {u} h =
    ap (λ m. elim m [ go x ↦ walk rest x | refuse ↦ none | stop x ↦ some x ]) h

joined-ne-nil : (quad : Bytes) → IsAddress quad → joined quad ≢ []
joined-ne-nil [] h = λ e. omega (arith, h.0)
joined-ne-nil (a ∷ []) h = λ e. omega (arith, h.0)
joined-ne-nil (a ∷ b ∷ r) h = append-ne-nil (format 10 a) (b'.' ∷ joined (b ∷ r)) (cc)

walk-quad :
    (out quad : Bytes) (gap : Option ℕ)
    → IsAddress quad
    → length out + 4 ≤ endp
    → after_loop (walk (joined quad) (view out gap (joined quad) 0 0)) ≡ ending gap (out ++ quad)
walk-quad out (a ∷ b ∷ r) gap h k =
    let token = joined (a ∷ b ∷ r) in
    let rest = joined (b ∷ r) in
    let (seen, val, e) = walk-decimal a (b'.' ∷ rest) out gap token h.1.0 in
    ap after_loop
      (e ∙ walk-stop b'.' rest (view out gap token seen val) (read_dot rest out _ gap seen val h k))
walk-quad out [] gap h k = absurd (omega (arith, h.0))
walk-quad out (a ∷ []) gap h k = absurd (omega (arith, h.0))

-- So are those in front of an IPv4 address that the text ends with.
pub read_embedded :
    (hs ts : List ℕ) (quad : Bytes)
    → AreWords hs
    → AreWords ts
    → IsAddress quad
    → length hs + length ts < 6
    → read_address (with_gap hs (colons ts ++ joined quad))
      ≡ some (filled (words_bytes hs) (words_bytes ts ++ quad))
read_embedded hs ts quad h k q l =
    let front = words_bytes hs in
    let back = words_bytes ts in
    let gap : Option ℕ = some (length front) in
    read_with_gap hs (colons ts ++ joined quad) h (omega arith)
    ∙ ap after_loop (
        walk-colons ts (joined quad) front gap k (joined-ne-nil quad q)
          (omega (arith, length-words_bytes hs)))
    ∙ walk-quad (front ++ back) quad gap q
        (omega (arith, length-append {0} front back, length-words_bytes hs, length-words_bytes ts))
    ∙ ap (ending gap) (append_assoc front back quad)
    ∙ ending-filled front (back ++ quad) (
        omega (
          arith,
          length-append {0} front (back ++ quad),
          length-append {0} back quad,
          length-words_bytes hs,
          length-words_bytes ts,
          q.0,
        ))
