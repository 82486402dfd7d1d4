-- ===== src/Inet/Pton4/Accepts.antt =====
-- What `inet_pton4` accepts: exactly the texts of four bytes in decimal, with dots between them.
use mongo_sgx_client.Base.{
  ℕ, zero, suc, ◌+◌, ◌*◌, ◌/◌, ◌%◌, ◌<◌, ◌≤◌, ◌≡◌, refl, sym, ◌∙◌, ap, Bytes, [], ◌∷◌, ◌++◌,
  append-nil, append_assoc, Option, none, some, arith, ltb, done, length, length-append, Bool-cases,
  inl, inr, ltb→ge, ◌↔◌, ◌≢◌, fault,
}
use mongo_sgx_client.Inet.Digits.{format, digit, format_large}
use mongo_sgx_client.Inet.Pton4.{inet_pton4}
use mongo_sgx_client.Inet.Pton4.Walk.{View, start, inet_pton4-walk, advance, walk}
use mongo_sgx_client.Inet.Pton4.Texts.{
  joined, AreBytes, IsAddress, text_of, IsValid, Grows, first_digit, advance-Grows, finish-joined,
}

-- What a valid view and the unread text come to.
abbrev Sound : Bytes → View → Bytes → Type 0
Sound src w r = (text_of w ++ src ≡ joined r) × IsAddress r

after_round :
    (ch : ℕ) (src : Bytes) (w : View) (o : Option View) (r : Bytes)
    → Grows ch w o
    → ((w' : View) → IsValid w' → walk src w' ≡ some r → Sound src w' r)
    → (elim o [ none ↦ none | some w' ↦ walk src w' ]) ≡ some r
    → Sound (ch ∷ src) w r
after_round ch src w none r g rest e = cc
after_round ch src w (some w') r g rest e =
    let (text, address) = rest w' g.1 e in
    (sym (append_assoc (text_of w) (ch ∷ []) src) ∙ ap (λ t. t ++ src) (sym g.0) ∙ text, address)

walk-Sound : (src : Bytes) (w : View) (r : Bytes) → IsValid w → walk src w ≡ some r → Sound src w r
unfolding walk
walk-Sound [] w r v h = rw append-nil (finish-joined w v h)
walk-Sound (ch ∷ src) w r v h =
    after_round ch src w (advance ch w) r (advance-Grows ch w v) (λ w'. walk-Sound src w' r) h

abbrev reading : Bytes → Option ℕ → View
reading c o = record { complete = c; current = o }

advance_first :
    (c : Bytes) (d : ℕ)
    → length c < 4
    → d < 10
    → advance (b'0' + d) (reading c none) ≡ some (reading c (some d))
advance_first c d h k = ground arith

advance_more :
    (c : Bytes) (v : ℕ)
    → 10 ≤ v
    → v < 256
    → advance (b'0' + v % 10) (reading c (some (v / 10))) ≡ some (reading c (some v))
advance_more c v h k = let split : v / 10 * 10 + v % 10 ≡ v = omega arith in ground (arith, split)

advance_dot :
    (c : Bytes) (v : ℕ)
    → length c < 3
    → advance b'.' (reading c (some v)) ≡ some (reading (c ++ v ∷ []) none)
advance_dot c v h = ground arith

walk-advance :
    (ch : ℕ) (rest : Bytes) (w : View) {w' : View}
    → advance ch w ≡ some w'
    → walk (ch ∷ rest) w ≡ walk rest w'
unfolding walk
walk-advance ch rest w {w'} h = ap (λ o. elim o [ none ↦ none | some u ↦ walk rest u ]) h

-- Reading the decimal digits of a byte.
walk-digits :
    (f v : ℕ) (c rest : Bytes)
    → v < f
    → v < 256
    → length c < 4
    → walk (format 10 v ++ rest) (reading c none) ≡ walk rest (reading c (some v))
walk-digits zero v c rest hf hv hc = absurd (omega arith)
walk-digits (suc f) v c rest hf hv hc = elim (Bool-cases (ltb v 10)) [
  | inl one ↦
      let small : v < 10 = ground arith in
      rw (first_digit v (omega arith)) (walk-advance _ rest _ (advance_first c v hc small))
  | inr more ↦
      let large : 10 ≤ v = ltb→ge v 10 more in
      let low : digit (v % 10) ≡ b'0' + v % 10 = ground arith in
      rw (format_large 10 v (omega arith) large, append_assoc, low)
        (walk-digits f (v / 10) c _ (omega arith) (omega arith) hc
          ∙ walk-advance _ rest _ (advance_more c v large hv))
]

walk-joined :
    (r c : Bytes)
    → AreBytes r
    → r ≢ []
    → length c + length r ≡ 4
    → walk (joined r) (reading c none) ≡ some (c ++ r)
walk-joined [] c h ne four = absurd (ne refl)
walk-joined (a ∷ []) c h ne four =
    sym (ap (λ t. walk t (reading c none)) (append-nil (format 10 a)))
    ∙ walk-digits (suc a) a c [] (omega arith) h.0 (omega arith)
    ∙ unfold walk in ground arith
walk-joined (a ∷ b ∷ r) c h ne four =
    walk-digits (suc a) a c _ (omega arith) h.0 (omega arith)
    ∙ walk-advance _ (joined (b ∷ r)) _ (advance_dot c a (omega arith))
    ∙ walk-joined (b ∷ r) (c ++ a ∷ []) h.1 (cc) (omega (arith, length-append {0} c (a ∷ [])))
    ∙ ap some (append_assoc c (a ∷ []) (b ∷ r))

start-IsValid : IsValid start
start-IsValid = ground arith

pub walk-joined-start : (r : Bytes) → IsAddress r → walk (joined r) start ≡ some r
walk-joined-start r a =
    walk-joined r [] a.1 (λ z. omega (arith, ap length z, a.0)) (omega (arith, a.0))

-- Given a local buffer of four bytes, `inet_pton4` accepts a text and returns the bytes `r`
-- exactly when `r` is four bytes and the text is these bytes in decimal with dots between them.
-- So there is no other accepted spelling, such as one with a leading zero.
pub inet_pton4_exact :
    (src tmp r : Bytes)
    → length tmp ≡ 4
    → (inet_pton4 src tmp ≡ done (some r)) ↔ ((src ≡ joined r) × IsAddress r)
inet_pton4_exact src tmp r h = (
  λ e. walk-Sound src start r start-IsValid (cc (e, inet_pton4-walk src tmp h)),
  λ p. inet_pton4-walk src tmp h ∙ ap done (ap (λ t. walk t start) p.0 ∙ walk-joined-start r p.1),
)

-- Given a local buffer of four bytes, `inet_pton4` never reads or writes outside of it on any
-- text, and what the buffer held before does not show in the result.
pub inet_pton4_safe :
    (src tmp tmp' : Bytes)
    → length tmp ≡ 4
    → length tmp' ≡ 4
    → (inet_pton4 src tmp ≢ fault) × (inet_pton4 src tmp ≡ inet_pton4 src tmp')
inet_pton4_safe src tmp tmp' h k = (
  λ e. cc (e, inet_pton4-walk src tmp h),
  inet_pton4-walk src tmp h ∙ sym (inet_pton4-walk src tmp' k),
)
