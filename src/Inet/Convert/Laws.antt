-- ===== src/Inet/Convert/Laws.antt =====
-- `inet_pton` stores an address or leaves `dst` alone, and reads what `inet_ntop` writes.
use mongo_sgx_client.Base.{
  ℕ, ◌≤◌, ◌≡◌, ◌≢◌, refl, sym, ◌∙◌, ap, Bytes, ◌∷◌, ◌++◌, Option, none, some, arith, ◌==◌,
  if◌then◌else◌, Run, done, fault, ◌>>=◌, length, drop, take-append, inl, inr, subst, Bool-cases,
}
use mongo_sgx_client.Libc.Laws.{write_fits, strlen_text, IsText}
use mongo_sgx_client.Inet.Pton4.Walk as Walk4
use mongo_sgx_client.Inet.Pton4.Accepts.{inet_pton4_exact}
use mongo_sgx_client.Inet.Pton6.{endp, skip_colon}
use mongo_sgx_client.Inet.Pton6.Walk.{
  View, read_address, exact, after_loop, after_word, walk, start, expand, last_word,
}
use mongo_sgx_client.Inet.Pton6.Refines.{inet_pton6-read_address}
use mongo_sgx_client.Inet.Convert.{
  Answer, valid, invalid, unsupported, af_inet, af_inet6, copied, inet_pton, text_at,
}

-- The size of an address of the family.
abbrev pub address_size : ℕ → ℕ
address_size af = if af == af_inet then 4 else 16

-- What a call may leave behind.
abbrev pub Answers : ℕ → Bytes → Run (Answer × Bytes) → Type 0
Answers af dst fault = ⊥
Answers af dst (done (valid, m)) =
    (bytes : Bytes) × (length bytes ≡ address_size af) × (m ≡ bytes ++ drop (address_size af) dst)
Answers af dst (done (invalid, m)) = m ≡ dst
Answers af dst (done (unsupported, m)) = (m ≡ dst) × (af ≢ af_inet) × (af ≢ af_inet6)

exact_size : (o : Option Bytes) (b : Bytes) → exact o ≡ some b → length b ≡ endp
exact_size none b e = cc
exact_size (some c) b e = ground arith

after_word_size : (o : Option View) (b : Bytes) → after_word o ≡ some b → length b ≡ endp
after_word_size none b e = cc
after_word_size (some v) b e = exact_size (expand v) b e

after_loop_size : (o : Option View) (b : Bytes) → after_loop o ≡ some b → length b ≡ endp
after_loop_size none b e = cc
after_loop_size (some v) b e = after_word_size (last_word v) b e

read_text_size :
    (o : Option Bytes) (b : Bytes)
    → elim o [ none ↦ none | some text ↦ after_loop (walk text (start text)) ] ≡ some b
    → length b ≡ endp
read_text_size none b e = cc
read_text_size (some text) b e = after_loop_size (walk text (start text)) b e

read_address_size : (src b : Bytes) → read_address src ≡ some b → length b ≡ endp
unfolding read_address
read_address_size src b e = read_text_size (skip_colon src) b e

copied-Answers :
    (af : ℕ) (dst : Bytes) (o : Option Bytes)
    → address_size af ≤ length dst
    → ((b : Bytes) → o ≡ some b → length b ≡ address_size af)
    → Answers af dst (copied dst (done o))
copied-Answers af dst none room h = refl
copied-Answers af dst (some b) room h =
    let size = h b refl in
    let fits = write_fits dst b 0 (omega arith) in
    subst (λ r. Answers af dst (r >>= λ m. done (valid, m))) (sym fits)
      (b, size, ap (λ n. b ++ drop n dst) (omega arith))

pub text_at-IsText : (t rest : Bytes) → IsText t → text_at (t ++ 0 ∷ rest) ≡ done t
unfolding text_at
text_at-IsText t rest h = rw (strlen_text t rest h) (ap done (take-append t (0 ∷ rest)))

-- For a text that ends with a NUL, a local buffer of four bytes, and room at `dst` for an address
-- of the family, `inet_pton` makes no access outside of a buffer. When it answers that the text
-- is valid, it has stored as many bytes as an address of the family has and left the rest of
-- `dst` alone; otherwise `dst` is as before, and the family is called unsupported only if it is
-- neither of the two.
pub inet_pton-Answers :
    (af : ℕ) (t rest dst junk : Bytes)
    → IsText t
    → length junk ≡ 4
    → address_size af ≤ length dst
    → Answers af dst (inet_pton af (t ++ 0 ∷ rest) dst junk)
unfolding inet_pton
inet_pton-Answers af t rest dst junk text local room = elim (Bool-cases (af == af_inet)) [
  | inl four ↦
      let size : address_size af ≡ 4 = rw four in
      rw (four, text_at-IsText t rest text, Walk4.inet_pton4-walk t junk local)
        (copied-Answers af dst (Walk4.walk t Walk4.start) room (λ b e.
          ((inet_pton4_exact t junk b local).0 (Walk4.inet_pton4-walk t junk local ∙ ap done e)).1.0
          ∙ sym size))
  | inr not_four ↦
      let size : address_size af ≡ endp = rw not_four in
      elim (Bool-cases (af == af_inet6)) [
        | inl six ↦
            rw (not_four, six, text_at-IsText t rest text, inet_pton6-read_address t junk local)
              (copied-Answers af dst (read_address t) room
                (λ b e. read_address_size t b e ∙ sym size))
        | inr other ↦ rw (not_four, other) (refl, ground (arith, not_four), ground (arith, other))
      ]
]
