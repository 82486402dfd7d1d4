-- ===== src/Inet/Pton4/Texts.antt =====
-- The texts of four bytes in decimal, and what a round of the walk reads of one.
use mongo_sgx_client.Base.{
  ℕ, ◌+◌, ◌-◌, ◌<◌, ◌≤◌, ◌≡◌, refl, Bytes, [], ◌∷◌, ◌++◌, append-nil, append_assoc, Option, none,
  some, arith, length, All, length-append, Option-cases, inl, inr,
}
use mongo_sgx_client.Inet.Digits.{format, format_small, format_extend_ten}
use mongo_sgx_client.Inet.Pton4.Walk.{View, value_of, extend, advance, finish}

-- Numbers in decimal, with dots between them.
abbrev pub joined : Bytes → Bytes
joined [] = []
joined (a ∷ []) = format 10 a
joined (a ∷ b ∷ r) = format 10 a ++ b'.' ∷ joined (b ∷ r)

-- Numbers in decimal, with a dot behind each.
abbrev pub dotted : Bytes → Bytes
dotted [] = []
dotted (a ∷ r) = format 10 a ++ b'.' ∷ dotted r

abbrev pub AreBytes : Bytes → Type 0
AreBytes = All (λ b. b < 256)

-- Four bytes.
abbrev pub IsAddress : Bytes → Type 0
IsAddress r = (length r ≡ 4) × AreBytes r

-- The text that has been read.
abbrev pub current_text : Option ℕ → Bytes
current_text none = []
current_text (some v) = format 10 v

abbrev pub text_of : View → Bytes
text_of w = dotted w.complete ++ current_text w.current

pub record IsValid (w : View) : Type 0 where
  pub room : length w.complete < 4
  pub bytes : AreBytes w.complete
  pub byte : value_of w.current < 256

All-snoc : (c : Bytes) (v : ℕ) → AreBytes c → v < 256 → AreBytes (c ++ v ∷ [])
All-snoc [] v h k = (k, tt)
All-snoc (x ∷ c) v h k = (h.0, All-snoc c v h.1 k)

dotted-snoc : (c : Bytes) (v : ℕ) → dotted (c ++ v ∷ []) ≡ dotted c ++ (format 10 v ++ b'.' ∷ [])
dotted-snoc [] v = refl
dotted-snoc (x ∷ c) v = simp (dotted-snoc c v, append_assoc)

joined-snoc : (c : Bytes) (v : ℕ) → joined (c ++ v ∷ []) ≡ dotted c ++ format 10 v
joined-snoc [] v = refl
joined-snoc (x ∷ []) v = simp append_assoc
joined-snoc (x ∷ y ∷ c) v = simp (joined-snoc (y ∷ c) v, append_assoc)

digit_char : (ch : ℕ) → b'0' ≤ ch → b'0' + (ch - b'0') ≡ ch
digit_char ch h = omega arith

-- What one round does to a valid view.
abbrev pub Grows : ℕ → View → Option View → Type 0
Grows ch w none = Unit
Grows ch w (some w') = (text_of w' ≡ text_of w ++ ch ∷ []) × IsValid w'

pub first_digit : (d : ℕ) → d ≤ 9 → format 10 d ≡ (b'0' + d) ∷ []
first_digit d h = ground (arith, format_small 10 d)

extend-Grows :
    (ch : ℕ) (w : View) → IsValid w → b'0' ≤ ch → ch ≤ b'9' → Grows ch w (extend (ch - b'0') w)
extend-Grows ch w v lo hi = elim (Option-cases w.current) [
  | inl e ↦ ground (arith, e, first_digit (ch - b'0'), append-nil (dotted w.complete))
  | inr (n, e) ↦ ground (
    arith,
    e,
    format_extend_ten n (ch - b'0'),
    append_assoc (dotted w.complete) (format 10 n) (ch ∷ []),
  )
]

pub advance-Grows : (ch : ℕ) (w : View) → IsValid w → Grows ch w (advance ch w)
advance-Grows ch w v = elim (Option-cases w.current) [
  | inl e ↦ ground (arith, e, extend-Grows ch w v)
  | inr (n, e) ↦ ground (
    arith,
    e,
    extend-Grows ch w v,
    dotted-snoc w.complete n,
    append-nil (dotted (w.complete ++ n ∷ [])),
    append_assoc (dotted w.complete) (format 10 n) (ch ∷ []),
    All-snoc w.complete n v.bytes,
    length-append {0} w.complete (n ∷ []),
  )
]

pub finish-joined :
    (w : View) {r : Bytes} → IsValid w → finish w ≡ some r → (text_of w ≡ joined r) × IsAddress r
finish-joined w {r} v h = elim (Option-cases w.current) [
  | inl e ↦ ground (arith, e)
  | inr (n, e) ↦ ground (
    arith,
    e,
    joined-snoc w.complete n,
    All-snoc w.complete n v.bytes,
    length-append {0} w.complete (n ∷ []),
  )
]
