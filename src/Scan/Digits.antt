-- ===== src/Scan/Digits.antt =====
-- The digits that %d reads.
use mongo_sgx_client.Base.{
  ℕ, zero, suc, ◌+◌, ◌-◌, ◌*◌, ◌/◌, ◌%◌, ◌≤◌, ◌<◌, ◌≡◌, refl, sym, ◌∙◌, ap, true, false, Bytes, [],
  ◌∷◌, ◌++◌, All, ltb, done, arith, All-append, Bool-cases, inl, inr, ltb→ge, subst,
}
use mongo_sgx_client.Base.Integers.{ℤ, pos, negsuc, difference, times, minus}
use mongo_sgx_client.Inet.Digits.{digits, digit, format, format_small, format_large}
use mongo_sgx_client.Scan.{isdigit, read_digits}

abbrev pub AreDigits : Bytes → Type 0
AreDigits = All (λ c. isdigit c ≡ true)

-- The number that digits stand for, behind a number that has been read.
abbrev value_behind : Bytes → ℕ → ℕ
value_behind [] n = n
value_behind (c ∷ t) n = value_behind t (n * 10 + (c - b'0'))

value_behind-snoc :
    (t : Bytes) (c n : ℕ) → value_behind (t ++ c ∷ []) n ≡ value_behind t n * 10 + (c - b'0')
value_behind-snoc [] c n = refl
value_behind-snoc (x ∷ t) c n = value_behind-snoc t c (n * 10 + (x - b'0'))

le_value_behind : (t : Bytes) (n : ℕ) → n ≤ value_behind t n
le_value_behind [] n = omega arith
le_value_behind (c ∷ t) n = omega (arith, le_value_behind t (n * 10 + (c - b'0')))

digit-AreDigits : (d : ℕ) → d < 10 → AreDigits (digit d ∷ [])
digit-AreDigits d h = ground arith

digit_value : (d : ℕ) → d < 10 → digit d - b'0' ≡ d
digit_value d h = ground arith

digits-AreDigits : (f n : ℕ) → AreDigits (digits 10 f n)
unfolding digits
digits-AreDigits zero n = tt
digits-AreDigits (suc f) n = elim (Bool-cases (ltb n 10)) [
  | inl one ↦ ground (arith, one)
  | inr more ↦ rw more (
      All-append (λ c. isdigit c ≡ true) (digits 10 f (n / 10)) (digit (n % 10) ∷ [])
        (digits-AreDigits f (n / 10)) (digit-AreDigits (n % 10) (omega arith)))
]

digits_value : (f n : ℕ) → n < f → value_behind (digits 10 f n) 0 ≡ n
unfolding digits
digits_value zero n h = absurd (omega arith)
digits_value (suc f) n h = elim (Bool-cases (ltb n 10)) [
  | inl one ↦ rw one (omega arith)
  | inr more ↦ rw more (
      value_behind-snoc (digits 10 f (n / 10)) (digit (n % 10)) 0
      ∙ omega (
        arith,
        digit_value (n % 10) (omega arith),
        digits_value f (n / 10) (omega (arith, ltb→ge n 10 more)),
      ))
]

-- The C code counts downwards, since an int reaches further there.
abbrev pub down : ℕ → ℤ
down n = difference 0 n

abbrev pub most : ℕ
most = 2147483648

times-down : (n : ℕ) → n * 10 ≤ most → times (down n) 10 ≡ done (down (n * 10))
times-down n h = ground arith

minus-down : (n d : ℕ) → n + d ≤ most → minus (down n) d ≡ done (down (n + d))
minus-down n d h = ground arith

-- One round of the loop, with `d` behind the digit.
pub read_digits-step :
    (c d : ℕ) (r : Bytes) (n : ℕ)
    → n * 10 + (c - b'0') ≤ most
    → let v = down (n * 10 + (c - b'0')) in
      read_digits (c ∷ d ∷ r) (down n)
      ≡ elim (isdigit d) [ true ↦ read_digits (d ∷ r) v | false ↦ done (v, d ∷ r) ]
unfolding read_digits
read_digits-step c d r n h =
    rw (read_digits, times-down n (omega arith), minus-down (n * 10) (c - b'0') h) refl

read_digits-down :
    (c : ℕ) (t r : Bytes) (n stop : ℕ)
    → AreDigits (c ∷ t)
    → isdigit stop ≡ false
    → value_behind (c ∷ t) n ≤ most
    → read_digits (c ∷ (t ++ stop ∷ r)) (down n) ≡ done (down (value_behind (c ∷ t) n), stop ∷ r)
read_digits-down c [] r n stop h k l = rw (read_digits-step c stop r n l, k) refl
read_digits-down c (d ∷ t) r n stop h k l =
    let v = n * 10 + (c - b'0') in
    let small : v ≤ most = omega (arith, le_value_behind (d ∷ t) v) in
    rw (read_digits-step c d (t ++ stop ∷ r) n small, h.1.0) (read_digits-down d t r v stop h.1 k l)

-- A number as %d prints it.
abbrev pub show_int : ℤ → Bytes
show_int (pos n) = format 10 n
show_int (negsuc n) = b'-' ∷ format 10 (suc n)

shape : (n : ℕ) → (c : ℕ) × (t : Bytes) × (format 10 n ≡ c ∷ t)
shape n = elim (Bool-cases (ltb n 10)) [
  | inl one ↦ (digit n, [], format_small 10 n (ground (arith, one)))
  | inr more ↦
      snoc (format 10 (n / 10)) (digit (n % 10))
        (format_large 10 n (omega arith) (ltb→ge n 10 more))
]
  where
    snoc :
        (x : Bytes) (d : ℕ)
        → format 10 n ≡ x ++ d ∷ []
        → (c : ℕ) × (t : Bytes) × (format 10 n ≡ c ∷ t)
    snoc [] d e = (d, [], e)
    snoc (c ∷ x) d e = (c, x ++ d ∷ [], e)

format-AreDigits : (n : ℕ) → AreDigits (format 10 n)
unfolding format
format-AreDigits n = digits-AreDigits (suc n) n

format_value : (n : ℕ) → value_behind (format 10 n) 0 ≡ n
unfolding format
format_value n = digits_value (suc n) n (omega arith)

-- The digits of a number in front of something that is no digit.
pub read_format :
    (n : ℕ) (r : Bytes) (stop : ℕ)
    → n ≤ most
    → isdigit stop ≡ false
    → (c : ℕ) × (t : Bytes) × (format 10 n ++ stop ∷ r ≡ c ∷ t)
      × (isdigit c ≡ true)
      × (read_digits (c ∷ t) (pos 0) ≡ done (down n, stop ∷ r))
read_format n r stop h k =
    let (c, t, e) = shape n in
    let ds : AreDigits (c ∷ t) = subst AreDigits e (format-AreDigits n) in
    let v : value_behind (c ∷ t) 0 ≡ n = ap (λ x. value_behind x 0) (sym e) ∙ format_value n in
    (
      c,
      t ++ stop ∷ r,
      ap (λ x. x ++ stop ∷ r) e,
      ds.0,
      read_digits-down c t r 0 stop ds k (omega (arith, v)) ∙ ap (λ x. done (down x, stop ∷ r)) v,
    )
