-- ===== src/Inet/Digits.antt =====
-- Digits: `hex_digit_value`, and how printf writes a number under %u and %x.
use mongo_sgx_client.Base.{
  ℕ, zero, suc, ◌+◌, ◌-◌, ◌/◌, ◌%◌, ◌≤◌, ◌<◌, ◌≡◌, refl, Bytes, [], ◌∷◌, ◌++◌, Option, none, some,
  arith, ltb, leb, ◌&&◌, if◌then◌else◌, codes, Bool-cases, inl, inr, ltb→ge, lt→ltb, ap, All,
  All-append, ◌≢◌, ◌*◌,
}

-- `hex_digit_value`; its -1 is `none`.
unfoldable pub hex_digit_value : ℕ → Option ℕ
hex_digit_value ch =
    if leb b'0' ch && leb ch b'9'
    then some (ch - b'0')
    else if leb b'a' ch && leb ch b'f'
    then some (ch - b'a' + 10)
    else if leb b'A' ch && leb ch b'F'
    then some (ch - b'A' + 10)
    else none

-- The character that stands for a digit below sixteen.
abbrev pub digit : ℕ → ℕ
digit d = if ltb d 10 then b'0' + d else b'a' + (d - 10)

-- The digits of `n` in base `b`, the last digit being split off first. The fuel is more than `n`.
unfoldable pub digits : ℕ → ℕ → ℕ → Bytes
digits b zero n = []
digits b (suc f) n =
    let rest = digits b f (n / b) ++ digit (n % b) ∷ [] in if ltb n b then digit n ∷ [] else rest

unfoldable pub format : ℕ → ℕ → Bytes
unfolding digits
format b n = digits b (suc n) n

div-lt : (b n : ℕ) → 1 < b → b ≤ n → n / b < n
div-lt b n h k = grind arith

digits_fuel : (b f g n : ℕ) → 1 < b → n < f → n < g → digits b f n ≡ digits b g n
unfolding digits
digits_fuel b zero g n h hf hg = absurd (omega arith)
digits_fuel b (suc f) zero n h hf hg = absurd (omega arith)
digits_fuel b (suc f) (suc g) n h hf hg = elim (Bool-cases (ltb n b)) [
  | inl small ↦ rw small
  | inr large ↦
      let low = div-lt b n h (ltb→ge n b large) in
      rw large (
        ap (λ t. t ++ digit (n % b) ∷ []) (digits_fuel b f g (n / b) h (omega arith) (omega arith)))
]

-- The number below the base is one digit,
pub format_small : (b n : ℕ) → n < b → format b n ≡ digit n ∷ []
unfolding format
format_small b n h = ground arith

-- and any other the digits of its quotient followed by its remainder.
pub format_large : (b n : ℕ) → 1 < b → b ≤ n → format b n ≡ format b (n / b) ++ digit (n % b) ∷ []
unfolding format
format_large b n h k =
    let low = div-lt b n h k in ground (arith, digits_fuel b n (suc (n / b)) (n / b) h)

-- A digit is no NUL, no dot and no colon.
abbrev pub IsDigit : ℕ → Type 0
IsDigit c = (c ≢ 0) × (c ≢ b'.') × (c ≢ b':')

digit-IsDigit : (d : ℕ) → IsDigit (digit d)
digit-IsDigit d = ground arith

digits-AllIsDigit : (b f n : ℕ) → All IsDigit (digits b f n)
unfolding digits
digits-AllIsDigit b zero n = tt
digits-AllIsDigit b (suc f) n = elim (Bool-cases (ltb n b)) [
  | inl one ↦ rw one (digit-IsDigit n, tt)
  | inr more ↦ rw more (
      All-append IsDigit (digits b f (n / b)) (digit (n % b) ∷ []) (digits-AllIsDigit b f (n / b))
        (digit-IsDigit (n % b), tt))
]

pub format-AllIsDigit : (b n : ℕ) → All IsDigit (format b n)
unfolding format
format-AllIsDigit b n = digits-AllIsDigit b (suc n) n

format_runs : format 16 0xff0a ≡ codes "ff0a"
unfolding format
format_runs = refl

-- A digit written behind a positive number, in base ten and in base sixteen.
pub format_extend_ten :
    (v d : ℕ) → 0 < v → d < 10 → format 10 (v * 10 + d) ≡ format 10 v ++ (b'0' + d) ∷ []
format_extend_ten v d h k =
    let q : (v * 10 + d) / 10 ≡ v = omega arith in
    let r : (v * 10 + d) % 10 ≡ d = omega arith in
    rw (format_large 10 (v * 10 + d) (omega arith) (omega arith), q, r, lt→ltb d 10 k)

pub format_extend_sixteen :
    (v d : ℕ) → 0 < v → d < 16 → format 16 (v * 16 + d) ≡ format 16 v ++ digit d ∷ []
format_extend_sixteen v d h k =
    let q : (v * 16 + d) / 16 ≡ v = omega arith in
    let r : (v * 16 + d) % 16 ≡ d = omega arith in
    rw (format_large 16 (v * 16 + d) (omega arith) (omega arith), q, r)
