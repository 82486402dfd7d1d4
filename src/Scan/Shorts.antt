-- ===== src/Scan/Shorts.antt =====
-- Texts whose numbers are short, and %d on them.
use mongo_sgx_client.Base.{
  ℕ, zero, suc, ◌+◌, ◌-◌, ◌*◌, ◌/◌, ◌≤◌, ◌<◌, ◌≡◌, refl, true, false, Bytes, ◌∷◌, done, arith,
}
use mongo_sgx_client.Scan.{isdigit, read_digits}
use mongo_sgx_client.Scan.Digits.{down, read_digits-step}

-- A NUL ends the text; before it no more than nine digits stand in a row, at the beginning no more than
-- the number.
pub data IsShort : ℕ → Bytes → Type 0 where
  at_nul : {k : ℕ} {r : Bytes} → IsShort k (0 ∷ r)
  at_digit : {k c : ℕ} {t : Bytes} → isdigit c ≡ true → IsShort k t → IsShort (suc k) (c ∷ t)
  at_other : {k c : ℕ} {t : Bytes} → isdigit c ≡ false → IsShort 9 t → IsShort k (c ∷ t)

-- A number that `k` more digits do not carry over nine digits lies below.
abbrev pub limit : ℕ → ℕ
limit zero = 1000000000
limit (suc k) = limit k / 10

limit-most : (k : ℕ) → limit k ≤ 1000000000
limit-most zero = omega arith
limit-most (suc k) = omega (arith, limit-most k)

-- A text with some room for digits at its beginning.
pub record IsRead (str : Bytes) : Type 0 where
  pub room : ℕ
  pub some_room : 0 < limit room
  pub short : IsShort room str

pub IsShort-IsRead : {k : ℕ} {str : Bytes} → 0 < limit k → IsShort k str → IsRead str
IsShort-IsRead h s = record { room = _; some_room = h; short = s }

-- What is behind a first character that is not the end.
pub rest-IsRead : (c : ℕ) (t : Bytes) → 0 < c → IsRead (c ∷ t) → IsRead t
rest-IsRead c t h r = behind r.room r.some_room r.short h
  where
    behind : (k : ℕ) {c : ℕ} → 0 < limit k → IsShort k (c ∷ t) → 0 < c → IsRead t
    behind k room at_nul h = absurd (omega arith)
    behind (suc k) room (at_digit d s) h = IsShort-IsRead (omega (arith, room)) s
    behind k room (at_other d s) h = IsShort-IsRead (omega arith) s

-- The number that %d reads, and the text behind it.
pub record Scanned (str : Bytes) (n : ℕ) : Type 0 where
  pub number : ℕ
  pub behind : Bytes
  pub read : read_digits str (down n) ≡ done (down number, behind)
  pub small : number < 1000000000
  pub behind-IsRead : IsRead behind

pub digit_small : (c : ℕ) → isdigit c ≡ true → c - b'0' ≤ 9
digit_small c h = ground (arith, h)

-- The round at a digit with nothing but the end of the digits behind it.
last_digit :
    (c d : ℕ) (r : Bytes) (n : ℕ)
    → isdigit d ≡ false
    → n * 10 + (c - b'0') < 1000000000
    → IsRead (d ∷ r)
    → Scanned (c ∷ d ∷ r) n
last_digit c d r n e l h = record {
  number = n * 10 + (c - b'0');
  behind = d ∷ r;
  read = rw (read_digits-step c d r n (omega (arith, l)), e) refl;
  small = l;
  behind-IsRead = h;
}

another_digit :
    (c d : ℕ) (r : Bytes) (n : ℕ)
    → isdigit d ≡ true
    → n * 10 + (c - b'0') < 1000000000
    → Scanned (d ∷ r) (n * 10 + (c - b'0'))
    → Scanned (c ∷ d ∷ r) n
another_digit c d r n e l h = record {
  number = h.number;
  behind = h.behind;
  read = rw (read_digits-step c d r n (omega (arith, l)), e) h.read;
  small = h.small;
  behind-IsRead = h.behind-IsRead;
}

pub read_digits-Scanned :
    (k c : ℕ) (t : Bytes) (n : ℕ)
    → isdigit c ≡ true
    → IsShort k t
    → n * 10 + (c - b'0') < limit k
    → Scanned (c ∷ t) n
read_digits-Scanned k c t n e (at_nul {r = r}) l =
    last_digit c 0 r n refl (omega (arith, l, limit-most k))
      (IsShort-IsRead (omega (arith, l)) (at_nul {k = k}))
read_digits-Scanned (suc k) c (d ∷ t) n e (at_digit h s) l =
    another_digit c d t n h (omega (arith, l, limit-most (suc k)))
      (read_digits-Scanned k d t (n * 10 + (c - b'0')) h s (omega (arith, l, digit_small d h)))
read_digits-Scanned k c (d ∷ t) n e (at_other h s) l =
    last_digit c d t n h (omega (arith, l, limit-most k))
      (IsShort-IsRead (omega (arith, l)) (at_other {k = k} h s))
