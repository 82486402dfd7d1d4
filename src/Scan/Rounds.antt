-- ===== src/Scan/Rounds.antt =====
-- A round of `vsscanf` over a text with short numbers and a format with the pointers that it asks for.
use mongo_sgx_client.Base.{
  ℕ, suc, ◌<◌, ◌≡◌, refl, sym, ◌∙◌, ap, Bool, true, false, ◌==◌, Bytes, List, [], ◌∷◌, ◌++◌, done,
  fault, arith, Run, ◌>>=◌, subst, if◌then◌else◌,
}
use mongo_sgx_client.Base.Integers.{ℤ, pos, negate}
use mongo_sgx_client.Scan.{
  isdigit, isalpha, Pointer, to_int, to_char, Stored, State, Move, stop, one, two, put_int,
  put_char, scan_digits, scan_int, scan_char, scan_plain, step,
}
use mongo_sgx_client.Scan.Digits.{down}
use mongo_sgx_client.Scan.Shorts.{
  IsShort, at_nul, at_digit, at_other, IsRead, rest-IsRead, limit, digit_small, read_digits-Scanned,
}

abbrev pub needed : Bool → Bool → Bool → Bool → List Pointer → List Pointer → List Pointer
needed at_end percent d c twos ones =
    if at_end
    then []
    else if percent
    then (if d then to_int ∷ twos else if c then to_char ∷ twos else ones)
    else ones

-- The pointers that the conversions of a format ask for, up to its NUL.
abbrev pub needs : Bytes → List Pointer
needs [] = []
needs (f ∷ []) = []
needs (f ∷ g ∷ format) =
    needed (f == 0) (f == b'%') (g == b'd') (g == b'c') (needs format) (needs (g ∷ format))

-- A NUL ends the memory of a format.
pub data HasNul : Bytes → Type 0 where
  here : {r : Bytes} → HasNul (0 ∷ r)
  later : {c : ℕ} {r : Bytes} → HasNul r → HasNul (c ∷ r)

-- A round that has text to go on with, and the pointers that the rest of the format asks for.
abbrev pub Rests : List Pointer → State → Type 0
Rests needed st = IsRead st.str × (more : List Pointer) × (st.args ≡ needed ++ more)

abbrev pub Moves : Type 0 → List Pointer → List Pointer → Run Move → Type 0
Moves P ones twos fault = ⊥
Moves P ones twos (done (stop st)) = Unit
Moves P ones twos (done (one st)) = Rests ones st
Moves P ones twos (done (two st)) = P × Rests twos st

abbrev pub state : Bytes → List Pointer → List Stored → ℕ → State
state str args stored n = record { str = str; args = args; stored = stored; val_cnt = n }

module _ (P : Type 0) (ones twos more : List Pointer) where
  Moves-branch :
      (b : Bool) (x y : Run Move)
      → (b ≡ true → Moves P ones twos x)
      → (b ≡ false → Moves P ones twos y)
      → Moves P ones twos (elim b [ true ↦ x | false ↦ y ])
  Moves-branch true x y h k = h refl
  Moves-branch false x y h k = k refl

  Moves-bind {ℓ} :
      {A : Type ℓ} (r : Run A) (k : A → Run Move) (a : A)
      → r ≡ done a
      → Moves P ones twos (k a)
      → Moves P ones twos (r >>= k)
  Moves-bind r k a e h = subst (λ r. Moves P ones twos (r >>= k)) (sym e) h

  scan_plain-Moves :
      (f c : ℕ) (t : Bytes) (args : List Pointer) (stored : List Stored) (n : ℕ)
      → 0 < f
      → args ≡ ones ++ more
      → IsRead (c ∷ t)
      → Moves P ones twos (scan_plain f (state (c ∷ t) args stored n))
  unfolding scan_plain
  scan_plain-Moves f c t args stored n p a h =
      Moves-branch (f == c) _ _ (λ e. (rest-IsRead c t (ground (arith, e)) h, more, a)) (λ e. tt)

  scan_char-Moves :
      (c : ℕ) (t : Bytes) (stored : List Stored) (n : ℕ)
      → P
      → IsRead (c ∷ t)
      → Moves P ones twos (scan_char (state (c ∷ t) (to_char ∷ twos ++ more) stored n))
  unfolding scan_char put_char
  scan_char-Moves c t stored n p h =
      Moves-branch (isalpha c) _ _ (λ e. (p, (rest-IsRead c t (ground (arith, e)) h, more, refl)))
        (λ e. tt)

  number_value :
      (positive : Bool) (m : ℕ)
      → m < 1000000000
      → (z : ℤ) × (elim positive [ true ↦ negate (down m) | false ↦ done (down m) ] ≡ done z)
  number_value true m h = (pos m, ground (arith, h))
  number_value false m h = (down m, refl)

  scan_digits-Moves :
      (k : ℕ) (positive : Bool) (str text : Bytes) (stored : List Stored) (n : ℕ)
      → P
      → 0 < limit k
      → IsShort k str
      → Moves P ones twos (scan_digits positive str (state text (to_int ∷ twos ++ more) stored n))
  unfolding scan_digits put_int
  scan_digits-Moves k positive str text stored n p room at_nul = tt
  scan_digits-Moves k positive str text stored n p room (at_other {c = c} {t = t} e s) =
      Moves-branch (isdigit c) _ _ (λ d. absurd (cc (d, e))) (λ d. tt)
  scan_digits-Moves (suc k) positive str text stored n p room (at_digit {c = c} {t = t} e s) =
      let D = read_digits-Scanned k c t 0 e s (omega (arith, room, digit_small c e)) in
      let (z, v) = number_value positive D.number D.small in
      Moves-branch (isdigit c) _ _
        (λ d.
          Moves-bind _ _ (down D.number, D.behind) D.read
            (Moves-bind _ _ z v (p, (D.behind-IsRead, more, refl))))
        (λ d. tt)

  scan_int-Moves :
      (c : ℕ) (t : Bytes) (stored : List Stored) (n : ℕ)
      → P
      → IsRead (c ∷ t)
      → Moves P ones twos (scan_int (state (c ∷ t) (to_int ∷ twos ++ more) stored n))
  unfolding scan_int
  scan_int-Moves c t stored n p h =
      Moves-branch (c == b'-') _ _
        (λ e.
          let r = rest-IsRead c t (ground (arith, e)) h in
          scan_digits-Moves r.room false t (c ∷ t) stored n p r.some_room r.short)
        (λ e. scan_digits-Moves h.room true (c ∷ t) (c ∷ t) stored n p h.some_room h.short)

  needed-int :
      (z p d c : Bool) → z ≡ false → p ≡ true → d ≡ true → needed z p d c twos ones ≡ to_int ∷ twos
  needed-int z p d c e0 e1 e2 = rw (e0, e1, e2) refl

  needed-char :
      (z p d c : Bool)
      → z ≡ false
      → p ≡ true
      → d ≡ false
      → c ≡ true
      → needed z p d c twos ones ≡ to_char ∷ twos
  needed-char z p d c e0 e1 e2 e3 = rw (e0, e1, e2, e3) refl

  needed-none :
      (z p d c : Bool)
      → z ≡ false
      → p ≡ true
      → d ≡ false
      → c ≡ false
      → needed z p d c twos ones ≡ ones
  needed-none z p d c e0 e1 e2 e3 = rw (e0, e1, e2, e3) refl

  needed-plain : (z p d c : Bool) → z ≡ false → p ≡ false → needed z p d c twos ones ≡ ones
  needed-plain z p d c e0 e1 = rw (e0, e1) refl

  pub step-Moves :
      (f g : ℕ) (format : Bytes) (c : ℕ) (t : Bytes) (args : List Pointer) (stored : List Stored)
      (n : ℕ)
      → (f == 0) ≡ false
      → (0 < g → P)
      → args ≡ needed (f == 0) (f == b'%') (g == b'd') (g == b'c') twos ones ++ more
      → IsRead (c ∷ t)
      → Moves P ones twos (step f (g ∷ format) (state (c ∷ t) args stored n))
  unfolding step
  step-Moves f g format c t args stored n e0 p a h =
      let go : (l : List Pointer)
          → needed (f == 0) (f == b'%') (g == b'd') (g == b'c') twos ones ≡ l
          → args ≡ l ++ more =
        λ l e. a ∙ ap (λ x. x ++ more) e in
      let some : 0 < f = ground (arith, e0) in
      Moves-branch (f == b'%') _ _
        (λ e1.
          Moves-branch (g == b'd') _ _
            (λ e2.
              subst (λ x. Moves P ones twos (scan_int (state (c ∷ t) x stored n)))
                (sym (
                  go (to_int ∷ twos)
                    (needed-int (f == 0) (f == b'%') (g == b'd') (g == b'c') e0 e1 e2)))
                (scan_int-Moves c t stored n (p (ground (arith, e2))) h))
            (λ e2.
              Moves-branch (g == b'c') _ _
                (λ e3.
                  subst (λ x. Moves P ones twos (scan_char (state (c ∷ t) x stored n)))
                    (sym (
                      go (to_char ∷ twos)
                        (needed-char (f == 0) (f == b'%') (g == b'd') (g == b'c') e0 e1 e2 e3)))
                    (scan_char-Moves c t stored n (p (ground (arith, e3))) h))
                (λ e3.
                  scan_plain-Moves f c t args stored n some
                    (go ones (needed-none (f == 0) (f == b'%') (g == b'd') (g == b'c') e0 e1 e2 e3))
                    h)))
        (λ e1.
          scan_plain-Moves f c t args stored n some
            (go ones (needed-plain (f == 0) (f == b'%') (g == b'd') (g == b'c') e0 e1)) h)
