-- ===== src/Scan/RoundTrip.antt =====
-- `vsscanf` on what printf writes under the same format.
use native.Mathlib.Nat.{zero-add, add-zero}
use mongo_sgx_client.Base.{
  ℕ, suc, ◌+◌, ◌≡◌, ◌≢◌, refl, sym, ◌∙◌, ap, ap₂, Bool, true, false, Bytes, [], ◌∷◌, ◌++◌, List,
  ◌==◌, length, Run, done, ◌>>=◌, arith, append_assoc, append-nil,
}
use mongo_sgx_client.Base.Integers.{ℤ, pos, negsuc, difference, fits_int, negate}
use mongo_sgx_client.Scan.{
  isdigit, isalpha, Pointer, to_int, to_char, Stored, int_value, char_value, State, one, two,
  read_digits, put_int, put_char, scan_digits, scan_int, scan_char, scan_plain, step, loop, vsscanf,
}
use mongo_sgx_client.Scan.Digits.{show_int, read_format}

-- The parts of a format, with the values of the conversions.
pub data Part : Type 0 where
  plain : ℕ → Part
  integer : ℤ → Part
  character : ℕ → Part

abbrev pub print : List Part → Bytes
print [] = []
print (plain c ∷ ps) = c ∷ print ps
print (integer z ∷ ps) = show_int z ++ print ps
print (character c ∷ ps) = c ∷ print ps

abbrev pub format_of : List Part → Bytes
format_of [] = []
format_of (plain c ∷ ps) = c ∷ format_of ps
format_of (integer z ∷ ps) = b'%' ∷ b'd' ∷ format_of ps
format_of (character c ∷ ps) = b'%' ∷ b'c' ∷ format_of ps

abbrev pub pointers : List Part → List Pointer
pointers [] = []
pointers (plain c ∷ ps) = pointers ps
pointers (integer z ∷ ps) = to_int ∷ pointers ps
pointers (character c ∷ ps) = to_char ∷ pointers ps

abbrev pub values : List Part → List Stored
values [] = []
values (plain c ∷ ps) = values ps
values (integer z ∷ ps) = int_value z ∷ values ps
values (character c ∷ ps) = char_value c ∷ values ps

-- The first byte of a text, or of what follows it.
abbrev pub first_of : Bytes → ℕ → ℕ
first_of [] c = c
first_of (x ∷ t) c = x

-- Plain characters are neither NUL nor %, integers are those of an int with no digit behind them, and
-- characters are letters.
abbrev pub Readable : List Part → ℕ → Type 0
Readable [] after = isdigit after ≡ false
Readable (plain c ∷ ps) after = (c ≢ 0) × (c ≢ b'%') × Readable ps after
Readable (integer z ∷ ps) after =
    (fits_int z ≡ true) × (isdigit (first_of (print ps) after) ≡ false) × Readable ps after
Readable (character c ∷ ps) after = (isalpha c ≡ true) × Readable ps after

abbrev state : Bytes → List Pointer → List Stored → ℕ → State
state str args stored n = record { str = str; args = args; stored = stored; val_cnt = n }

-- `value = -value`, if there was no sign.
abbrev signed : Bool → ℤ → Run ℤ
signed positive v = elim positive [ true ↦ negate v | false ↦ done v ]

scan_digits-read :
    (positive : Bool) (c : ℕ) (t rest : Bytes) (v z : ℤ) (st : State) (args : List Pointer)
    → isdigit c ≡ true
    → read_digits (c ∷ t) (pos 0) ≡ done (v, rest)
    → signed positive v ≡ done z
    → st.args ≡ to_int ∷ args
    → scan_digits positive (c ∷ t) st
      ≡ done (two (state rest args (st.stored ++ int_value z ∷ []) (st.val_cnt + 1)))
unfolding scan_digits put_int
scan_digits-read positive c t rest v z st args at read e a = ground (arith, at, read, e, a)

no_sign : (c : ℕ) → isdigit c ≡ true → (c == b'-') ≡ false
no_sign c h = ground arith

scan_int-unsigned :
    (c : ℕ) (t : Bytes) (args : List Pointer) (stored : List Stored) (n : ℕ)
    → isdigit c ≡ true
    → let st = state (c ∷ t) args stored n in scan_int st ≡ scan_digits true (c ∷ t) st
unfolding scan_int
scan_int-unsigned c t args stored n at = ground (arith, no_sign c at)

-- %d at an int in front of something that is no digit.
scan_int-show_int :
    (z : ℤ) (after : ℕ) (r : Bytes) (args : List Pointer) (stored : List Stored) (n : ℕ)
    → fits_int z ≡ true
    → isdigit after ≡ false
    → scan_int (state (show_int z ++ after ∷ r) (to_int ∷ args) stored n)
      ≡ done (two (state (after ∷ r) args (stored ++ int_value z ∷ []) (n + 1)))
unfolding scan_int
scan_int-show_int (pos v) after r args stored n h k =
    let (c, t, same, at, read) = read_format v r after (ground (arith, h)) k in
    let sign : signed true (difference 0 v) ≡ done (pos v) = ground (arith, h) in
    ap (λ x. scan_int (state x (to_int ∷ args) stored n)) same
    ∙ scan_int-unsigned c t (to_int ∷ args) stored n at
    ∙ scan_digits-read true c t (after ∷ r) (difference 0 v) (pos v)
        (state (c ∷ t) (to_int ∷ args) stored n) args at read sign refl
scan_int-show_int (negsuc v) after r args stored n h k =
    let (c, t, same, at, read) = read_format (suc v) r after (ground (arith, h)) k in
    let sign : difference 0 (suc v) ≡ negsuc v = ground arith in
    ap (λ x. scan_digits false x (state (b'-' ∷ x) (to_int ∷ args) stored n)) same
    ∙ scan_digits-read false c t (after ∷ r) (difference 0 (suc v)) (negsuc v)
        (state (b'-' ∷ (c ∷ t)) (to_int ∷ args) stored n) args at read (ap done sign) refl

loop-one :
    (f : ℕ) (fs : Bytes) (st s : State)
    → f ≢ 0
    → step f fs st ≡ done (one s)
    → loop (f ∷ fs) st ≡ loop fs s
unfolding loop
loop-one f [] st s h e = ground (arith, e)
loop-one f (g ∷ fs) st s h e = ground (arith, e)

loop-two :
    (f g : ℕ) (fs : Bytes) (st s : State)
    → f ≢ 0
    → step f (g ∷ fs) st ≡ done (two s)
    → loop (f ∷ g ∷ fs) st ≡ loop fs s
unfolding loop
loop-two f g fs st s h e = ground (arith, e)

-- What is to be read, in front of a byte.
abbrev shown : List Part → ℕ → Bytes → Bytes
shown ps after r = print ps ++ after ∷ r

first_byte :
    (ps : List Part) (after : ℕ) (r : Bytes)
    → (t : Bytes) × (shown ps after r ≡ first_of (print ps) after ∷ t)
first_byte ps after r = go (print ps)
  where
    go : (x : Bytes) → (t : Bytes) × (x ++ after ∷ r ≡ first_of x after ∷ t)
    go [] = (r, refl)
    go (c ∷ x) = (x ++ after ∷ r, refl)

step-plain :
    (c : ℕ) (t fs : Bytes) (args : List Pointer) (stored : List Stored) (n : ℕ)
    → c ≢ b'%'
    → step c fs (state (c ∷ t) args stored n) ≡ done (one (state t args stored n))
unfolding step scan_plain
step-plain c t fs args stored n h = ground arith

step-character :
    (c : ℕ) (t fs : Bytes) (args : List Pointer) (stored : List Stored) (n : ℕ)
    → isalpha c ≡ true
    → step b'%' (b'c' ∷ fs) (state (c ∷ t) (to_char ∷ args) stored n)
      ≡ done (two (state t args (stored ++ char_value c ∷ []) (n + 1)))
unfolding step scan_char put_char
step-character c t fs args stored n h = ground (arith, h)

one_more :
    (v : Stored) (ps : List Part) (after : ℕ) (r : Bytes) (stored : List Stored) (n : ℕ)
    → ◌≡◌ {A = Run State}
        (done (state (after ∷ r) [] (stored ++ v ∷ [] ++ values ps) (n + 1 + length (values ps))))
        (done (state (after ∷ r) [] (stored ++ v ∷ values ps) (n + suc (length (values ps)))))
one_more v ps after r stored n =
    let count : n + 1 + length (values ps) ≡ n + suc (length (values ps)) = omega arith in
    ap₂ (λ o k. done (state (after ∷ r) [] o k)) (append_assoc stored (v ∷ []) (values ps)) count

step-integer :
    (z : ℤ) (ps : List Part) (after : ℕ) (r fs : Bytes) (args : List Pointer) (stored : List Stored)
    (n : ℕ)
    → fits_int z ≡ true
    → isdigit (first_of (print ps) after) ≡ false
    → step b'%' (b'd' ∷ fs) (state (shown (integer z ∷ ps) after r) (to_int ∷ args) stored n)
      ≡ done (two (state (shown ps after r) args (stored ++ int_value z ∷ []) (n + 1)))
unfolding step
step-integer z ps after r fs args stored n h k =
    let (t, e) = first_byte ps after r in
    ap (λ x. scan_int (state x (to_int ∷ args) stored n))
      (append_assoc (show_int z) (print ps) (after ∷ r) ∙ ap (λ x. show_int z ++ x) e)
    ∙ scan_int-show_int z (first_of (print ps) after) t args stored n h k
    ∙ ap (λ x. done (two (state x args (stored ++ int_value z ∷ []) (n + 1)))) (sym e)

loop-nul : (q : Bytes) (st : State) → loop (0 ∷ q) st ≡ done st
unfolding loop
loop-nul [] st = refl
loop-nul (g ∷ q) st = refl

-- The loop over the format, with `q` behind its NUL.
loop-print :
    (ps : List Part) (after : ℕ) (r q : Bytes) (stored : List Stored) (n : ℕ)
    → Readable ps after
    → loop (format_of ps ++ 0 ∷ q) (state (shown ps after r) (pointers ps) stored n)
      ≡ done (state (after ∷ r) [] (stored ++ values ps) (n + length (values ps)))
loop-print [] after r q stored n h =
    loop-nul q (state (after ∷ r) [] stored n)
    ∙ ap₂ (λ o k. done (state (after ∷ r) [] o k)) (sym (append-nil stored)) (sym (add-zero n))
loop-print (plain c ∷ ps) after r q stored n h =
    loop-one c (format_of ps ++ 0 ∷ q) _ _ h.0
      (step-plain c (shown ps after r) (format_of ps ++ 0 ∷ q) (pointers ps) stored n h.1)
    ∙ loop-print ps after r q stored n h.2
loop-print (character c ∷ ps) after r q stored n h =
    loop-two b'%' b'c' (format_of ps ++ 0 ∷ q) _ _ (omega arith)
      (step-character c (shown ps after r) (format_of ps ++ 0 ∷ q) (pointers ps) stored n h.0)
    ∙ loop-print ps after r q (stored ++ char_value c ∷ []) (n + 1) h.1
    ∙ one_more (char_value c) ps after r stored n
loop-print (integer z ∷ ps) after r q stored n h =
    loop-two b'%' b'd' (format_of ps ++ 0 ∷ q) _ _ (omega arith)
      (step-integer z ps after r (format_of ps ++ 0 ∷ q) (pointers ps) stored n h.0 h.1)
    ∙ loop-print ps after r q (stored ++ int_value z ∷ []) (n + 1) h.2
    ∙ one_more (int_value z) ps after r stored n

-- What printf writes for a format of plain characters, %d and %c is read back under the same format:
-- `vsscanf` returns the number of conversions and stores their values, in order. Every int comes
-- through, negative ones and the smallest included, if no digit follows it; a character has to be a
-- letter; no plain character is NUL or %. More text may follow what is read, and the memory behind
-- the NUL of the format does not matter.
pub vsscanf-print :
    (ps : List Part) (after : ℕ) (r q : Bytes)
    → Readable ps after
    → vsscanf (print ps ++ after ∷ r) (format_of ps ++ 0 ∷ q) (pointers ps)
      ≡ done (length (values ps), values ps)
unfolding vsscanf
vsscanf-print ps after r q h =
    ap (λ x. x >>= λ s. done (s.val_cnt, s.stored)) (loop-print ps after r q [] 0 h)
    ∙ ap (λ k. done (k, values ps)) (zero-add (length (values ps)))
