-- ===== src/Scan/Stores.antt =====
-- What `vsscanf` stores, whatever the text and the format are.
use mongo_sgx_client.Base.{
  ℕ, ◌+◌, ◌≡◌, refl, sym, ◌∙◌, ap, Bool, true, false, Bytes, List, [], ◌∷◌, ◌++◌, Run, done, fault,
  ◌>>=◌, arith, load, drop, length, length-append, append_assoc, map, ◌==◌,
}
use mongo_sgx_client.Base.Integers.{ℤ, pos}
use mongo_sgx_client.Scan.{
  isdigit, isalpha, Pointer, to_int, to_char, Stored, int_value, char_value, State, Move, stop, one,
  two, read_digits, put_int, put_char, scan_digits, scan_int, scan_char, scan_plain, step, loop,
  vsscanf,
}

-- The type of the pointer that a value is stored at.
abbrev pub pointer_of : Stored → Pointer
pointer_of (int_value z) = to_int
pointer_of (char_value c) = to_char

-- So far `args` have been used as far as values have been stored, at pointers of their type.
record IsUsed (args : List Pointer) (st : State) : Type 0 where
  used : args ≡ map pointer_of st.stored ++ st.args
  count : st.val_cnt ≡ length st.stored

map-append :
    (xs ys : List Stored) → map pointer_of (xs ++ ys) ≡ map pointer_of xs ++ map pointer_of ys
map-append [] ys = refl
map-append (x ∷ xs) ys = ap (λ t. pointer_of x ∷ t) (map-append xs ys)

IsUsed-store :
    (args rest : List Pointer) (v : Stored) (st : State)
    → st.args ≡ pointer_of v ∷ rest
    → IsUsed args st
    → IsUsed args
        (record st { args = rest; stored = st.stored ++ v ∷ []; val_cnt = st.val_cnt + 1 })
IsUsed-store args rest v st e h = record {
  used =
      h.used
      ∙ ap (λ t. map pointer_of st.stored ++ t) e
      ∙ sym (append_assoc (map pointer_of st.stored) (pointer_of v ∷ []) rest)
      ∙ ap (λ t. t ++ rest) (sym (map-append st.stored (v ∷ [])));
  count = omega (arith, h.count, length-append {0} st.stored (v ∷ []));
}

abbrev AfterPut : List Pointer → Run State → Type 0
AfterPut args fault = Unit
AfterPut args (done st) = IsUsed args st

abbrev AfterMove : List Pointer → Run Move → Type 0
AfterMove args fault = Unit
AfterMove args (done (stop st)) = IsUsed args st
AfterMove args (done (one st)) = IsUsed args st
AfterMove args (done (two st)) = IsUsed args st

abbrev state : Bytes → List Pointer → List Stored → ℕ → State
state str left stored n = record { str = str; args = left; stored = stored; val_cnt = n }

module _ (args : List Pointer) where
  put_int-AfterPut :
      (left : List Pointer) (z : ℤ) (str : Bytes) (stored : List Stored) (n : ℕ)
      → IsUsed args (state str left stored n)
      → AfterPut args (put_int z (state str left stored n))
  unfolding put_int
  put_int-AfterPut [] z str stored n h = tt
  put_int-AfterPut (to_char ∷ left) z str stored n h = tt
  put_int-AfterPut (to_int ∷ left) z str stored n h =
      IsUsed-store args left (int_value z) (state str (to_int ∷ left) stored n) refl h

  put_char-AfterPut :
      (left : List Pointer) (c : ℕ) (str : Bytes) (stored : List Stored) (n : ℕ)
      → IsUsed args (state str left stored n)
      → AfterPut args (put_char c (state str left stored n))
  unfolding put_char
  put_char-AfterPut [] c str stored n h = tt
  put_char-AfterPut (to_int ∷ left) c str stored n h = tt
  put_char-AfterPut (to_char ∷ left) c str stored n h =
      IsUsed-store args left (char_value c) (state str (to_char ∷ left) stored n) refl h

  AfterMove-two : (r : Run State) → AfterPut args r → AfterMove args (r >>= λ s. done (two s))
  AfterMove-two fault h = tt
  AfterMove-two (done st) h = h

  AfterMove-bind {ℓ} :
      {A : Type ℓ} (r : Run A) (k : A → Run Move)
      → ((a : A) → AfterMove args (k a))
      → AfterMove args (r >>= k)
  AfterMove-bind fault k h = tt
  AfterMove-bind (done a) k h = h a

  AfterMove-branch :
      (b : Bool) (x y : Run Move)
      → AfterMove args x
      → AfterMove args y
      → AfterMove args (elim b [ true ↦ x | false ↦ y ])
  AfterMove-branch true x y h k = h
  AfterMove-branch false x y h k = k

  moved : (str : Bytes) (st : State) → IsUsed args st → IsUsed args (record st { str = str })
  moved str st h = record { used = h.used; count = h.count }

  scan_digits-AfterMove :
      (positive : Bool) (str : Bytes) (st : State)
      → IsUsed args st
      → AfterMove args (scan_digits positive str st)
  unfolding scan_digits
  scan_digits-AfterMove positive str st h = AfterMove-bind (load str 0) _ (λ c.
      AfterMove-branch (isdigit c) _ _
        (AfterMove-bind (read_digits str (pos 0)) _ (λ r. AfterMove-bind _ _ (λ z.
          AfterMove-two _ (put_int-AfterPut st.args z r.1 st.stored st.val_cnt (moved r.1 st h)))))
        (moved str st h))

  scan_int-AfterMove : (st : State) → IsUsed args st → AfterMove args (scan_int st)
  unfolding scan_int
  scan_int-AfterMove st h = AfterMove-bind (load st.str 0) _ (λ c.
      AfterMove-branch (c == b'-') _ _ (scan_digits-AfterMove false (drop 1 st.str) st h)
        (scan_digits-AfterMove true st.str st h))

  scan_char-AfterMove : (st : State) → IsUsed args st → AfterMove args (scan_char st)
  unfolding scan_char
  scan_char-AfterMove st h = AfterMove-bind (load st.str 0) _ (λ c.
      AfterMove-branch (isalpha c) _ _
        (AfterMove-two _ (
          put_char-AfterPut st.args c (drop 1 st.str) st.stored st.val_cnt
            (moved (drop 1 st.str) st h)))
        h)

  scan_plain-AfterMove : (f : ℕ) (st : State) → IsUsed args st → AfterMove args (scan_plain f st)
  unfolding scan_plain
  scan_plain-AfterMove f st h =
      AfterMove-bind (load st.str 0) _
        (λ c. AfterMove-branch (f == c) _ _ (moved (drop 1 st.str) st h) h)

  step-AfterMove :
      (f : ℕ) (format : Bytes) (st : State) → IsUsed args st → AfterMove args (step f format st)
  unfolding step
  step-AfterMove f format st h =
      AfterMove-branch (f == b'%') _ _
        (AfterMove-bind (load format 0) _ (λ g.
          AfterMove-branch (g == b'd') _ _ (scan_int-AfterMove st h) (
            AfterMove-branch (g == b'c') _ _ (scan_char-AfterMove st h)
              (scan_plain-AfterMove f st h))))
        (scan_plain-AfterMove f st h)

  last_round :
      (r : Run Move)
      → AfterMove args r
      → AfterPut args (elim r [ done (stop s) ↦ done s | _ ↦ fault ])
  last_round fault h = tt
  last_round (done (stop s)) h = h
  last_round (done (one s)) h = tt
  last_round (done (two s)) h = tt

  further :
      (r : Run Move) (next1 next2 : State → Run State)
      → AfterMove args r
      → ((s : State) → IsUsed args s → AfterPut args (next1 s))
      → ((s : State) → IsUsed args s → AfterPut args (next2 s))
      → AfterPut args (elim r [
        | fault ↦ fault
        | done (stop s) ↦ done s
        | done (one s) ↦ next1 s
        | done (two s) ↦ next2 s
      ])
  further fault k l h p q = tt
  further (done (stop s)) k l h p q = h
  further (done (one s)) k l h p q = p s h
  further (done (two s)) k l h p q = q s h

  branch :
      (b : Bool) (x y : Run State)
      → AfterPut args x
      → AfterPut args y
      → AfterPut args (elim b [ true ↦ x | false ↦ y ])
  branch true x y h k = h
  branch false x y h k = k

  loop-AfterPut : (format : Bytes) (st : State) → IsUsed args st → AfterPut args (loop format st)
  unfolding loop
  loop-AfterPut [] st h = tt
  loop-AfterPut (f ∷ []) st h =
      branch (f == 0) _ _ h (last_round (step f [] st) (step-AfterMove f [] st h))
  loop-AfterPut (f ∷ g ∷ format) st h = branch (f == 0) _ _ h (
      further (step f (g ∷ format) st) (loop (g ∷ format)) (loop format)
        (step-AfterMove f (g ∷ format) st h) (λ s k. loop-AfterPut (g ∷ format) s k)
        (λ s k. loop-AfterPut format s k))

-- The count says how many values there are, and they went to the first of the pointers, each to one
-- of its type.
abbrev pub Answers : List Pointer → Run (ℕ × List Stored) → Type 0
Answers args fault = Unit
Answers args (done (n, out)) =
    (n ≡ length out) × (left : List Pointer) × (args ≡ map pointer_of out ++ left)

Answers-used :
    (args : List Pointer) (r : Run State)
    → AfterPut args r
    → Answers args (r >>= λ s. done (s.val_cnt, s.stored))
Answers-used args fault h = tt
Answers-used args (done s) h = (h.count, s.args, h.used)

-- Whatever the text, the format and the pointers are: if the scan stays within the text, the format
-- and the range of int, `vsscanf` returns the number of the values that it has stored, and has stored
-- them at the first of the caller's pointers in their order, each at a pointer of its type, the
-- pointers behind being left alone.
pub vsscanf-Answers :
    (str format : Bytes) (args : List Pointer) → Answers args (vsscanf str format args)
unfolding vsscanf
vsscanf-Answers str format args =
    Answers-used args (loop format (state str args [] 0))
      (loop-AfterPut args format (state str args [] 0) (record { used = refl; count = refl }))
