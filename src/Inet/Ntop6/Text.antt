-- ===== src/Inet/Ntop6/Text.antt =====
-- The text that `inet_ntop6` builds in its buffer.
use native.Mathlib.Numerals.{add-one}
use mongo_sgx_client.Base.{
  ℕ, ◌+◌, ◌*◌, ◌<◌, ◌≤◌, ◌≡◌, ◌≢◌, refl, sym, ◌∙◌, ap, false, Bytes, List, [], ◌∷◌, ◌++◌,
  append-nil, append_assoc, ap₂, subst, Option, some, arith, ◌==◌, ◌&&◌, if◌then◌else◌, length,
  take, drop, set, length-append, length-take, length-drop, take-append, length-set, take-set,
  take-suc, get_elem?-set_self, Bool-cases, inl, inr, lt→ltb, done, fault, Round, next, leave, All,
  All-append,
}
use mongo_sgx_client.Libc.Laws.{IsText, snprintf_fits}
use mongo_sgx_client.Inet.Digits.{format, IsDigit, format-AllIsDigit, format_small, format_large}
use mongo_sgx_client.Inet.Pton6.Groups.{AreWords}
use mongo_sgx_client.Inet.Ntop6.{
  Zeros, State, Exit, tmp_size, put, put_word, put_quad, put_colon, in_run, at_base, encapsulated,
  step, loop, trailing,
}

abbrev pub colon_before : ℕ → Bytes
colon_before i = if i == 0 then [] else b':' ∷ []

-- What one round adds to the text.
abbrev pub piece : Zeros → ℕ → ℕ → Bytes
piece best i w =
    if in_run best i
    then if at_base best i then b':' ∷ [] else []
    else colon_before i ++ format 16 w

abbrev pub body : Zeros → ℕ → List ℕ → Bytes
body best i [] = []
body best i (w ∷ ws) = piece best i w ++ body best (i + 1) ws

abbrev pub trailing_colon : Zeros → Bytes
trailing_colon best = if trailing best then b':' ∷ [] else []

-- The whole text of an address that is not encapsulated.
abbrev pub presentation : Zeros → List ℕ → Bytes
presentation best ws = body best 0 ws ++ trailing_colon best

-- The buffer up to `tp` is the text.
pub record Holds (st : State) (t : Bytes) : Type 0 where
  pub whole : length st.tmp ≡ tmp_size
  pub at : st.tp ≡ length t
  pub part : take st.tp st.tmp ≡ t

pub put-Holds :
    (c : ℕ) (st : State) (t : Bytes)
    → Holds st t
    → length t < tmp_size
    → (s : State) × (put c st ≡ done s) × Holds s (t ++ c ∷ [])
unfolding put
put-Holds c st t h k =
    let m = set st.tmp st.tp c in
    (
      record { tmp = m; tp = st.tp + 1 },
      rw (lt→ltb st.tp (length st.tmp) (omega (arith, h.whole, h.at))),
      record {
        whole = length-set st.tmp st.tp c ∙ h.whole;
        at = omega (arith, h.at, length-append {0} t (c ∷ []));
        part =
            ap (λ n. take n m) (add-one st.tp)
            ∙ take-suc m st.tp (get_elem?-set_self st.tmp st.tp c (omega (arith, h.whole, h.at)))
            ∙ ap (λ x. x ++ c ∷ []) (take-set st.tmp st.tp c ∙ h.part);
      },
    )

length-format : (w : ℕ) → w < 65536 → length (format 16 w) ≤ 4
length-format w h = grind (arith, format_small, format_large)

put_word-Holds :
    (w : ℕ) (st : State) (t : Bytes)
    → w < 65536
    → Holds st t
    → length t + 5 ≤ tmp_size
    → (s : State) × (put_word w st ≡ done s) × Holds s (t ++ format 16 w)
unfolding put_word
put_word-Holds w st t small h k =
    let x = format 16 w in
    let short = length-format w small in
    let room : st.tp + length x + 1 ≤ length st.tmp = omega (arith, h.whole, h.at) in
    let rest = drop (st.tp + length x + 1) st.tmp in
    let m = take st.tp st.tmp ++ (x ++ 0 ∷ []) ++ rest in
    let upto : length (take st.tp st.tmp) ≡ st.tp = omega (arith, length-take st.tp st.tmp) in
    let regroup : m ≡ (take st.tp st.tmp ++ x) ++ 0 ∷ rest = simp append_assoc in
    let total : st.tp + length x ≡ length (take st.tp st.tmp ++ x) =
      omega (arith, length-append {0} (take st.tp st.tmp) x) in
    (
      record { tmp = m; tp = st.tp + length x },
      rw (snprintf_fits st.tmp x st.tp tmp_size (omega arith) room),
      record {
        whole = omega (
          arith,
          h.whole,
          length-append {0} (take st.tp st.tmp ++ (x ++ 0 ∷ [])) rest,
          length-append {0} (take st.tp st.tmp) (x ++ 0 ∷ []),
          length-append {0} x (0 ∷ []),
          length-drop (st.tp + length x + 1) st.tmp,
        );
        at = omega (arith, h.at, length-append {0} t x);
        part =
            ap₂ take total regroup
            ∙ take-append (take st.tp st.tmp ++ x) (0 ∷ rest)
            ∙ ap (λ y. y ++ x) h.part;
      },
    )

put_colon-Holds :
    (i : ℕ) (st : State) (t : Bytes)
    → Holds st t
    → length t < tmp_size
    → (s : State) × (put_colon i st ≡ done s) × Holds s (t ++ colon_before i)
put_colon-Holds i st t h k = elim (Bool-cases (i == 0)) [
  | inl first ↦ rw first (st, refl, subst (Holds st) (sym (append-nil t)) h)
  | inr later ↦ rw later (put-Holds b':' st t h k)
]

length-colon : (i : ℕ) → length (colon_before i) ≤ 1
length-colon i = ground arith

step_outside :
    (src junk : Bytes) (best : Zeros) (w5 : Option ℕ) (i w : ℕ) (st s u : State)
    → encapsulated best w5 ≡ false
    → put_colon i st ≡ done s
    → put_word w s ≡ done u
    → ◌≡◌ {A = Round State Exit}
        (elim (put_colon i st) [
          | fault ↦ leave fault
          | done s ↦
              if i == 6 && encapsulated best w5
              then leave (put_quad src junk s)
              else elim (put_word w s) [ fault ↦ leave fault | done u ↦ next u ]
        ])
        (next u)
step_outside src junk best w5 i w st s u plain e f = ground (arith, plain, e, f)

-- A round of the loop, at a word that does not begin an IPv4 address.
step-Holds :
    (src junk : Bytes) (best : Zeros) (w5 : Option ℕ) (i w : ℕ) (st : State) (t : Bytes)
    → encapsulated best w5 ≡ false
    → w < 65536
    → Holds st t
    → length t + 6 ≤ tmp_size
    → (s : State) × (step src junk best w5 i w st ≡ next s) × Holds s (t ++ piece best i w)
unfolding step
step-Holds src junk best w5 i w st t plain small h k = elim (Bool-cases (in_run best i)) [
  | inl inside ↦ elim (Bool-cases (at_base best i)) [
    | inl first ↦
        let (s, e, hs) = put-Holds b':' st t h (omega arith) in rw (inside, first) (s, rw e, hs)
    | inr later ↦ rw (inside, later) (st, refl, subst (Holds st) (sym (append-nil t)) h)
  ]
  | inr outside ↦
      let colon : Bytes = colon_before i in
      let (s, e, hs) = put_colon-Holds i st t h (omega arith) in
      let room : length (t ++ colon) + 5 ≤ tmp_size =
        omega (arith, length-append {0} t colon, length-colon i) in
      let (u, f, hu) = put_word-Holds w s (t ++ colon) small hs room in
      let run = step_outside src junk best w5 i w st s u plain e f in
      rw outside (u, run, subst (Holds u) (append_assoc t colon (format 16 w)) hu)
]

length-piece : (best : Zeros) (i w : ℕ) → w < 65536 → length (piece best i w) ≤ 5
length-piece best i w h =
    ground
      (arith, length-append {0} (colon_before i) (format 16 w), length-colon i, length-format w h)

pub loop-Holds :
    (src junk : Bytes) (best : Zeros) (w5 : Option ℕ) (i : ℕ) (ws : List ℕ) (st : State) (t : Bytes)
    → encapsulated best w5 ≡ false
    → AreWords ws
    → Holds st t
    → length t + 5 * length ws + 1 ≤ tmp_size
    → (s : State) × (loop src junk best w5 i ws st ≡ done (some s)) × Holds s (t ++ body best i ws)
unfolding loop
loop-Holds src junk best w5 i [] st t plain small h k =
    (st, refl, subst (Holds st) (sym (append-nil t)) h)
loop-Holds src junk best w5 i (w ∷ ws) st t plain small h k =
    let p : Bytes = piece best i w in
    let (s, e, hs) = step-Holds src junk best w5 i w st t plain small.0 h (omega arith) in
    let room : length (t ++ p) + 5 * length ws + 1 ≤ tmp_size =
      omega (arith, length-append {0} t p, length-piece best i w small.0) in
    let (u, f, hu) = loop-Holds src junk best w5 (i + 1) ws s (t ++ p) plain small.1 hs room in
    (
      u,
      ap (λ r. elim r [ next x ↦ loop src junk best w5 (i + 1) ws x | leave y ↦ y ]) e ∙ f,
      subst (Holds u) (append_assoc t p (body best (i + 1) ws)) hu,
    )

format-IsText : (b n : ℕ) → IsText (format b n)
format-IsText b n = weaken (format b n) (format-AllIsDigit b n)
  where
    weaken : (t : Bytes) → All IsDigit t → IsText t
    weaken [] h = tt
    weaken (c ∷ t) h = (h.0.0, weaken t h.1)

-- No NUL stands in the text.
piece-IsText : (best : Zeros) (i w : ℕ) → IsText (piece best i w)
piece-IsText best i w =
    let word = format-IsText 16 w in
    ground (arith, word, All-append (λ c. c ≢ 0) (colon_before i) (format 16 w))

pub body-IsText : (best : Zeros) (i : ℕ) (ws : List ℕ) → IsText (body best i ws)
body-IsText best i [] = tt
body-IsText best i (w ∷ ws) =
    All-append (λ c. c ≢ 0) (piece best i w) (body best (i + 1) ws) (piece-IsText best i w)
      (body-IsText best (i + 1) ws)

pub length-body :
    (best : Zeros) (i : ℕ) (ws : List ℕ) → AreWords ws → length (body best i ws) ≤ 5 * length ws
length-body best i [] h = omega arith
length-body best i (w ∷ ws) h = omega (
  arith,
  length-append {0} (piece best i w) (body best (i + 1) ws),
  length-piece best i w h.0,
  length-body best (i + 1) ws h.1,
)
