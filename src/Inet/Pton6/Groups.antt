-- ===== src/Inet/Pton6/Groups.antt =====
-- The walk of `inet_pton6` over hexadecimal words and the colons between them.
use native.Mathlib.Nat.{zero-add}
use mongo_sgx_client.Base.{
  ℕ, zero, suc, ◌+◌, ◌*◌, ◌/◌, ◌%◌, ◌<◌, ◌≤◌, ◌≡◌, ◌≢◌, refl, sym, ◌∙◌, ap, Bytes, [], ◌∷◌, ◌++◌,
  append-nil, append_assoc, List, Option, none, some, arith, ltb, length, All, length-append,
  Bool-cases, inl, inr, ltb→ge,
}
use mongo_sgx_client.Inet.Digits.{hex_digit_value, digit, format, format_small, format_large}
use mongo_sgx_client.Inet.Pton6.{endp}
use mongo_sgx_client.Inet.Pton6.Walk.{
  View, go, refuse, stop, advance, walk, word_bytes, exact, expand, after_loop,
}

-- Words in hexadecimal, with colons between them.
abbrev pub groups : List ℕ → Bytes
groups [] = []
groups (w ∷ []) = format 16 w
groups (w ∷ x ∷ r) = format 16 w ++ b':' ∷ groups (x ∷ r)

-- Words in hexadecimal, with a colon behind each.
abbrev pub colons : List ℕ → Bytes
colons [] = []
colons (w ∷ r) = format 16 w ++ b':' ∷ colons r

-- Words in network order.
abbrev pub words_bytes : List ℕ → Bytes
words_bytes [] = []
words_bytes (w ∷ r) = word_bytes w ++ words_bytes r

abbrev pub AreWords : List ℕ → Type 0
AreWords = All (λ w. w < 65536)

abbrev pub view : Bytes → Option ℕ → Bytes → ℕ → ℕ → View
view out gap token seen val = record { out = out; gap = gap; token = token; seen = seen; val = val }

length-format : (w : ℕ) → w < 4096 → length (format 16 w) ≤ 3
length-format w h = grind (arith, format_small, format_large)

pub walk-go :
    (ch : ℕ) (rest : Bytes) (v : View) {u : View}
    → advance ch rest v ≡ go u
    → walk (ch ∷ rest) v ≡ walk rest u
unfolding walk
walk-go ch rest v {u} h =
    ap (λ m. elim m [ go x ↦ walk rest x | refuse ↦ none | stop x ↦ some x ]) h

pub read_digit :
    (d : ℕ) (rest : Bytes) (out : Bytes) (gap : Option ℕ) (token : Bytes) (seen val : ℕ)
    → d < 16
    → seen ≤ 3
    → val < 4096
    → advance (digit d) rest (view out gap token seen val)
      ≡ go (view out gap token (seen + 1) (val * 16 + d))
unfolding advance hex_digit_value
read_digit d rest out gap token seen val h k l = ground arith

walk-format :
    (f w : ℕ) (rest out : Bytes) (gap : Option ℕ) (token : Bytes)
    → w < f
    → w < 65536
    → walk (format 16 w ++ rest) (view out gap token 0 0)
      ≡ walk rest (view out gap token (length (format 16 w)) w)
walk-format zero w rest out gap token hf hw = absurd (omega arith)
walk-format (suc f) w rest out gap token hf hw = elim (Bool-cases (ltb w 16)) [
  | inl one ↦
      let small : w < 16 = ground arith in
      rw (format_small 16 w small) (
        walk-go (digit w) rest (view out gap token 0 0)
          (read_digit w rest out gap token 0 0 small (omega arith) (omega arith))
        ∙ ap (λ n. walk rest (view out gap token 1 n)) (zero-add w))
  | inr more ↦
      let large : 16 ≤ w = ltb→ge w 16 more in
      let t = format 16 (w / 16) in
      let d = w % 16 in
      let value : w / 16 * 16 + d ≡ w = omega arith in
      let count : length (t ++ digit d ∷ []) ≡ length t + 1 = length-append {0} t (digit d ∷ []) in
      rw (format_large 16 w (omega arith) large, append_assoc, count)
        (walk-format f (w / 16) (digit d ∷ rest) out gap token (omega arith) (omega arith)
          ∙ walk-go (digit d) rest (view out gap token (length t) (w / 16)) (
              read_digit d rest out gap token (length t) (w / 16) (omega arith)
                (length-format (w / 16) (omega arith)) (omega arith))
          ∙ ap (λ n. walk rest (view out gap token (length t + 1) n)) value)
]

pub format_some : (w : ℕ) → w < 65536 → 0 < length (format 16 w)
format_some w h = grind (arith, format_small, format_large)

-- A colon behind a word stores it,
read_colon :
    (rest out : Bytes) (gap : Option ℕ) (token : Bytes) (seen val : ℕ)
    → 0 < seen
    → rest ≢ []
    → length out + 2 ≤ endp
    → advance b':' rest (view out gap token seen val)
      ≡ go (view (out ++ word_bytes val) gap rest 0 0)
unfolding advance hex_digit_value
read_colon rest out gap token seen val h k l = ground arith

-- and one behind a colon is the ::.
pub read_gap :
    (rest out token : Bytes)
    → advance b':' rest (view out none token 0 0) ≡ go (view out (some (length out)) rest 0 0)
unfolding advance hex_digit_value
read_gap rest out token = ground arith

pub length-words_bytes : (ws : List ℕ) → length (words_bytes ws) ≡ 2 * length ws
length-words_bytes [] = refl
length-words_bytes (w ∷ r) = omega (arith, length-words_bytes r)

pub append-ne-nil : (xs ys : Bytes) → ys ≢ [] → xs ++ ys ≢ []
append-ne-nil [] ys h = h
append-ne-nil (x ∷ xs) ys h = cc

-- A word and the colon behind it.
walk-word :
    (w : ℕ) (rest out : Bytes) (gap : Option ℕ) (token : Bytes)
    → w < 65536
    → rest ≢ []
    → length out + 2 ≤ endp
    → walk (format 16 w ++ b':' ∷ rest) (view out gap token 0 0)
      ≡ walk rest (view (out ++ word_bytes w) gap rest 0 0)
walk-word w rest out gap token h k l =
    walk-format (suc w) w (b':' ∷ rest) out gap token (omega arith) h
    ∙ walk-go b':' rest (view out gap token (length (format 16 w)) w)
        (read_colon rest out gap token (length (format 16 w)) w (format_some w h) k l)

-- Words with a colon behind each are stored, and the token begins behind them.
pub walk-colons :
    (ws : List ℕ) (rest out : Bytes) (gap : Option ℕ)
    → AreWords ws
    → rest ≢ []
    → length out + 2 * length ws ≤ endp
    → walk (colons ws ++ rest) (view out gap (colons ws ++ rest) 0 0)
      ≡ walk rest (view (out ++ words_bytes ws) gap rest 0 0)
walk-colons [] rest out gap h k l = rw append-nil
walk-colons (w ∷ r) rest out gap h k l = rw (append_assoc (format 16 w) (b':' ∷ colons r) rest) (
    walk-word w (colons r ++ rest) out gap _ h.0 (append-ne-nil (colons r) rest k) (omega arith)
    ∙ walk-colons r rest (out ++ word_bytes w) gap h.1 k
        (omega (arith, length-append {0} out (word_bytes w)))
    ∙ ap (λ o. walk rest (view o gap rest 0 0)) (append_assoc out (word_bytes w) (words_bytes r)))

-- What the statements behind the loop make of the bytes read.
abbrev pub ending : Option ℕ → Bytes → Option Bytes
ending gap out = exact (expand (view out gap [] 0 0))

after_last :
    (out : Bytes) (gap : Option ℕ) (token : Bytes) (w : ℕ)
    → w < 65536
    → length out + 2 ≤ endp
    → after_loop (some (view out gap token (length (format 16 w)) w))
      ≡ ending gap (out ++ word_bytes w)
after_last out gap token w h k = ground (arith, format_some w h)

pub groups-ne-nil : (w : ℕ) (r : List ℕ) → w < 65536 → groups (w ∷ r) ≢ []
groups-ne-nil w [] h e = omega (arith, ap length e, format_some w h)
groups-ne-nil w (x ∷ r) h e = append-ne-nil (format 16 w) (b':' ∷ groups (x ∷ r)) (cc) e

-- The words behind the last :: or, without one, all of them.
pub walk-groups :
    (ws : List ℕ) (out : Bytes) (gap : Option ℕ)
    → AreWords ws
    → length out + 2 * length ws ≤ endp
    → after_loop (walk (groups ws) (view out gap (groups ws) 0 0))
      ≡ ending gap (out ++ words_bytes ws)
walk-groups [] out gap h l = unfold walk in ap (ending gap) (sym (append-nil out))
walk-groups (w ∷ []) out gap h l =
    ap (λ t. after_loop (walk t (view out gap (format 16 w) 0 0))) (sym (append-nil (format 16 w)))
    ∙ ap after_loop (walk-format (suc w) w [] out gap _ (omega arith) h.0)
    ∙ unfold walk in after_last out gap _ w h.0 (omega arith)
walk-groups (w ∷ x ∷ r) out gap h l =
    ap after_loop
      (walk-word w (groups (x ∷ r)) out gap _ h.0 (groups-ne-nil x r h.1.0) (omega arith))
    ∙ walk-groups (x ∷ r) (out ++ word_bytes w) gap h.1
        (omega (arith, length-append {0} out (word_bytes w)))
    ∙ ap (ending gap) (append_assoc out (word_bytes w) (words_bytes (x ∷ r)))
