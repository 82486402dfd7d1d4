-- ===== src/Inet/Ntop6/Longest.antt =====
-- The run that the search of `inet_ntop6` finds, against all the runs of zero words.
use mongo_sgx_client.Base.{
  ℕ, zero, suc, ◌+◌, ◌≤◌, ◌<◌, ◌≡◌, refl, sym, ◌∙◌, ap, false, List, [], ◌∷◌, ◌++◌, append-nil,
  append_assoc, none, some, arith, ◌==◌, ltb, length, length-append, subst, ◌⊎◌, inl, inr,
  Bool-cases, ltb→ge, ltb→lt, ◌-◌, Option-cases, get_elem?,
}
use mongo_sgx_client.Inet.Ntop6.{Zeros, Search, keep_longer, search_word, search_words, best_run}
use mongo_sgx_client.Inet.Ntop6.Best.{IsRun, best_run-IsRun}
use mongo_sgx_client.Inet.Ntop6.Ahead.{
  Ahead, InTail, IsAt, keep_longer-Ahead, other-IsAt, zero-IsAt,
}

-- Each of the `n` words from the number `b` on is a zero.
abbrev pub AreZeros : List ℕ → ℕ → ℕ → Type 0
AreZeros ws b n = (i : ℕ) → b ≤ i → i < b + n → get_elem? ws i ≡ some 0

-- Each run of zeros up to there is a part of the one that goes on, or one has been found that is no worse.
abbrev Covers : List ℕ → Search → Type 0
Covers ws s =
    (b n : ℕ) → 0 < n → AreZeros ws b n → InTail s b n ⊎ (Ahead s.best b n × (b + n < length ws))

get_elem?_bound : (ws : List ℕ) (i v : ℕ) → get_elem? ws i ≡ some v → i < length ws
get_elem?_bound [] i v e = absurd (cc e)
get_elem?_bound (w ∷ ws) zero v e = omega arith
get_elem?_bound (w ∷ ws) (suc i) v e = omega (arith, get_elem?_bound ws i v e)

get_elem?-snoc :
    (ws : List ℕ) (w i : ℕ) → i < length ws → get_elem? (ws ++ w ∷ []) i ≡ get_elem? ws i
get_elem?-snoc [] w i h = absurd (omega (arith, h))
get_elem?-snoc (x ∷ ws) w zero h = refl
get_elem?-snoc (x ∷ ws) w (suc i) h = get_elem?-snoc ws w i (omega (arith, h))

get_elem?-last : (ws : List ℕ) (w : ℕ) → get_elem? (ws ++ w ∷ []) (length ws) ≡ some w
get_elem?-last [] w = refl
get_elem?-last (x ∷ ws) w = get_elem?-last ws w

-- The zeros of a run that reaches no further than the words in front of the last.
AreZeros-front :
    (ws : List ℕ) (w b n m : ℕ)
    → m ≤ n
    → b + m ≤ length ws
    → AreZeros (ws ++ w ∷ []) b n
    → AreZeros ws b m
AreZeros-front ws w b n m less fits z i from to =
    sym (get_elem?-snoc ws w i (omega (arith, fits, to))) ∙ z i from (omega (arith, to, less))

AreZeros-bound : (ws : List ℕ) (b n : ℕ) → 0 < n → AreZeros ws b n → b + n ≤ length ws
AreZeros-bound ws b n some_word z =
    let last =
      get_elem?_bound ws (b + (n - 1)) 0
        (z (b + (n - 1)) (omega arith) (omega (arith, some_word))) in
    omega (arith, last, some_word)

other-Covers :
    (ws : List ℕ) (w : ℕ) (s : Search)
    → (w == 0) ≡ false
    → IsAt s (length ws)
    → Covers ws s
    → Covers (ws ++ w ∷ []) (search_word (length ws) w s)
unfolding search_word
other-Covers ws w s e at covers b n some_word z =
    let size = length-append {0} ws (w ∷ []) in
    let bound = AreZeros-bound (ws ++ w ∷ []) b n some_word z in
    elim (Bool-cases (ltb (length ws) (b + n))) [
      | inl beyond ↦
          let past : length ws < b + n = ltb→lt (length ws) (b + n) beyond in
          let zero_there = z (length ws) (omega (arith, bound, size)) past in
          absurd (ground (arith, e, zero_there, get_elem?-last ws w))
      | inr within ↦
          let fits : b + n ≤ length ws = ltb→ge (length ws) (b + n) within in
          let known = covers b n some_word (AreZeros-front ws w b n n (omega arith) fits z) in
          rw (search_word, e)
            (inr (keep_longer-Ahead s (length ws) b n at known, omega (arith, fits, size)))
    ]

-- A run that goes on does so over a zero more,
zero-InTail : (s : Search) (i b n : ℕ) → InTail s b n → InTail (search_word i 0 s) b n
unfolding search_word
zero-InTail s i b n (c, e, from, to) = rw (search_word, e) (c, refl, from, omega (arith, to))

zero-Ahead : (s : Search) (i b n : ℕ) → Ahead s.best b n → Ahead (search_word i 0 s).best b n
unfolding search_word
zero-Ahead s i b n h = elim (Option-cases s.cur.base) [
  | inl no_run ↦ rw (search_word, no_run) h
  | inr (c, run) ↦ rw (search_word, run) h
]

-- and takes up one that ends with the zero.
last-InTail :
    (ws : List ℕ) (s : Search) (b n : ℕ)
    → IsAt s (length ws)
    → Covers ws s
    → AreZeros (ws ++ 0 ∷ []) b (suc n)
    → b + n ≡ length ws
    → InTail (search_word (length ws) 0 s) b (suc n)
unfolding search_word
last-InTail ws s b zero at covers z to = elim (Option-cases s.cur.base) [
  | inl no_run ↦ rw (search_word, no_run) (length ws, refl, omega (arith, to), omega (arith, to))
  | inr (c, run) ↦
      let ends = at.ends c run in
      rw (search_word, run) (c, refl, omega (arith, to, ends), omega (arith, to, ends))
]
last-InTail ws s b (suc n) at covers z to =
    elim (covers b (suc n) (omega arith)
      (AreZeros-front ws 0 b (suc (suc n)) (suc n) (omega arith) (omega (arith, to)) z)) [
        | inl (c, run, from, less) ↦ rw (search_word, run) (c, refl, from, omega (arith, less))
        | inr (ahead, before) ↦ absurd (omega (arith, before, to))
      ]

zero-Covers :
    (ws : List ℕ) (s : Search)
    → IsAt s (length ws)
    → Covers ws s
    → Covers (ws ++ 0 ∷ []) (search_word (length ws) 0 s)
zero-Covers ws s at covers b zero some_word z = absurd (omega (arith, some_word))
zero-Covers ws s at covers b (suc n) some_word z =
    let size = length-append {0} ws (0 ∷ []) in
    let bound = AreZeros-bound (ws ++ 0 ∷ []) b (suc n) some_word z in
    elim (Bool-cases (ltb (length ws) (b + suc n))) [
      | inl beyond ↦
          let past : length ws < b + suc n = ltb→lt (length ws) (b + suc n) beyond in
          inl (last-InTail ws s b n at covers z (omega (arith, bound, size, past)))
      | inr within ↦
          let fits : b + suc n ≤ length ws = ltb→ge (length ws) (b + suc n) within in
          elim (covers b (suc n) some_word
            (AreZeros-front ws 0 b (suc n) (suc n) (omega arith) fits z)) [
              | inl tail ↦ inl (zero-InTail s (length ws) b (suc n) tail)
              | inr (ahead, to) ↦
                  inr (zero-Ahead s (length ws) b (suc n) ahead, omega (arith, to, size))
            ]
    ]

-- Both, at a word and behind some words.
record IsSearched (ws : List ℕ) (s : Search) : Type 0 where
  at : IsAt s (length ws)
  covers : Covers ws s

search_word-IsSearched :
    (ws : List ℕ) (w : ℕ) (s : Search)
    → IsSearched ws s
    → IsSearched (ws ++ w ∷ []) (search_word (length ws) w s)
search_word-IsSearched ws zero s h = record {
  at = subst (IsAt _) (sym (length-append {0} ws (0 ∷ []))) (zero-IsAt s (length ws) h.at);
  covers = zero-Covers ws s h.at h.covers;
}
search_word-IsSearched ws (suc w) s h =
    let other : (suc w == 0) ≡ false = ground arith in
    record {
      at =
          subst (IsAt _) (sym (length-append {0} ws (suc w ∷ [])))
            (other-IsAt s (length ws) (suc w) other h.at);
      covers = other-Covers ws (suc w) s other h.at h.covers;
    }

search_words-IsSearched :
    (ws rest : List ℕ) (i : ℕ) (s : Search)
    → i ≡ length ws
    → IsSearched ws s
    → IsSearched (ws ++ rest) (search_words i rest s)
unfolding search_words
search_words-IsSearched ws [] i s at h = rw append-nil h
search_words-IsSearched ws (w ∷ rest) i s at h =
    subst (λ t. IsSearched t (search_words i (w ∷ rest) s)) (append_assoc ws (w ∷ []) rest)
      (search_words-IsSearched (ws ++ w ∷ []) rest (i + 1) (search_word i w s)
        (omega (arith, length-append {0} ws (w ∷ []))) (rw at (search_word-IsSearched ws w s h)))

abbrev none_yet : Zeros
none_yet = record { base = none; len = 0 }

nothing-IsSearched : IsSearched [] (record { best = none_yet; cur = none_yet })
nothing-IsSearched = record {
  at = record {
    ends = λ c e. absurd (cc e);
    before = λ b e. absurd (cc e);
    order = λ b c e f. absurd (cc e);
  };
  covers = λ b n some_word z. absurd (cc (z b (omega arith) (omega (arith, some_word))));
}

-- Where two or more zero words stand in a row in the words, the search of `inet_ntop6` finds a run of zero
-- words that stands where it says, is no shorter than theirs, and begins no later if it is as long: it
-- is the first of the longest.
pub best_run_first_longest :
    (ws : List ℕ) (b n : ℕ)
    → 2 ≤ n
    → AreZeros ws b n
    → (c : ℕ) × ((best_run ws).base ≡ some c)
      × IsRun ws (some c) (best_run ws).len
      × (n ≤ (best_run ws).len)
      × (n ≡ (best_run ws).len → c ≤ b)
unfolding best_run
best_run_first_longest ws b n two z =
    let s = search_words 0 ws (record { best = none_yet; cur = none_yet }) in
    let h =
      search_words-IsSearched [] ws 0 (record { best = none_yet; cur = none_yet }) refl
        nothing-IsSearched in
    let (c, e, size, first) =
      keep_longer-Ahead s (length ws) b n h.at (h.covers b n (omega (arith, two)) z) in
    let stays : best_run ws ≡ keep_longer s = ground (arith, size, two) in
    let run = (best_run-IsRun ws).0 in
    let base : (best_run ws).base ≡ some c = ap (λ r. r.base) stays ∙ e in
    (c, base, subst (λ o. IsRun ws o (best_run ws).len) base run, rw stays size, rw stays first)
