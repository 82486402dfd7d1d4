-- ===== src/Inet/Ntop6/Best.antt =====
-- The search of `inet_ntop6` for a run of zero words.
use native.Mathlib.Numerals.{add-one}
use mongo_sgx_client.Base.{
  ℕ, zero, suc, ◌+◌, ◌≤◌, ◌≡◌, refl, sym, ◌∙◌, ap, false, List, [], ◌∷◌, ◌++◌, append-nil,
  append_assoc, Option, none, some, arith, ◌==◌, length, replicate, length-append, subst, ◌⊎◌,
}
use mongo_sgx_client.Inet.Ntop6.{Zeros, Search, keep_longer, search_word, search_words, best_run}

-- The words are some words, the zeros of the run, and some more words.
abbrev pub IsRun : List ℕ → Option ℕ → ℕ → Type 0
IsRun ws none len = Unit
IsRun ws (some b) len =
    (hs : List ℕ) × (ts : List ℕ) × (ws ≡ hs ++ (replicate len 0 ++ ts)) × (length hs ≡ b)

-- The words end with the zeros of the run.
abbrev IsTail : List ℕ → Option ℕ → ℕ → Type 0
IsTail ws none len = Unit
IsTail ws (some b) len = (hs : List ℕ) × (ws ≡ hs ++ replicate len 0) × (length hs ≡ b)

record IsValid (ws : List ℕ) (s : Search) : Type 0 where
  best_ok : IsRun ws s.best.base s.best.len
  cur_ok : IsTail ws s.cur.base s.cur.len

replicate-suc : (n a : ℕ) → replicate (suc n) a ≡ replicate n a ++ a ∷ []
replicate-suc zero a = refl
replicate-suc (suc n) a = ap (λ t. a ∷ t) (replicate-suc n a)

replicate-snoc : (n a : ℕ) → replicate (n + 1) a ≡ replicate n a ++ a ∷ []
replicate-snoc n a = rw add-one (replicate-suc n a)

IsRun-snoc :
    (ws : List ℕ) (w : ℕ) (o : Option ℕ) (len : ℕ) → IsRun ws o len → IsRun (ws ++ w ∷ []) o len
IsRun-snoc ws w none len h = tt
IsRun-snoc ws w (some b) len (hs, ts, e, at) =
    (hs, ts ++ w ∷ [], ap (λ t. t ++ w ∷ []) e ∙ simp append_assoc, at)

-- A zero makes the current run longer,
IsTail-snoc :
    (ws : List ℕ) (b len : ℕ) → IsTail ws (some b) len → IsTail (ws ++ 0 ∷ []) (some b) (len + 1)
IsTail-snoc ws b len (hs, e, at) = (
  hs,
  ap (λ t. t ++ 0 ∷ []) e
      ∙ append_assoc hs (replicate len 0) (0 ∷ [])
      ∙ ap (λ t. hs ++ t) (sym (replicate-snoc len 0)),
  at,
)

-- and any run that the words end with is a run in them.
IsTail-IsRun : (ws : List ℕ) (b len : ℕ) → IsTail ws (some b) len → IsRun ws (some b) len
IsTail-IsRun ws b len (hs, e, at) =
    (hs, [], e ∙ ap (λ t. hs ++ t) (sym (append-nil (replicate len 0))), at)

keep_longer-IsRun :
    (ws : List ℕ) (s : Search) → IsValid ws s → IsRun ws (keep_longer s).base (keep_longer s).len
unfolding keep_longer
keep_longer-IsRun ws s v = choose s.cur.base refl
  where
    choose : (o : Option ℕ) → s.cur.base ≡ o → IsRun ws (keep_longer s).base (keep_longer s).len
    choose none e = ground (arith, e, v.best_ok)
    choose (some b) e = ground (arith, e, v.best_ok, IsTail-IsRun ws b s.cur.len)

search_zero :
    (ws : List ℕ) (s : Search) → IsValid ws s → IsValid (ws ++ 0 ∷ []) (search_word (length ws) 0 s)
unfolding search_word
search_zero ws s v = choose s.cur.base refl
  where
    kept : IsRun (ws ++ 0 ∷ []) s.best.base s.best.len
    kept = IsRun-snoc ws 0 s.best.base s.best.len v.best_ok

    choose : (o : Option ℕ) → s.cur.base ≡ o → IsValid (ws ++ 0 ∷ []) (search_word (length ws) 0 s)
    choose none e = rw (e, search_word) (record { best_ok = kept; cur_ok = (ws, refl, refl) })
    choose (some b) e =
        rw (e, search_word)
          (record {
            best_ok = kept;
            cur_ok = IsTail-snoc ws b s.cur.len (subst (λ o. IsTail ws o s.cur.len) e v.cur_ok);
          })

search_word-IsValid :
    (ws : List ℕ) (w : ℕ) (s : Search)
    → IsValid ws s
    → IsValid (ws ++ w ∷ []) (search_word (length ws) w s)
search_word-IsValid ws zero s v = search_zero ws s v
search_word-IsValid ws (suc w) s v =
    let test : (suc w == 0) ≡ false = ground arith in
    unfold search_word in
    rw (test, search_word)
      (record {
        best_ok =
            IsRun-snoc ws (suc w) (keep_longer s).base (keep_longer s).len
              (keep_longer-IsRun ws s v);
        cur_ok = tt;
      })

search_words-IsValid :
    (ws rest : List ℕ) (i : ℕ) (s : Search)
    → i ≡ length ws
    → IsValid ws s
    → IsValid (ws ++ rest) (search_words i rest s)
unfolding search_words
search_words-IsValid ws [] i s at v = rw append-nil v
search_words-IsValid ws (w ∷ rest) i s at v =
    subst (λ t. IsValid t (search_words i (w ∷ rest) s)) (append_assoc ws (w ∷ []) rest)
      (search_words-IsValid (ws ++ w ∷ []) rest (i + 1) (search_word i w s)
        (omega (arith, length-append {0} ws (w ∷ []))) (rw at (search_word-IsValid ws w s v)))

-- What the search of `inet_ntop6` finds in any words is a run of zero words that stands in them
-- where it says, and has at least two words; or it finds none.
pub best_run-IsRun :
    (ws : List ℕ)
    → IsRun ws (best_run ws).base (best_run ws).len
      × (((best_run ws).base ≡ none) ⊎ (2 ≤ (best_run ws).len))
unfolding best_run
best_run-IsRun ws =
    let none_yet : Zeros = record { base = none; len = 0 } in
    let s = search_words 0 ws (record { best = none_yet; cur = none_yet }) in
    let v =
      search_words-IsValid [] ws 0 (record { best = none_yet; cur = none_yet }) refl
        (record { best_ok = tt; cur_ok = tt }) in
    ground (arith, keep_longer-IsRun ws s v)
