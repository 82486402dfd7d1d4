-- ===== src/Inet/Ntop6/MappedRounds.antt =====
-- The rounds of `inet_ntop6` over the words of an IPv4-mapped address.
use mongo_sgx_client.Base.{
  ℕ, ◌<◌, ◌≡◌, refl, Bytes, List, [], ◌∷◌, ◌++◌, some, arith, length, codes, lt→ltb, next, leave,
}
use mongo_sgx_client.Libc.Laws.{snprintf_fits}
use mongo_sgx_client.Inet.Digits.{format}
use mongo_sgx_client.Inet.Ntop6.{
  Zeros, State, tmp_size, keep_longer, search_word, search_words, best_run, put, put_word, put_quad,
  step, loop,
}

abbrev pub five : Zeros
five = record { base = some 0; len = 5 }

abbrev mapped_words : ℕ → ℕ → List ℕ
mapped_words w6 w7 = 0 ∷ 0 ∷ 0 ∷ 0 ∷ 0 ∷ 0xffff ∷ w6 ∷ w7 ∷ []

-- The five words in front of 0xffff are the longest run, since only two words follow it.
pub best_run-mapped : (w6 w7 : ℕ) → best_run (mapped_words w6 w7) ≡ five
unfolding best_run search_words search_word keep_longer
best_run-mapped w6 w7 = ground arith

pub ffff : format 16 0xffff ≡ codes "ffff"
unfolding format
ffff = refl

module _ (src junk rest : Bytes) (room : length rest ≡ 39) where
  -- A buffer with seven bytes in front of `rest`.
  abbrev pub buffer : ℕ → ℕ → ℕ → ℕ → ℕ → ℕ → ℕ → Bytes
  buffer x0 x1 x2 x3 x4 x5 x6 = x0 ∷ x1 ∷ x2 ∷ x3 ∷ x4 ∷ x5 ∷ x6 ∷ rest

  abbrev state : ℕ → Bytes → State
  state tp tmp = record { tmp = tmp; tp = tp }

  step-base :
      (x0 x1 x2 x3 x4 x5 x6 : ℕ)
      → step src junk five (some 0xffff) 0 0 (state 0 (buffer x0 x1 x2 x3 x4 x5 x6))
        ≡ next (state 1 (buffer b':' x1 x2 x3 x4 x5 x6))
  unfolding step put
  step-base x0 x1 x2 x3 x4 x5 x6 =
      rw (lt→ltb 0 (length (buffer x0 x1 x2 x3 x4 x5 x6)) (omega arith)) refl

  step-inside :
      (i : ℕ) (st : State) → 0 < i → i < 5 → step src junk five (some 0xffff) i 0 st ≡ next st
  unfolding step
  step-inside i st h k = ground arith

  step-ffff :
      (x0 x1 x2 x3 x4 x5 x6 : ℕ)
      → step src junk five (some 0xffff) 5 0xffff (state 1 (buffer x0 x1 x2 x3 x4 x5 x6))
        ≡ next (state 6 (buffer x0 b':' b'f' b'f' b'f' b'f' 0))
  unfolding step put put_word
  step-ffff x0 x1 x2 x3 x4 x5 x6 =
      let m = buffer x0 b':' x2 x3 x4 x5 x6 in
      rw
        (
          lt→ltb 1 (length (buffer x0 x1 x2 x3 x4 x5 x6)) (omega arith),
          ffff,
          snprintf_fits m (codes "ffff") 2 tmp_size (omega arith) (omega arith),
        )
        refl

  step-quad :
      (w x0 x1 x2 x3 x4 x5 x6 : ℕ)
      → step src junk five (some 0xffff) 6 w (state 6 (buffer x0 x1 x2 x3 x4 x5 x6))
        ≡ leave (put_quad src junk (state 7 (buffer x0 x1 x2 x3 x4 x5 b':')))
  unfolding step put
  step-quad w x0 x1 x2 x3 x4 x5 x6 =
      rw (lt→ltb 6 (length (buffer x0 x1 x2 x3 x4 x5 x6)) (omega arith)) refl

  -- The rounds in front of the IPv4 address.
  pub loop-mapped :
      (x0 x1 x2 x3 x4 x5 x6 w6 w7 : ℕ)
      → loop src junk five
          (some 0xffff)
          0
          (mapped_words w6 w7)
          (state 0 (buffer x0 x1 x2 x3 x4 x5 x6))
        ≡ put_quad src junk (state 7 (codes "::ffff:" ++ rest))
  unfolding loop
  loop-mapped x0 x1 x2 x3 x4 x5 x6 w6 w7 =
      let st1 = state 1 (buffer b':' x1 x2 x3 x4 x5 x6) in
      rw
        (
          loop,
          step-base x0 x1 x2 x3 x4 x5 x6,
          step-inside 1 st1 (omega arith) (omega arith),
          step-inside 2 st1 (omega arith) (omega arith),
          step-inside 3 st1 (omega arith) (omega arith),
          step-inside 4 st1 (omega arith) (omega arith),
          step-ffff b':' x1 x2 x3 x4 x5 x6,
          step-quad w6 b':' b':' b'f' b'f' b'f' b'f' 0,
        )
        refl
