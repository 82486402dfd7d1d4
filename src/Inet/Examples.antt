-- ===== src/Inet/Examples.antt =====
-- The theorems about trusted/inet_pton_ntop.c applied to concrete addresses.
use mongo_sgx_client.Base.{
  ℕ, ◌+◌, ◌-◌, ◌≤◌, ◌<◌, ◌≡◌, refl, Bytes, List, [], ◌∷◌, ◌++◌, none, some, arith, codes, done,
  fault, length, drop, replicate, ◌↔◌, ltb, if◌then◌else◌, Bool-cases, inl, inr, ◌==◌,
}
use mongo_sgx_client.Inet.Digits.{format}
use mongo_sgx_client.Inet.Pton4.{inet_pton4}
use mongo_sgx_client.Inet.Pton4.Texts.{joined, IsAddress, AreBytes}
use mongo_sgx_client.Inet.Pton4.Accepts.{inet_pton4_exact}
use mongo_sgx_client.Inet.Ntop4.{inet_ntop4}
use mongo_sgx_client.Inet.Ntop4.Text.{inet_ntop4_lem}
use mongo_sgx_client.Inet.Pton6.{inet_pton6}
use mongo_sgx_client.Inet.Pton6.Walk.{read_address}
use mongo_sgx_client.Inet.Pton6.Refines.{inet_pton6-read_address}
use mongo_sgx_client.Inet.Pton6.Groups.{words_bytes, AreWords}
use mongo_sgx_client.Inet.Pton6.Texts.{inet_pton6-groups, inet_pton6-with_gap, inet_pton6-embedded}
use mongo_sgx_client.Inet.Ntop6.{
  tmp_size, words_of, keep_longer, search_word, search_words, best_run, inet_ntop6,
}
use mongo_sgx_client.Inet.Ntop6.Best.{IsRun}
use mongo_sgx_client.Inet.Ntop6.Longest.{AreZeros, best_run_first_longest}
use mongo_sgx_client.Inet.Ntop6.Text.{presentation}
use mongo_sgx_client.Inet.Ntop6.Copy.{stored, inet_ntop6-stored}
use mongo_sgx_client.Inet.Ntop6.RoundTrip.{
  text_of, IsPlain, inet_pton6-inet_ntop6, inet_ntop6_overflow,
}
use mongo_sgx_client.Inet.Ntop6.Mapped.{
  mapped_address, inet_pton6-inet_ntop6_mapped, inet_ntop6-mapped_fault,
}
use mongo_sgx_client.Inet.Convert.{valid, af_inet, af_inet6, inet_pton, inet_ntop}
use mongo_sgx_client.Inet.Convert.Laws.{Answers, inet_pton-Answers}
use mongo_sgx_client.Inet.Convert.RoundTrip.{inet_pton-inet_ntop}

-- What buffers of four, sixteen and 46 bytes hold first.
abbrev sevens : ℕ → Bytes
sevens n = replicate n 7

abbrev quad : Bytes
quad = 192 ∷ 168 ∷ 0 ∷ 1 ∷ []

quad-IsAddress : IsAddress quad
quad-IsAddress = (refl, ground arith)

abbrev quad_text : Bytes
quad_text = codes "192.168.0.1"

abbrev address : Bytes
address = 32 ∷ 1 ∷ 13 ∷ 184 ∷ replicate 10 0 ++ 0 ∷ 1 ∷ []

address-AreBytes : AreBytes address
address-AreBytes = ground arith

address-IsPlain : IsPlain address
unfolding words_of best_run search_words search_word keep_longer
address-IsPlain = refl

text_fits : length (text_of address) + 1 ≤ 60
unfolding words_of best_run search_words search_word keep_longer format
text_fits = omega arith

abbrev words : List ℕ
words = words_of address

words-AreWords : AreWords words
unfolding words_of
words-AreWords = ground arith

words-length : length words ≡ 8
unfolding words_of
words-length = refl

inet_pton6-inet_ntop6_example :
    (t : Bytes) × (inet_ntop6 address (sevens 46) (sevens 16) (sevens 50) 46
      ≡ done (some (t ++ replicate (tmp_size - length t) 0 ++ drop tmp_size (sevens 50))))
    × (inet_pton6 t (sevens 4) ≡ done (some address))
inet_pton6-inet_ntop6_example =
    inet_pton6-inet_ntop6 address (sevens 46) (sevens 16) (sevens 4) (sevens 50) 46 address-AreBytes
      refl refl address-IsPlain (omega arith) (omega arith) refl

inet_ntop6_overflow_example : inet_ntop6 address (sevens 46) (sevens 16) (sevens 45) 60 ≡ fault
inet_ntop6_overflow_example =
    inet_ntop6_overflow address (sevens 46) (sevens 16) (sevens 4) (sevens 45) 60 address-AreBytes
      refl refl address-IsPlain (omega arith) text_fits

inet_pton6-read_address_example :
    inet_pton6 (codes "fe80::1:192.168.0.1") (sevens 4)
    ≡ done (read_address (codes "fe80::1:192.168.0.1"))
inet_pton6-read_address_example =
    inet_pton6-read_address (codes "fe80::1:192.168.0.1") (sevens 4) refl

inet_pton4_exact_example :
    (inet_pton4 quad_text (sevens 4) ≡ done (some quad))
    ↔ ((quad_text ≡ joined quad) × IsAddress quad)
inet_pton4_exact_example = inet_pton4_exact quad_text (sevens 4) quad refl

-- Two zero words stand at 1, two more at 4.
abbrev two_runs : List ℕ
two_runs = 1 ∷ 0 ∷ 0 ∷ 2 ∷ 0 ∷ 0 ∷ 3 ∷ 4 ∷ []

four_and_five : AreZeros two_runs 4 2
four_and_five i from to = elim (Bool-cases (i == 4)) [
  | inl four ↦ let same : i ≡ 4 = ground (arith, four) in rw same refl
  | inr more ↦ let same : i ≡ 5 = ground (arith, more, from, to) in rw same refl
]

best_run_first_longest_example :
    (c : ℕ) × ((best_run two_runs).base ≡ some c)
    × IsRun two_runs (some c) (best_run two_runs).len
    × (2 ≤ (best_run two_runs).len)
    × (2 ≡ (best_run two_runs).len → c ≤ 4)
best_run_first_longest_example = best_run_first_longest two_runs 4 2 (omega arith) four_and_five

inet_ntop6-stored_example : inet_ntop6 address (sevens 46) (sevens 16) (sevens 50) 20 ≡ (
    if ltb 20 (length (presentation (best_run words) words) + 1)
    then done none
    else stored (sevens 50) (presentation (best_run words) words))
inet_ntop6-stored_example =
    inet_ntop6-stored address (sevens 46) (sevens 16) (sevens 50) 20 words-AreWords words-length
      refl address-IsPlain

inet_pton6-inet_ntop6_mapped_example :
    (inet_ntop6
        (mapped_address quad)
        (sevens 7 ++ (sevens 11 ++ 0 ∷ sevens 27))
        (sevens 16)
        (sevens 46)
        46
      ≡ done (some (codes "::ffff:192.168.0.1" ++ replicate 28 0)))
    × (inet_pton6 (codes "::ffff:192.168.0.1") (sevens 4) ≡ done (some (mapped_address quad)))
unfolding format
inet_pton6-inet_ntop6_mapped_example =
    inet_pton6-inet_ntop6_mapped quad (sevens 7) (sevens 11) (sevens 16) (sevens 46) 46
      quad-IsAddress refl refl refl (sevens 27) (sevens 4) refl (omega arith) (omega arith) refl

inet_ntop6-mapped_fault_example :
    inet_ntop6
      (mapped_address quad)
      (sevens 7 ++ (sevens 11 ++ sevens 28))
      (sevens 16)
      (sevens 46)
      46
    ≡ fault
unfolding format
inet_ntop6-mapped_fault_example =
    inet_ntop6-mapped_fault quad (sevens 7) (sevens 11) (sevens 16) (sevens 46) 46 quad-IsAddress
      refl refl refl (sevens 28) refl (ground arith)

inet_ntop4_lem_example :
    (11 ≤ 11 → inet_ntop4 quad (sevens 16) (sevens 20) 3 11 ≡ done none)
    × (11 < 11
        → 14 ≤ 20
        → inet_ntop4 quad (sevens 16) (sevens 20) 3 11
          ≡ done (some (sevens 3 ++ quad_text ++ sevens 6)))
unfolding format
inet_ntop4_lem_example = inet_ntop4_lem quad (sevens 16) (sevens 20) 3 11 quad-IsAddress refl

inet_pton6-groups_example :
    inet_pton6 (codes "1:2:3:4:5:6:7:ffff") (sevens 4)
    ≡ done (some (words_bytes (1 ∷ 2 ∷ 3 ∷ 4 ∷ 5 ∷ 6 ∷ 7 ∷ 0xffff ∷ [])))
unfolding format
inet_pton6-groups_example =
    inet_pton6-groups (sevens 4) refl (1 ∷ 2 ∷ 3 ∷ 4 ∷ 5 ∷ 6 ∷ 7 ∷ 0xffff ∷ []) (ground arith) refl

inet_pton6-with_gap_example :
    inet_pton6 (codes "fe80::1:2") (sevens 4)
    ≡ done (some (254 ∷ 128 ∷ replicate 10 0 ++ 0 ∷ 1 ∷ 0 ∷ 2 ∷ []))
unfolding format
inet_pton6-with_gap_example =
    inet_pton6-with_gap (sevens 4) refl (0xfe80 ∷ []) (1 ∷ 2 ∷ []) (ground arith) (ground arith)
      (omega arith)

inet_pton6-embedded_example :
    inet_pton6 (codes "fe80::1:192.168.0.1") (sevens 4)
    ≡ done (some (254 ∷ 128 ∷ replicate 8 0 ++ 0 ∷ 1 ∷ quad))
unfolding format
inet_pton6-embedded_example =
    inet_pton6-embedded (sevens 4) refl (0xfe80 ∷ []) (1 ∷ []) quad (ground arith) (ground arith)
      quad-IsAddress (omega arith)

inet_pton-Answers_example :
    Answers af_inet6
      (sevens 20)
      (inet_pton af_inet6 (codes "::1" ++ 0 ∷ sevens 3) (sevens 20) (sevens 4))
inet_pton-Answers_example =
    inet_pton-Answers af_inet6 (codes "::1") (sevens 3) (sevens 20) (sevens 4) (ground arith) refl
      (omega arith)

inet_pton-inet_ntop_example :
    (m : Bytes) × (inet_ntop af_inet quad (sevens 11 ++ 0 ∷ sevens 4) 16 (sevens 16) (sevens 46)
      ≡ done (some m))
    × (inet_pton af_inet m (sevens 6) (sevens 4) ≡ done (valid, quad ++ sevens 2))
unfolding format
inet_pton-inet_ntop_example =
    inet_pton-inet_ntop quad (sevens 16) (sevens 46) (sevens 11) (sevens 4) (sevens 6) (sevens 4) 16
      quad-IsAddress refl refl (omega arith) (omega arith) refl
