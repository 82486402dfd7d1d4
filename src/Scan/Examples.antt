-- ===== src/Scan/Examples.antt =====
-- The theorems about `vsscanf` at concrete texts and formats.
use mongo_sgx_client.Base.{◌≡◌, refl, List, [], ◌∷◌, ◌++◌, codes, done, arith}
use mongo_sgx_client.Base.Integers.{pos, negsuc}
use mongo_sgx_client.Inet.Digits.{format}
use mongo_sgx_client.Scan.{to_int, to_char, int_value, char_value, vsscanf}
use mongo_sgx_client.Scan.Shorts.{at_nul, at_digit, at_other}
use mongo_sgx_client.Scan.Rounds.{here, later}
use mongo_sgx_client.Scan.Ends.{Returned, vsscanf_returns}
use mongo_sgx_client.Scan.Stores.{Answers, vsscanf-Answers}
use mongo_sgx_client.Scan.RoundTrip.{Part, plain, integer, character, Readable, vsscanf-print}

abbrev parts : List Part
parts = integer (negsuc 16) ∷ plain b'.' ∷ integer (pos 2147483647) ∷ character b'x' ∷ []

parts-Readable : Readable parts b'!'
unfolding format
parts-Readable = ground arith

vsscanf-print_example :
    vsscanf
      (codes "-17.2147483647x!" ++ 0 ∷ [])
      (codes "%d.%d%c" ++ 0 ∷ [])
      (to_int ∷ to_int ∷ to_char ∷ [])
    ≡ done (3, int_value (negsuc 16) ∷ int_value (pos 2147483647) ∷ char_value b'x' ∷ [])
unfolding format
vsscanf-print_example = vsscanf-print parts b'!' (0 ∷ []) [] parts-Readable

vsscanf-Answers_example :
    Answers (to_int ∷ to_char ∷ to_char ∷ []) (
      vsscanf
        (codes "12x." ++ 0 ∷ [])
        (codes "%d%c:%c" ++ 0 ∷ [])
        (to_int ∷ to_char ∷ to_char ∷ []))
vsscanf-Answers_example =
    vsscanf-Answers (codes "12x." ++ 0 ∷ []) (codes "%d%c:%c" ++ 0 ∷ [])
      (to_int ∷ to_char ∷ to_char ∷ [])

vsscanf_returns_example :
    Returned
      (vsscanf (codes "-12:x" ++ 0 ∷ []) (codes "%d:%d" ++ 0 ∷ []) (to_int ∷ to_int ∷ to_char ∷ []))
vsscanf_returns_example =
    vsscanf_returns (codes "-12:x" ++ 0 ∷ []) (codes "%d:%d" ++ 0 ∷ []) (to_char ∷ [])
      (at_other refl (at_digit refl (at_digit refl (at_other refl (at_other refl at_nul)))))
      (later (later (later (later (later here)))))
