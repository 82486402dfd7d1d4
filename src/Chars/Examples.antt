-- ===== src/Chars/Examples.antt =====
-- The theorems about the tables at concrete characters.
use mongo_sgx_client.Base.{◌≡◌, done}
use mongo_sgx_client.Base.Integers.{pos}
use mongo_sgx_client.Chars.{ctype_b, ctype_tolower}
use mongo_sgx_client.Chars.Ascii.{ctype_b-described, ctype_tolower-described}

ctype_b-described_example : ctype_b (pos b'7') ≡ done 0xd808
ctype_b-described_example = ctype_b-described (pos b'7')

lower_q : ctype_tolower (pos b'Q') ≡ done b'q'
lower_q = ctype_tolower-described (pos b'Q')
