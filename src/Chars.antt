-- ===== src/Chars.antt =====
-- The character tables of trusted/ssl_wrappers.c, for the code that was compiled against the macros of
-- another C library: `__ctype_b_loc` and `__ctype_tolower_loc`.
pub mod Ascii
mod Examples
use Prim.Native.Nat.{bit_or}
use mongo_sgx_client.Base.{
  ℕ, zero, suc, ◌+◌, ◌-◌, ◌*◌, ◌/◌, ◌%◌, ◌≡◌, refl, List, [], ◌∷◌, ◌++◌, length, replicate, map,
  codes, none, some, get_elem?, ltb, if◌then◌else◌, Run, done, fault,
}
use mongo_sgx_client.Base.Integers.{ℤ, pos, negsuc}

-- The macro X on a machine that is not big endian: the two bytes in the other order.
abbrev pub swapped : ℕ → ℕ
swapped x = bit_or (x / 256) (x * 256) % 65536

-- The entries of the characters from 0 to 127, as the arguments of X.
abbrev pub ascii_classes : List ℕ
ascii_classes =
    replicate 9 0x200
    ++ 0x320 ∷ 0x220 ∷ 0x220 ∷ 0x220 ∷ 0x220 ∷ []
    ++ replicate 18 0x200
    ++ 0x160 ∷ []
    ++ replicate 15 0x4c0
    ++ replicate 10 0x8d8
    ++ replicate 7 0x4c0
    ++ replicate 6 0x8d5
    ++ replicate 20 0x8c5
    ++ replicate 6 0x4c0
    ++ replicate 6 0x8d6
    ++ replicate 20 0x8c6
    ++ replicate 4 0x4c0
    ++ 0x200 ∷ []

unfoldable pub table : List ℕ
table = replicate 128 0 ++ map swapped ascii_classes ++ replicate 128 0

-- The `n` numbers from `first` on.
abbrev pub counting : ℕ → ℕ → List ℕ
counting first zero = []
counting first (suc n) = first ∷ counting (first + 1) n

unfoldable pub table2 : List ℕ
table2 =
    replicate 128 0
    ++ counting 0 65
    ++ codes "abcdefghijklmnopqrstuvwxyz"
    ++ counting 91 6
    ++ codes "abcdefghijklmnopqrstuvwxyz"
    ++ counting 123 5
    ++ replicate 128 0

-- `p[c]` where `p` points 128 entries behind the first of the table.
unfoldable pub entry : List ℕ → ℤ → Run ℕ
entry t (pos c) = elim (get_elem? t (128 + c)) [ none ↦ fault | some v ↦ done v ]
entry t (negsuc n) =
    if ltb n 128 then elim (get_elem? t (127 - n)) [ none ↦ fault | some v ↦ done v ] else fault

-- `(*__ctype_b_loc())[c]`.
abbrev pub ctype_b : ℤ → Run ℕ
ctype_b c = entry table c

-- `(*__ctype_tolower_loc())[c]`.
abbrev pub ctype_tolower : ℤ → Run ℕ
ctype_tolower c = entry table2 c

entries : (length table ≡ 384) × (length table2 ≡ 384)
unfolding table table2
entries = (refl, refl)
