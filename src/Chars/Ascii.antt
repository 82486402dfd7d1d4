-- ===== src/Chars/Ascii.antt =====
-- The tables describe the characters of ASCII.
use mongo_sgx_client.Base.{
  ℕ, zero, suc, ◌+◌, ◌-◌, ◌≤◌, ◌<◌, ◌≡◌, refl, Bool, true, false, ◌&&◌, ◌||◌, not, List, [], ◌∷◌,
  length, none, some, get_elem?, ltb, leb, ◌==◌, if◌then◌else◌, Run, done, fault, arith,
}
use mongo_sgx_client.Base.Bits.{range_holds, range_holds_at}
use mongo_sgx_client.Base.Integers.{ℤ, pos, negsuc}
use mongo_sgx_client.Chars.{table, table2, entry, ctype_b, ctype_tolower}

abbrev pub between : ℕ → ℕ → ℕ → Bool
between low high c = leb low c && leb c high

abbrev pub is_alpha : ℕ → Bool
is_alpha c = between b'A' b'Z' c || between b'a' b'z' c

abbrev pub is_digit : ℕ → Bool
is_digit c = between b'0' b'9' c

abbrev is_hex : ℕ → Bool
is_hex c = is_digit c || between b'A' b'F' c || between b'a' b'f' c

abbrev is_alnum : ℕ → Bool
is_alnum c = is_alpha c || is_digit c

abbrev is_graph : ℕ → Bool
is_graph c = between 33 126 c

abbrev flag : Bool → ℕ → ℕ
flag b n = if b then n else 0

-- The bits that the macros of ctype.h test, by the class of the character: blank, control,
-- punctuation, letter or digit, upper case, lower case, letter, digit, hexadecimal digit, space,
-- printing, and visible.
abbrev pub classes : ℕ → ℕ
classes c =
    flag (c == 9 || c == 32) 1
    + flag (ltb c 32 || c == 127) 2
    + flag (is_graph c && not (is_alnum c)) 4
    + flag (is_alnum c) 8
    + flag (between b'A' b'Z' c) 0x100
    + flag (between b'a' b'z' c) 0x200
    + flag (is_alpha c) 0x400
    + flag (is_digit c) 0x800
    + flag (is_hex c) 0x1000
    + flag (between 9 13 c || c == 32) 0x2000
    + flag (between 32 126 c) 0x4000
    + flag (is_graph c) 0x8000

abbrev pub lower : ℕ → ℕ
lower c = if between b'A' b'Z' c then c + 32 else c

-- A table of `f` for ASCII, with zeros for the other values of a char, signed or not.
abbrev pub described : (ℕ → ℕ) → ℤ → Run ℕ
described f (pos c) = if ltb c 128 then done (f c) else if ltb c 256 then done 0 else fault
described f (negsuc n) = if ltb n 128 then done 0 else fault

abbrev at_index : (ℕ → ℕ) → ℕ → ℕ
at_index f i = if between 128 255 i then f (i - 128) else 0

abbrev is_entry : (ℕ → ℕ) → List ℕ → ℕ → Bool
is_entry f t i = elim (get_elem? t i) [ none ↦ false | some v ↦ v == at_index f i ]

get_elem?-none : (t : List ℕ) (i : ℕ) → length t ≤ i → get_elem? t i ≡ none
get_elem?-none [] i h = refl
get_elem?-none (x ∷ t) zero h = absurd (omega arith)
get_elem?-none (x ∷ t) (suc i) h = get_elem?-none t i (omega arith)

module _ (f : ℕ → ℕ) (t : List ℕ) (whole : length t ≡ 384)
    (every : range_holds (is_entry f t) 384 0 ≡ true) where
  entry_inside : (i : ℕ) → i < 384 → get_elem? t i ≡ some (at_index f i)
  entry_inside i h = ground (arith, range_holds_at (is_entry f t) 384 0 i every)

  entry-described : (c : ℤ) → entry t c ≡ described f c
  unfolding entry
  entry-described (pos c) =
      let shift : 128 + c - 128 ≡ c = omega arith in
      ground (arith, shift, entry_inside (128 + c), get_elem?-none t (128 + c))
  entry-described (negsuc n) = ground (arith, entry_inside (127 - n))

-- For every int, `__ctype_b_loc` gives the classes of the character if it is one of ASCII, no class
-- for the other values of a signed or unsigned char, and an access outside of the table beyond them.
pub ctype_b-described : (c : ℤ) → ctype_b c ≡ described classes c
unfolding table
ctype_b-described c = entry-described classes table refl (unfold range_holds in refl) c

-- For every int, `__ctype_tolower_loc` gives the lower case of a character of ASCII, and zero, not
-- the character, for the other values of a signed or unsigned char, and an access outside of the
-- table beyond them.
pub ctype_tolower-described : (c : ℤ) → ctype_tolower c ≡ described lower c
unfolding table2
ctype_tolower-described c = entry-described lower table2 refl (unfold range_holds in refl) c
