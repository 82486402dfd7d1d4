-- ===== src/Scan.antt =====
-- `vsscanf` of trusted/my_wrappers.c, which `sscanf`, `__isoc99_sscanf` and `sgx_sscanf` call: the
-- conversions %d and %c, and text that has to be there as it stands.
pub mod Digits
pub mod RoundTrip
pub mod Stores
pub mod Shorts
pub mod Rounds
pub mod Ends
mod Examples
use mongo_sgx_client.Base.{
  ℕ, suc, ◌+◌, ◌-◌, ◌≡◌, refl, Bool, true, false, ◌&&◌, ◌||◌, Bytes, List, [], ◌∷◌, ◌++◌, codes,
  ltb, leb, ◌==◌, if◌then◌else◌, Run, done, fault, Round, next, leave, ◌>>=◌, load, drop,
}
use mongo_sgx_client.Base.Integers.{ℤ, pos, negsuc, times, minus, negate}

-- The C library's isdigit and isalpha, on a byte of the text.
abbrev pub isdigit : ℕ → Bool
isdigit c = leb b'0' c && leb c b'9'

abbrev pub isalpha : ℕ → Bool
isalpha c = (leb b'A' c && leb c b'Z') || (leb b'a' c && leb c b'z')

-- The pointers that the caller passes, and what the function stores at them, in their order.
pub data Pointer : Type 0 where
  to_int to_char : Pointer

pub data Stored : Type 0 where
  int_value : ℤ → Stored
  char_value : ℕ → Stored

pub record State : Type 0 where
  pub str : Bytes
  pub args : List Pointer
  pub stored : List Stored
  pub val_cnt : ℕ

-- What a round leaves: `break`, or how far the format goes on.
pub data Move : Type 0 where
  stop : State → Move
  one two : State → Move

-- `do { value = value * 10 - (*str - '0'); str++; } while (isdigit(*str))`, at a digit.
unfoldable pub read_digits : Bytes → ℤ → Run (ℤ × Bytes)
read_digits [] value = fault
read_digits (c ∷ str) value = times value 10 >>= λ tens. minus tens (c - b'0') >>= λ v.
    load str 0 >>= λ d. elim (isdigit d) [ true ↦ read_digits str v | false ↦ done (v, str) ]

-- `va_arg` and the store: a pointer of another type, or none, has no defined behaviour.
unfoldable pub put_int : ℤ → State → Run State
put_int z st = elim st.args [
  | to_int ∷ args ↦
      done (record st {
        args = args;
        stored = st.stored ++ int_value z ∷ [];
        val_cnt = st.val_cnt + 1;
      })
  | _ ↦ fault
]

unfoldable pub put_char : ℕ → State → Run State
put_char c st = elim st.args [
  | to_char ∷ args ↦
      done (record st {
        args = args;
        stored = st.stored ++ char_value c ∷ [];
        val_cnt = st.val_cnt + 1;
      })
  | _ ↦ fault
]

-- The digits of %d behind the sign.
unfoldable pub scan_digits : Bool → Bytes → State → Run Move
scan_digits positive str st = load str 0 >>= λ c. elim (isdigit c) [
  | false ↦ done (stop (record st { str = str }))
  | true ↦ read_digits str (pos 0) >>= λ r.
      elim positive [ true ↦ negate r.0 | false ↦ done r.0 ] >>= λ value.
      put_int value (record st { str = r.1 }) >>= λ s. done (two s)
]

unfoldable pub scan_int : State → Run Move
scan_int st = load st.str 0 >>= λ c. elim (c == b'-') [
  | true ↦ scan_digits false (drop 1 st.str) st
  | false ↦ scan_digits true st.str st
]

unfoldable pub scan_char : State → Run Move
scan_char st = load st.str 0 >>= λ c. elim (isalpha c) [
  | false ↦ done (stop st)
  | true ↦ put_char c (record st { str = drop 1 st.str }) >>= λ s. done (two s)
]

unfoldable pub scan_plain : ℕ → State → Run Move
scan_plain f st = load st.str 0 >>= λ c. elim (f == c) [
  | true ↦ done (one (record st { str = drop 1 st.str }))
  | false ↦ done (stop st)
]

-- A round at the format character `f`, with `format` behind it.
unfoldable pub step : ℕ → Bytes → State → Run Move
step f format st = elim (f == b'%') [
  | true ↦ load format 0 >>= λ g. elim (g == b'd') [
    | true ↦ scan_int st
    | false ↦ elim (g == b'c') [ true ↦ scan_char st | false ↦ scan_plain f st ]
  ]
  | false ↦ scan_plain f st
]

unfoldable pub loop : Bytes → State → Run State
loop [] st = fault
loop (f ∷ []) st = elim (f == 0) [
  | true ↦ done st
  | false ↦ elim (step f [] st) [ done (stop s) ↦ done s | _ ↦ fault ]
]
loop (f ∷ g ∷ format) st = elim (f == 0) [
  | true ↦ done st
  | false ↦ elim (step f (g ∷ format) st) [
    | fault ↦ fault
    | done (stop s) ↦ done s
    | done (one s) ↦ loop (g ∷ format) s
    | done (two s) ↦ loop format s
  ]
]

-- `str` and `format` are the memory from the pointers on. The result is the return value and what
-- has been stored.
unfoldable pub vsscanf : Bytes → Bytes → List Pointer → Run (ℕ × List Stored)
vsscanf str format args =
    loop format (record { str = str; args = args; stored = []; val_cnt = 0 }) >>= λ s.
    done (s.val_cnt, s.stored)

-- `__isoc99_sscanf`, and `sgx_sscanf` of trusted/ssl_wrappers.c.
abbrev pub isoc99_sscanf : Bytes → Bytes → List Pointer → Run (ℕ × List Stored)
isoc99_sscanf s format arg = vsscanf s format arg

abbrev pub sgx_sscanf : Bytes → Bytes → List Pointer → Run (ℕ × List Stored)
sgx_sscanf str format format_va = vsscanf str format format_va

-- `sscanf` has no return statement: its caller gets what happens to be there.
abbrev pub sscanf : ℕ → Bytes → Bytes → List Pointer → Run (ℕ × List Stored)
sscanf there str format format_va = vsscanf str format format_va >>= λ r. done (there, r.1)

program : Unit {0}
unfolding vsscanf loop step scan_plain scan_char scan_int scan_digits put_char put_int read_digits
program = tt

abbrev nul : Bytes
nul = 0 ∷ []

version :
    vsscanf (codes "3.4-x" ++ nul) (codes "%d.%d-%c" ++ nul) (to_int ∷ to_int ∷ to_char ∷ [])
    ≡ done (3, int_value (pos 3) ∷ int_value (pos 4) ∷ char_value b'x' ∷ [])
unfolding program
version = refl

too_large : vsscanf (codes "2147483648" ++ nul) (codes "%d" ++ nul) (to_int ∷ []) ≡ fault
unfolding program
too_large = refl

smallest :
    vsscanf (codes "-2147483648" ++ nul) (codes "%d" ++ nul) (to_int ∷ [])
    ≡ done (1, int_value (negsuc 2147483647) ∷ [])
unfolding program
smallest = refl
