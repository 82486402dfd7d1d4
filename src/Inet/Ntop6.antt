-- ===== src/Inet/Ntop6.antt =====
-- `inet_ntop6` of trusted/inet_pton_ntop.c: sixteen bytes to the text of an IPv6 address.
-- The runs `best` and `cur` have no base where C has -1. `tmp` is the local buffer with what it held
-- first, `tp` an offset in it, and `junk` what the buffer of `inet_ntop4` held.
pub mod Best
pub mod Ahead
pub mod Longest
pub mod Text
pub mod Copy
pub mod Shape
pub mod RoundTrip
pub mod MappedRounds
pub mod Mapped
use Prim.Native.Nat.{bit_or}
use Prim.Native.String.{String}
use mongo_sgx_client.Base.{
  ℕ, suc, ◌+◌, ◌-◌, ◌*◌, ◌<◌, ◌≤◌, ◌≡◌, refl, Bool, true, false, not, ◌&&◌, ◌||◌, Bytes, List, [],
  ◌∷◌, ◌++◌, Option, none, some, arith, ltb, leb, ◌==◌, if◌then◌else◌, codes, length, take, drop,
  replicate, get_elem?, Run, done, fault, Round, next, leave, ◌>>=◌, load, store,
}
use mongo_sgx_client.Libc.{strlen, strnlen, strncpy, snprintf, write}
use mongo_sgx_client.Inet.Digits.{format}
use mongo_sgx_client.Inet.Ntop4.{inet_ntop4}

-- `words[i / 2] = (src[i] << 8) | src[i + 1]`, where `src` has the sixteen bytes of an address.
unfoldable pub words_of : Bytes → List ℕ
words_of (hi ∷ lo ∷ src) = bit_or (hi * 256) lo ∷ words_of src
words_of _ = []

pub record Zeros : Type 0 where
  pub base : Option ℕ
  pub len : ℕ

pub record Search : Type 0 where
  pub best : Zeros
  pub cur : Zeros

-- `best = cur`, if there was none or the current run is longer.
unfoldable pub keep_longer : Search → Zeros
keep_longer s = elim s.cur.base [
  | none ↦ s.best
  | some _ ↦ elim s.best.base [
    | none ↦ s.cur
    | some _ ↦ if ltb s.best.len s.cur.len then s.cur else s.best
  ]
]

-- A round of the search for the longest run of zeros.
unfoldable pub search_word : ℕ → ℕ → Search → Search
search_word i w s =
    if w == 0
    then elim s.cur.base [
      | none ↦ record s { cur = record { base = some i; len = 1 } }
      | some b ↦ record s { cur = record { base = some b; len = s.cur.len + 1 } }
    ]
    else record { best = keep_longer s; cur = record { base = none; len = s.cur.len } }

unfoldable pub search_words : ℕ → List ℕ → Search → Search
search_words i [] s = s
search_words i (w ∷ ws) s = search_words (i + 1) ws (search_word i w s)

-- The statements behind the search: the last run counts too, and a run of one word does not.
unfoldable pub best_run : List ℕ → Zeros
best_run ws =
    let none_yet : Zeros = record { base = none; len = 0 } in
    let best = keep_longer (search_words 0 ws (record { best = none_yet; cur = none_yet })) in
    if ltb best.len 2 then record { base = none; len = best.len } else best

-- sizeof "ffff:ffff:ffff:ffff:ffff:ffff:255.255.255.255".
abbrev pub tmp_size : ℕ
tmp_size = 46

pub record State : Type 0 where
  pub tmp : Bytes
  pub tp : ℕ

-- `*tp++ = c`.
unfoldable pub put : ℕ → State → Run State
put c st = do m ← store st.tmp st.tp c; done (record { tmp = m; tp = st.tp + 1 })

-- `none` is `return (NULL)`.
abbrev pub Exit : Type 0
Exit = Run (Option State)

-- Is word `i` in the best run?
abbrev pub in_run : Zeros → ℕ → Bool
in_run best i = elim best.base [ none ↦ false | some b ↦ leb b i && ltb i (b + best.len) ]

abbrev pub at_base : Zeros → ℕ → Bool
at_base best i = elim best.base [ none ↦ false | some b ↦ i == b ]

-- Is this address an encapsulated IPv4?
abbrev pub encapsulated : Zeros → Option ℕ → Bool
encapsulated best w5 = elim best.base [
  | none ↦ false
  | some b ↦
      b == 0
      && (best.len == 6 || (best.len == 5 && (elim w5 [ none ↦ false | some w ↦ w == 0xffff ])))
]

-- The colon in front of every word but the first.
abbrev pub put_colon : ℕ → State → Run State
put_colon i st = if i == 0 then done st else put b':' st

unfoldable pub put_quad : Bytes → Bytes → State → Exit
put_quad src junk st = inet_ntop4 (drop 12 src) junk st.tmp st.tp (tmp_size - st.tp) >>= λ r.
    elim r [
      | none ↦ done none
      | some m ↦ do n ← strlen (drop st.tp m); done (some (record { tmp = m; tp = st.tp + n }))
    ]

unfoldable pub put_word : ℕ → State → Run State
put_word w st = do
  (m, n) ← snprintf st.tmp st.tp tmp_size (format 16 w)
  done (record { tmp = m; tp = st.tp + n })

-- One round of the loop that formats.
unfoldable pub step : Bytes → Bytes → Zeros → Option ℕ → ℕ → ℕ → State → Round State Exit
step src junk best w5 i w st =
    if in_run best i
    then if at_base best i
      then elim (put b':' st) [ fault ↦ leave fault | done s ↦ next s ]
      else next st
    else elim (put_colon i st) [
      | fault ↦ leave fault
      | done s ↦
          if i == 6 && encapsulated best w5
          then leave (put_quad src junk s)
          else elim (put_word w s) [ fault ↦ leave fault | done u ↦ next u ]
    ]

unfoldable pub loop : Bytes → Bytes → Zeros → Option ℕ → ℕ → List ℕ → State → Exit
loop src junk best w5 i [] st = done (some st)
loop src junk best w5 i (w ∷ ws) st = elim (step src junk best w5 i w st) [
  | next s ↦ loop src junk best w5 (i + 1) ws s
  | leave r ↦ r
]

-- Was it a trailing run of 0x00's?
abbrev pub trailing : Zeros → Bool
trailing best = elim best.base [ none ↦ false | some b ↦ b + best.len == 8 ]

abbrev pub put_trailing : Zeros → State → Run State
put_trailing best st = if trailing best then put b':' st else done st

-- `*tp++ = '\0'`, the check for overflow, and the copy to offset 0 of `dst`.
unfoldable pub copy_out : Bytes → ℕ → State → Run (Option Bytes)
copy_out dst size st = do
  u ← put 0 st
  let copied = do m ← strncpy dst 0 u.tmp tmp_size; done (some m)
  if ltb size u.tp then done none else copied

-- The statements behind the loop.
unfoldable pub close : Zeros → Bytes → ℕ → State → Run (Option Bytes)
close best dst size st = do s ← put_trailing best st; copy_out dst size s

abbrev pub after_loop : Zeros → Bytes → ℕ → Exit → Run (Option Bytes)
after_loop best dst size fault = fault
after_loop best dst size (done none) = done none
after_loop best dst size (done (some st)) = close best dst size st

unfoldable pub inet_ntop6 : Bytes → Bytes → Bytes → Bytes → ℕ → Run (Option Bytes)
inet_ntop6 src tmp junk dst size =
    let ws = words_of src in
    let best = best_run ws in
    after_loop best dst size
      (loop src junk best (get_elem? ws 5) 0 ws (record { tmp = tmp; tp = 0 }))

program : Unit {0}
unfolding inet_ntop6 close copy_out loop step put_word put_quad put best_run search_words
    search_word keep_longer words_of strlen strnlen strncpy snprintf write inet_ntop4 format
program = tt

abbrev shown : String → Run (Option Bytes)
shown t = done (some (codes t ++ replicate (46 - length (codes t)) 0))

compressed :
    inet_ntop6
      (32 ∷ 1 ∷ 13 ∷ 184 ∷ replicate 10 0 ++ 0 ∷ 1 ∷ [])
      (replicate 46 7)
      (replicate 16 7)
      (replicate 46 7)
      46
    ≡ shown "2001:db8::1"
unfolding program
compressed = refl

mapped :
    inet_ntop6
      (replicate 10 0 ++ 255 ∷ 255 ∷ 10 ∷ 0 ∷ 0 ∷ 1 ∷ [])
      (replicate 46 0)
      (replicate 16 7)
      (replicate 46 7)
      46
    ≡ shown "::ffff:10.0.0.1"
unfolding program
mapped = refl

-- The same address with a buffer that held no NUL.
mapped_dirty :
    inet_ntop6
      (replicate 10 0 ++ 255 ∷ 255 ∷ 10 ∷ 0 ∷ 0 ∷ 1 ∷ [])
      (replicate 46 7)
      (replicate 16 7)
      (replicate 46 7)
      46
    ≡ fault
unfolding program
mapped_dirty = refl
