-- ===== src/Inet/Ntop4.antt =====
-- `inet_ntop4` of trusted/inet_pton_ntop.c: four bytes to dotted text.
pub mod Text
use mongo_sgx_client.Base.{
  ℕ, ◌+◌, ◌≤◌, ◌≡◌, refl, Bytes, [], ◌∷◌, ◌++◌, Option, none, some, arith, leb, if◌then◌else◌,
  codes, Run, done, fault, ◌>>=◌, load, replicate,
}
use mongo_sgx_client.Libc.{strnlen, strncpy, snprintf}
use mongo_sgx_client.Inet.Digits.{format}

-- printf of "%u.%u.%u.%u".
abbrev pub print_quad : ℕ → ℕ → ℕ → ℕ → Bytes
print_quad a b c d =
    format 10 a ++ b'.' ∷ (format 10 b ++ b'.' ∷ (format 10 c ++ b'.' ∷ format 10 d))

-- sizeof "255.255.255.255".
abbrev pub tmp_size : ℕ
tmp_size = 16

-- `dst` is offset `p` of the buffer `m`, and `tmp` the local buffer as C leaves it. `none` is NULL;
-- otherwise the buffer of `dst` is returned.
unfoldable pub inet_ntop4 : Bytes → Bytes → Bytes → ℕ → ℕ → Run (Option Bytes)
inet_ntop4 src tmp m p size = do
  a ← load src 0
  b ← load src 1
  c ← load src 2
  d ← load src 3
  (tmp', n) ← snprintf tmp 0 tmp_size (print_quad a b c d)
  let copied = do len ← strnlen tmp' tmp_size; m' ← strncpy m p tmp' len; done (some m')
  if leb size n then done none else copied

prints :
    inet_ntop4 (10 ∷ 0 ∷ 200 ∷ 9 ∷ []) (replicate 16 7) (codes "------------") 1 20
    ≡ done (some (codes "-10.0.200.9-"))
unfolding inet_ntop4 snprintf strnlen strncpy format
prints = refl
