-- ===== src/Inet/Convert.antt =====
-- `inet_pton` and `inet_ntop` of trusted/inet_pton_ntop.c: the choice by address family.
pub mod Laws
pub mod RoundTrip
use mongo_sgx_client.Base.{
  ℕ, ◌+◌, ◌≡◌, refl, Bytes, List, [], ◌∷◌, ◌++◌, Option, none, some, ◌==◌, if◌then◌else◌, codes,
  Run, done, fault, ◌>>=◌, replicate, take,
}
use mongo_sgx_client.Libc.{write, strlen}
use mongo_sgx_client.Inet.Pton4.{inet_pton4}
use mongo_sgx_client.Inet.Pton6.{inet_pton6}
use mongo_sgx_client.Inet.Ntop4.{inet_ntop4}
use mongo_sgx_client.Inet.Ntop6.{inet_ntop6}

-- The families, as the numbers of the constants in trusted/include/sys/socket.h.
abbrev pub af_inet : ℕ
af_inet = 2

abbrev pub af_inet6 : ℕ
af_inet6 = 10

-- What `inet_pton` returns.
pub data Answer : Type 0 where
  valid invalid unsupported : Answer

-- The result with the buffer of `dst` behind the call: memcpy is reached only with bytes to copy.
abbrev pub copied : Bytes → Run (Option Bytes) → Run (Answer × Bytes)
copied dst fault = fault
copied dst (done none) = done (invalid, dst)
copied dst (done (some bytes)) = write dst 0 bytes >>= λ m. done (valid, m)

-- The text from `src` to `src + strlen(src)`.
unfoldable pub text_at : Bytes → Run Bytes
text_at src = do n ← strlen src; done (take n src)

-- `src` is the memory that the pointer is into, and `junk` what the local buffer of `inet_pton4`
-- holds first.
unfoldable pub inet_pton : ℕ → Bytes → Bytes → Bytes → Run (Answer × Bytes)
inet_pton af src dst junk =
    if af == af_inet
    then (text_at src >>= λ t. copied dst (inet_pton4 t junk))
    else if af == af_inet6
    then (text_at src >>= λ t. copied dst (inet_pton6 t junk))
    else done (unsupported, dst)

-- `none` is NULL. `tmp4` and `tmp6` are what the local buffers hold first.
unfoldable pub inet_ntop : ℕ → Bytes → Bytes → ℕ → Bytes → Bytes → Run (Option Bytes)
inet_ntop af src dst size tmp4 tmp6 =
    if af == af_inet
    then inet_ntop4 src tmp4 dst 0 size
    else if af == af_inet6
    then inet_ntop6 src tmp6 tmp4 dst size
    else done none
