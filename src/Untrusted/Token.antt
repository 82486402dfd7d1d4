-- ===== src/Untrusted/Token.antt =====
-- The path of the launch token in `initialize_enclave` of untrusted/sample.cpp.
pub mod Fits
use mongo_sgx_client.Base.{
  ℕ, zero, suc, ◌+◌, ◌≡◌, refl, Bool, true, false, Bytes, List, [], ◌∷◌, ◌++◌, Option, none, some,
  codes, replicate, ◌==◌, leb, if◌then◌else◌, Run, done, fault, ◌>>=◌,
}
use mongo_sgx_client.Libc.{write, strlen, strncpy}

abbrev pub token_filename : Bytes
token_filename = codes "enclave.token"

-- sizeof(TOKEN_FILENAME), with its NUL.
abbrev pub sizeof_token_filename : ℕ
sizeof_token_filename = 14

-- What strncat takes of its source: the bytes before the NUL, and no more than the bound.
unfoldable pub up_to : Bytes → ℕ → Run Bytes
up_to s zero = done []
up_to [] (suc n) = fault
up_to (c ∷ s) (suc n) = elim (c == 0) [
  | true ↦ done []
  | false ↦ elim (up_to s n) [ done bs ↦ done (c ∷ bs) | fault ↦ fault ]
]

-- strncat: behind the text in `dst`, with a NUL.
unfoldable pub strncat : Bytes → Bytes → ℕ → Run Bytes
strncat dst src n = strlen dst >>= λ p. up_to src n >>= λ bs. write dst p (bs ++ 0 ∷ [])

-- The path in the home directory.
unfoldable pub home_path : Bytes → Bytes → ℕ → Run Bytes
home_path buffer home_dir home_length = strncpy buffer 0 home_dir home_length >>= λ m.
    strncat m (codes "/" ++ 0 ∷ []) 1 >>= λ m.
    strncat m (token_filename ++ 0 ∷ []) (sizeof_token_filename + 1)

-- If the home directory's path is too long, or there is none.
unfoldable pub short_path : Bytes → Run Bytes
short_path buffer = strncpy buffer 0 (token_filename ++ 0 ∷ []) sizeof_token_filename

-- The test of the length, with the buffer `token_path` of MAX_PATH bytes that are zero.
unfoldable pub composed : ℕ → Bytes → ℕ → Run Bytes
composed max_path home_dir n = elim (leb (n + 1 + sizeof_token_filename + 1) max_path) [
  | true ↦ home_path (replicate max_path 0) home_dir n
  | false ↦ short_path (replicate max_path 0)
]

-- The home directory is a buffer with a NUL.
unfoldable pub token_path : ℕ → Option Bytes → Run Bytes
token_path max_path none = short_path (replicate max_path 0)
token_path max_path (some home_dir) = strlen home_dir >>= composed max_path home_dir
