-- ===== src/Untrusted/Answers/Getenv.antt =====
-- The buffer of ocall_sgx_getenv.
use mongo_sgx_client.Base.{
  ℕ, ◌+◌, ◌≡◌, Bytes, [], ◌∷◌, ◌++◌, length, drop, leb, if◌then◌else◌, some, done, fault, arith,
  length-append,
}
use mongo_sgx_client.Base.Integers.{pos}
use mongo_sgx_client.Libc.{write}
use mongo_sgx_client.Untrusted.Answers.{Os}
use mongo_sgx_client.Untrusted.Answers.Ssl.{ocall_sgx_getenv}

-- For a variable that is there: ocall_sgx_getenv returns 0 with the text and its NUL at the beginning of
-- the buffer, where the buffer has room for them, and else writes past its end; `ret_len` makes no
-- difference.
pub ocall_sgx_getenv_lem :
    (os : Os) (env ret_str env_val : Bytes) (ret_len : ℕ) (w : os.World)
    → os.getenv env w ≡ some env_val
    → ocall_sgx_getenv os env ret_str ret_len w ≡ (
        if leb (length env_val + 1) (length ret_str)
        then done (pos 0, env_val ++ 0 ∷ [] ++ drop (length env_val + 1) ret_str)
        else fault)
unfolding ocall_sgx_getenv write
ocall_sgx_getenv_lem os env ret_str env_val ret_len w there =
    let size : 0 + length (env_val ++ 0 ∷ []) ≡ length env_val + 1 =
      omega (arith, length-append {0} env_val (0 ∷ [])) in
    rw (ocall_sgx_getenv, there) (ground (arith, size))
