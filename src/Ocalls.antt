-- ===== src/Ocalls.antt =====
-- `getsockopt` and `sendmsg` of trusted/my_wrappers.c: calls out of the enclave with arguments that
-- are first copied to memory which the host can read and write.
pub mod Copies
pub mod Border
pub mod Wrappers
pub mod Ssl
pub mod Guards
mod Examples
use mongo_sgx_client.Base.{
  ℕ, zero, suc, ◌+◌, ◌≤◌, ◌≡◌, refl, Bytes, List, [], ◌∷◌, ◌++◌, arith, leb, ◌==◌, if◌then◌else◌,
  Run, done, fault, ◌>>=◌, length, take, drop, true, false,
}
use mongo_sgx_client.Base.Integers.{ℤ}
use mongo_sgx_client.Libc.{write}

-- A wrapper returns, or ends the enclave by `sgx_exit`.
pub data Outcome {ℓ} (A : Type ℓ) : Type ℓ where
  returns : A → Outcome A
  aborts : Outcome A

-- The status of the call, and what the host answers.
pub record Reply {ℓ} (A : Type ℓ) : Type ℓ where
  pub status : ℕ
  pub answer : A

abbrev pub sgx_success : ℕ
sgx_success = 0

-- `if (sgx_retval != SGX_SUCCESS) { ...; sgx_exit(); }`, and the statements behind it.
unfoldable pub unless_failed {ℓ κ} :
    {A : Type ℓ} {B : Type κ} → Reply A → (A → Run (Outcome B)) → Run (Outcome B)
unless_failed r rest = if r.status == sgx_success then rest r.answer else done aborts

-- `native_option_value` and `native_option_len`.
pub record OptionMemory : Type 0 where
  pub option_value : Bytes
  pub option_len : ℕ

pub record Iovec : Type 0 where
  pub iov_base : Bytes
  pub iov_len : ℕ

pub record Msghdr : Type 0 where
  pub msg_name : Bytes
  pub msg_namelen : ℕ
  pub msg_iov : List Iovec
  pub msg_iovlen : ℕ
  pub msg_control : Bytes
  pub msg_controllen : ℕ
  pub msg_flags : ℕ

-- The host's side of the two calls, on the memory that it shares.
pub record Host : Type 0 where
  pub ocall_getsockopt : ℕ → ℕ → ℕ → OptionMemory → Reply (ℤ × OptionMemory)
  pub ocall_sendmsg : ℕ → Msghdr → ℕ → Reply ℤ

-- memcpy of `n` bytes from the beginning of `src` to fresh memory of `n` bytes.
unfoldable pub copy_of : Bytes → ℕ → Run Bytes
copy_of src n = if leb n (length src) then done (take n src) else fault

-- The result is the return value with `*option_value` and `*option_len` behind the call.
unfoldable pub getsockopt : Host → ℕ → ℕ → ℕ → Bytes → ℕ → Run (Outcome (ℤ × Bytes × ℕ))
getsockopt host socket level option_name option_value option_len =
    copy_of option_value option_len >>= λ native.
    unless_failed
      (host.ocall_getsockopt socket level option_name
        (record { option_value = native; option_len = option_len }))
      (λ r. copy_of r.1.option_value option_len >>= λ back.
        write option_value 0 back >>= λ value. done (returns (r.0, value, r.1.option_len)))

-- The loop over `msg_iov`: `n` entries, each with its bytes copied.
unfoldable pub copy_iov : ℕ → List Iovec → Run (List Iovec)
copy_iov zero iov = done []
copy_iov (suc n) [] = fault
copy_iov (suc n) (v ∷ iov) = copy_of v.iov_base v.iov_len >>= λ base.
    copy_iov n iov >>= λ rest. done (record { iov_base = base; iov_len = v.iov_len } ∷ rest)

-- `name` is what the fresh memory for the name happens to hold: nothing is copied there.
unfoldable pub native_message : Msghdr → Bytes → Run Msghdr
native_message message name = copy_of message.msg_control message.msg_controllen >>= λ control.
    copy_iov message.msg_iovlen message.msg_iov >>= λ iov.
    done (record message { msg_name = name; msg_iov = iov; msg_control = control })

unfoldable pub sendmsg : Host → ℕ → Msghdr → ℕ → Bytes → Run (Outcome ℤ)
sendmsg host socket message flags name = native_message message name >>= λ native.
    unless_failed (host.ocall_sendmsg socket native flags) (λ retval. done (returns retval))
