-- ===== src/Ocalls/Border.antt =====
-- The functions outside of the enclave that trusted/my_wrappers.c and trusted/ssl_wrappers.c call, with
-- the routines that the build generates for them from trusted/mongoclient.edl and
-- trusted/ssl_wrappers.edl, over an unknown state of the world. A buffer that such a routine copies
-- back comes with the answer, as it is behind the call; a pointer that it does not look at is an
-- address. An int is a ℤ, and a `NULL` that is allowed for a pointer is `none`.
use mongo_sgx_client.Base.{ℕ, ◌==◌, Bool, Bytes, List, Option, if◌then◌else◌}
use mongo_sgx_client.Base.Integers.{ℤ}
use mongo_sgx_client.Ocalls.{Reply, Outcome, returns, aborts, sgx_success}

abbrev pub Call {ℓ} : Type 0 → Type ℓ → Type ℓ
Call W A = W → W × Reply A

-- `struct pollfd`.
pub record Pollfd : Type 0 where
  pub fd : ℤ
  pub events : ℕ
  pub revents : ℕ

pub record Border : Type 1 where
  pub World : Type 0
  -- An address and a size.
  pub sgx_is_outside_enclave : ℕ → ℕ → Bool
  pub ocall_access : Bytes → ℤ → Call World ℤ
  pub ocall_getaddrinfo : Option Bytes → Option Bytes → Option Bytes → Call World (ℤ × ℕ)
  pub ocall_freeaddrinfo : ℕ → Call World (Unit {0})
  pub ocall_print_string : Bytes → Call World ℤ
  pub ocall_fcntl : ℤ → ℤ → ℤ → Call World ℤ
  pub ocall_poll : List Pollfd → ℕ → ℤ → Call World (ℤ × List Pollfd)
  pub ocall_setsockopt : ℤ → ℤ → ℤ → Bytes → ℕ → Call World ℤ
  pub ocall_accept : ℤ → ℕ → ℕ → Call World (ℤ × ℕ)
  pub ocall_close : ℤ → Call World ℤ
  pub ocall_ntohs : ℕ → Call World ℕ
  pub ocall_bind : ℤ → Bytes → ℕ → Call World ℤ
  pub ocall_shutdown : ℤ → ℤ → Call World ℤ
  pub ocall_connect : ℤ → ℕ → ℕ → Call World ℤ
  pub ocall_listen : ℤ → ℤ → Call World ℤ
  pub ocall_socket : ℤ → ℤ → ℤ → Call World ℤ
  pub ocall_recv : ℤ → Bytes → ℕ → ℤ → Call World (ℤ × Bytes)
  pub ocall_send : ℤ → Bytes → ℕ → ℤ → Call World ℤ
  pub ocall_gethostbyname : Bytes → Call World ℕ
  pub ocall_read : ℤ → Bytes → ℕ → Call World (ℤ × Bytes)
  pub ocall_usleep : ℕ → Call World ℤ
  pub ocall_getpid : Call World ℤ
  pub ocall_gethostname : Bytes → ℕ → Call World (ℤ × Bytes)
  pub ocall_time : Option ℤ → Call World (ℤ × Option ℤ)
  -- Of the C library that the enclave has.
  pub srand : ℕ → World → World
  pub rand : World → World × ℤ

-- The wrapper of a call: the enclave ends where the call out of it fails.
abbrev pub through {ℓ} : {W : Type 0} {A : Type ℓ} → Call W A → W → W × Outcome A
through call w =
    let (w', r) = call w in (w', if r.status == sgx_success then returns r.answer else aborts)
