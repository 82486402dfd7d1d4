-- ===== src/Untrusted/Answers/Ssl.antt =====
-- The answers of untrusted/ssl_wrappers_impl.cpp to the calls of the enclave.
use mongo_sgx_client.Base.{
  ℕ, ◌+◌, ◌*◌, ◌/◌, ◌-◌, ◌%◌, ◌^◌, ltb, if◌then◌else◌, Bytes, [], ◌∷◌, ◌++◌, Option, none, some,
  Run, done, ◌>>=◌,
}
use mongo_sgx_client.Base.Integers.{ℤ, pos, negsuc}
use mongo_sgx_client.Libc
use mongo_sgx_client.Ocalls.{Outcome, aborts}
use mongo_sgx_client.Untrusted.Answers.{Os, Place, held}

-- An int as an unsigned number of w bits.
abbrev pub unsigned : ℕ → ℤ → ℕ
unsigned w (pos n) = n % 2 ^ w
unsigned w (negsuc n) = 2 ^ w - 1 - n % 2 ^ w

-- A `ssize_t` of 64 bits as an int.
abbrev pub int : ℤ → ℤ
int z = let u = unsigned 32 z in if ltb u (2 ^ 31) then pos u else negsuc (2 ^ 32 - 1 - u)

module _ (os : Os) where
  unfoldable pub ocall_sgx_time : Option ℤ → ℤ → os.World → os.World × ℤ × Option ℤ
  ocall_sgx_time timep t_len = os.time timep

  unfoldable pub ocall_sgx_localtime : ℤ → ℤ → os.World → os.World × ℕ
  ocall_sgx_localtime timep t_len = os.localtime timep

  unfoldable pub ocall_sgx_gmtime_r : ℤ → ℤ → Bytes → ℤ → os.World → os.World × ℕ × Bytes
  ocall_sgx_gmtime_r timep t_len tmp tmp_len = os.gmtime_r timep tmp

  unfoldable pub ocall_sgx_gettimeofday : Bytes → ℤ → os.World → os.World × ℤ × Bytes
  ocall_sgx_gettimeofday tv tv_size = os.gettimeofday tv

  -- The return value, the buffer, and `*optlen`.
  unfoldable pub ocall_sgx_getsockopt :
      ℤ → ℤ → ℤ → Bytes → ℤ → ℤ → os.World → os.World × ℤ × Bytes × ℤ
  ocall_sgx_getsockopt s level optname optval optval_len optlen w =
      let (w', retv, m) =
        os.getsockopt s level optname
          (record { option_value = optval; option_len = unsigned 32 optlen }) w in
      (w', retv, m.option_value, int (pos m.option_len))

  unfoldable pub ocall_sgx_connect : ℤ → Bytes → ℤ → os.World → os.World × ℤ
  ocall_sgx_connect s addr addrlen = os.connect s (held addr) (unsigned 32 addrlen)

  -- The return value, the memory of the address, and `*addrlen`.
  unfoldable pub ocall_sgx_accept : ℤ → Bytes → ℤ → ℤ → os.World → os.World × ℤ × Place × ℤ
  ocall_sgx_accept s addr addr_size addrlen w =
      let (w', retv, place, len) = os.accept s (held addr) (unsigned 32 addrlen) w in
      (w', retv, place, int (pos len))

  -- Nothing runs behind it.
  unfoldable pub ocall_sgx_exit : ℤ → os.World → os.World × Outcome (Unit {0})
  ocall_sgx_exit e w = (os.exit e w, aborts)

  unfoldable pub ocall_sgx_setsockopt : ℤ → ℤ → ℤ → Bytes → ℤ → os.World → os.World × ℤ
  ocall_sgx_setsockopt s level optname optval optlen =
      os.setsockopt s level optname optval (unsigned 32 optlen)

  unfoldable pub ocall_sgx_socket : ℤ → ℤ → ℤ → os.World → os.World × ℤ
  ocall_sgx_socket af type_of protocol = os.socket af type_of protocol

  unfoldable pub ocall_sgx_bind : ℤ → Bytes → ℤ → os.World → os.World × ℤ
  ocall_sgx_bind s addr addr_size = os.bind s addr (unsigned 32 addr_size)

  unfoldable pub ocall_sgx_listen : ℤ → ℤ → os.World → os.World × ℤ
  ocall_sgx_listen s backlog = os.listen s backlog

  unfoldable pub ocall_sgx_shutdown : ℤ → ℤ → os.World → os.World × ℤ
  ocall_sgx_shutdown fd how = os.shutdown fd how

  unfoldable pub ocall_sgx_read : ℤ → Bytes → ℤ → os.World → os.World × ℤ × Bytes
  ocall_sgx_read fd buf n w =
      let (w', done_bytes, stored) = os.read fd buf (unsigned 64 n) w in
      (w', int done_bytes, stored)

  unfoldable pub ocall_sgx_write : ℤ → Bytes → ℤ → os.World → os.World × ℤ
  ocall_sgx_write fd buf n w =
      let (w', done_bytes) = os.write fd buf (unsigned 64 n) w in (w', int done_bytes)

  unfoldable pub ocall_sgx_close : ℤ → os.World → os.World × ℤ
  ocall_sgx_close fd = os.close fd

  -- The microseconds of the monotonic clock, where a long can hold them.
  unfoldable pub ocall_sgx_clock : os.World → os.World × ℕ
  ocall_sgx_clock w = let (w', sec, nsec) = os.clock_gettime w in (w', sec * 1000000 + nsec / 1000)

  -- The return value with the buffer. Its size `ret_len` is not looked at.
  unfoldable pub ocall_sgx_getenv : Bytes → Bytes → ℕ → os.World → Run (ℤ × Bytes)
  ocall_sgx_getenv env ret_str ret_len w = elim (os.getenv env w) [
    | none ↦ done (negsuc 0, ret_str)
    | some env_val ↦ Libc.write ret_str 0 (env_val ++ 0 ∷ []) >>= λ stored. done (pos 0, stored)
  ]

  unfoldable pub ocall_print_string : Bytes → os.World → os.World × ℤ
  ocall_print_string str = os.printf str
