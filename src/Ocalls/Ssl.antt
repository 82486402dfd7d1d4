-- ===== src/Ocalls/Ssl.antt =====
-- The functions of trusted/ssl_wrappers.c that hand a call on to the host, its clock and random numbers,
-- and what stands there for functions of OpenSSL that the enclave does not have. The host's side is in
-- trusted/ssl_wrappers.edl; conventions as in Ocalls/Border.
use mongo_sgx_client.Base.{
  ℕ, ◌==◌, Bool, true, false, Bytes, List, [], ◌∷◌, ◌++◌, Option, none, some, codes, if◌then◌else◌,
  take,
}
use mongo_sgx_client.Base.Integers.{ℤ, pos, negsuc}
use mongo_sgx_client.Ocalls.{Outcome, returns, aborts, sgx_success}
use mongo_sgx_client.Ocalls.Border.{Call, through}

pub record SslBorder : Type 1 where
  pub World : Type 0
  pub ocall_sgx_clock : Call World ℤ
  pub ocall_sgx_time : Call World (ℤ × ℤ)
  -- The address of a `struct tm`.
  pub ocall_sgx_localtime : ℤ → Call World ℕ
  pub ocall_sgx_gmtime_r : ℤ → Call World (ℕ × Bytes)
  pub ocall_sgx_gettimeofday : Bytes → Call World (ℤ × Bytes)
  -- The buffer with its size, and `*optlen`.
  pub ocall_sgx_getsockopt : ℤ → ℤ → ℤ → Bytes → ℤ → ℤ → Call World (ℤ × Bytes × ℤ)
  pub ocall_sgx_setsockopt : ℤ → ℤ → ℤ → Bytes → ℤ → Call World ℤ
  pub ocall_sgx_socket : ℤ → ℤ → ℤ → Call World ℤ
  pub ocall_sgx_bind : ℤ → Bytes → ℤ → Call World ℤ
  pub ocall_sgx_listen : ℤ → ℤ → Call World ℤ
  pub ocall_sgx_connect : ℤ → Bytes → ℤ → Call World ℤ
  pub ocall_sgx_accept : ℤ → Bytes → ℕ → ℤ → Call World (ℤ × Bytes × ℤ)
  pub ocall_sgx_shutdown : ℤ → ℤ → Call World ℤ
  pub ocall_sgx_read : ℤ → Bytes → ℤ → Call World (ℤ × Bytes)
  pub ocall_sgx_write : ℤ → Bytes → ℤ → Call World ℤ
  pub ocall_sgx_close : ℤ → Call World ℤ
  pub ocall_print_string : Bytes → Call World ℤ
  -- The buffer behind the call, of the length that is asked for.
  pub sgx_read_rand : ℕ → Call World Bytes
  -- The `struct tm` at an address.
  pub tm_at : ℕ → World → Bytes
  -- vsnprintf of a format with its arguments to a buffer, and the text in it.
  pub vsnprintf : ℕ → Bytes → List Bytes → Bytes

-- sizeof(struct sockaddr).
abbrev pub sizeof_sockaddr : ℕ
sizeof_sockaddr = 16

-- BUFSIZ.
abbrev pub bufsiz : ℕ
bufsiz = 8192

-- What is left of a text in a buffer of BUFSIZ with its NUL.
abbrev pub cut : Bytes → Bytes
cut text = take 8191 text

-- A null pointer or no length is refused.
abbrev pub refused : Option Bytes → ℤ → Bool
refused none length_in_bytes = true
refused (some buf) (pos n) = n == 0
refused (some buf) (negsuc n) = true

abbrev pub length_of : ℤ → ℕ
length_of (pos n) = n
length_of (negsuc n) = 0

-- `NULL`.
abbrev pub sgx_getenv : Bytes → Option Bytes
sgx_getenv env = none

-- A call whose status nobody asks for: `retv` is what the call leaves there, or what stood there.
abbrev pub unasked {ℓ} : {W : Type 0} {A : Type ℓ} → A → Call W A → W → W × A
unasked retv call w =
    let (w', r) = call w in (w', if r.status == sgx_success then r.answer else retv)

module _ (B : SslBorder) where
  unfoldable pub sgx_clock : ℤ → B.World → B.World × ℤ
  sgx_clock retv = unasked retv B.ocall_sgx_clock

  -- The return value and `*timep`.
  unfoldable pub sgx_time : B.World → B.World × Outcome (ℤ × ℤ)
  sgx_time = through B.ocall_sgx_time

  unfoldable pub sgx_localtime : ℤ → B.World → B.World × Outcome ℕ
  sgx_localtime timep = through (B.ocall_sgx_localtime timep)

  -- `none` is the null pointer; else `*tp`.
  unfoldable pub localtime_r : ℤ → B.World → B.World × Outcome (Option Bytes)
  localtime_r t w =
      let (w', l) = sgx_localtime t w in
      elim l [
        | aborts ↦ (w', aborts)
        | returns address ↦ (w', returns (if address == 0 then none else some (B.tm_at address w')))
      ]

  unfoldable pub sgx_gmtime_r : ℤ → B.World → B.World × Outcome (ℕ × Bytes)
  sgx_gmtime_r timep = through (B.ocall_sgx_gmtime_r timep)

  unfoldable pub sgx_gettimeofday : Bytes → B.World → B.World × Outcome (ℤ × Bytes)
  sgx_gettimeofday tv = through (B.ocall_sgx_gettimeofday tv)

  unfoldable pub gettimeofday : Bytes → B.World → B.World × Outcome (ℤ × Bytes)
  gettimeofday tp = sgx_gettimeofday tp

  unfoldable pub sgx_getsockopt :
      ℤ → ℤ → ℤ → Bytes → ℤ → B.World → B.World × Outcome (ℤ × Bytes × ℤ)
  sgx_getsockopt s level optname optval optlen =
      through (B.ocall_sgx_getsockopt s level optname optval optlen optlen)

  unfoldable pub sgx_setsockopt : ℤ → ℤ → ℤ → Bytes → ℤ → B.World → B.World × Outcome ℤ
  sgx_setsockopt s level optname optval optlen =
      through (B.ocall_sgx_setsockopt s level optname optval optlen)

  unfoldable pub sgx_socket : ℤ → ℤ → ℤ → B.World → B.World × Outcome ℤ
  sgx_socket af type_of protocol = through (B.ocall_sgx_socket af type_of protocol)

  unfoldable pub sgx_bind : ℤ → Bytes → ℤ → B.World → B.World × Outcome ℤ
  sgx_bind s addr addrlen = through (B.ocall_sgx_bind s addr addrlen)

  unfoldable pub sgx_listen : ℤ → ℤ → B.World → B.World × Outcome ℤ
  sgx_listen s backlog = through (B.ocall_sgx_listen s backlog)

  unfoldable pub sgx_connect : ℤ → Bytes → ℤ → B.World → B.World × Outcome ℤ
  sgx_connect s addr addrlen = through (B.ocall_sgx_connect s addr addrlen)

  unfoldable pub sgx_accept : ℤ → Bytes → ℤ → B.World → B.World × Outcome (ℤ × Bytes × ℤ)
  sgx_accept s addr addrlen = through (B.ocall_sgx_accept s addr sizeof_sockaddr addrlen)

  unfoldable pub sgx_shutdown : ℤ → ℤ → ℤ → B.World → B.World × ℤ
  sgx_shutdown retv fd how = unasked retv (B.ocall_sgx_shutdown fd how)

  unfoldable pub sgx_read : ℤ → Bytes → ℤ → B.World → B.World × Outcome (ℤ × Bytes)
  sgx_read fd buf n = through (B.ocall_sgx_read fd buf n)

  unfoldable pub sgx_write : ℤ → Bytes → ℤ → B.World → B.World × Outcome ℤ
  sgx_write fd buf n = through (B.ocall_sgx_write fd buf n)

  unfoldable pub sgx_close : ℤ → B.World → B.World × Outcome ℤ
  sgx_close fd = through (B.ocall_sgx_close fd)

  -- `ret` is what the local variable holds before the call.
  unfoldable pub sgx_printf : ℤ → Bytes → List Bytes → B.World → B.World × ℤ
  sgx_printf ret fmt arguments =
      unasked ret (B.ocall_print_string (B.vsnprintf bufsiz fmt arguments))

  -- The arguments of the caller are not handed on; `passed` is what stands in their place.
  unfoldable pub printf : ℤ → Bytes → List Bytes → List Bytes → B.World → B.World × ℤ
  printf ret fmt arguments passed = sgx_printf ret fmt passed

  unfoldable pub sgx_printe : ℤ → Bytes → Bytes → List Bytes → B.World → B.World × ℤ
  sgx_printe ret fname fmt arguments = unasked ret (
      B.ocall_print_string (
        cut (
          codes "Error: "
          ++ fname
          ++ codes " failed!: "
          ++ B.vsnprintf bufsiz fmt arguments
          ++ 10 ∷ [])))

  unfoldable pub sgx_printl : ℤ → Bytes → Bytes → List Bytes → B.World → B.World × ℤ
  sgx_printl ret fname fmt arguments = unasked ret (
      B.ocall_print_string
        (cut (codes "LOG: " ++ fname ++ codes ": " ++ B.vsnprintf bufsiz fmt arguments ++ 10 ∷ [])))

  -- The bytes of a long, `retv` where the call fails.
  unfoldable pub sgx_rand : Bytes → B.World → B.World × Bytes
  sgx_rand retv = unasked retv (B.sgx_read_rand 8)

  -- The buffer behind the call, and the return value.
  unfoldable pub sgxssl_read_rand : Option Bytes → ℤ → B.World → B.World × Option Bytes × ℤ
  sgxssl_read_rand rand_buf length_in_bytes w = elim (refused rand_buf length_in_bytes) [
    | true ↦ (w, rand_buf, pos 1)
    | false ↦
        let (w', r) = B.sgx_read_rand (length_of length_in_bytes) w in
        (w', some r.answer, if r.status == sgx_success then pos 0 else pos 1)
  ]

-- The stubs: each returns one, whatever it is asked, beside a line that it prints.
abbrev pub ssl_ctx_use_certificate_chain_file : ℕ → Bytes → ℤ
ssl_ctx_use_certificate_chain_file ctx file = pos 1

abbrev pub ssl_ctx_use_private_key_file : ℕ → Bytes → ℤ → ℤ
ssl_ctx_use_private_key_file ctx file type_of = pos 1

abbrev pub ssl_ctx_load_verify_locations : ℕ → Bytes → Bytes → ℤ
ssl_ctx_load_verify_locations ctx ca_file ca_path = pos 1

abbrev pub x509_lookup_file : ℕ
x509_lookup_file = 1

abbrev pub x509_load_crl_file : ℕ → Bytes → ℤ → ℤ
x509_load_crl_file ctx file type_of = pos 1

abbrev pub bio_s_file : ℕ
bio_s_file = 1
