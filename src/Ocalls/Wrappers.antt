-- ===== src/Ocalls/Wrappers.antt =====
-- The functions of trusted/my_wrappers.c that hand a call on to the host.
use mongo_sgx_client.Base.{
  ℕ, ◌-◌, ◌%◌, ◌==◌, Bool, Bytes, List, [], ◌∷◌, ◌++◌, Option, codes, done, Run, ◌>>=◌,
  if◌then◌else◌,
}
use mongo_sgx_client.Base.Integers.{ℤ, pos, negsuc}
use mongo_sgx_client.Libc.{write}
use mongo_sgx_client.Ocalls.{Outcome, returns, aborts, sgx_success}
use mongo_sgx_client.Ocalls.Border.{Border, Pollfd, through}

-- sizeof(struct addrinfo).
abbrev pub sizeof_addrinfo : ℕ
sizeof_addrinfo = 48

-- EOF and EINVAL.
abbrev pub eof : ℤ
eof = negsuc 0

abbrev pub einval : ℤ
einval = pos 22

-- `(char) c` as a byte.
abbrev pub char_of : ℤ → ℕ
char_of (pos n) = n % 256
char_of (negsuc n) = 255 - n % 256

-- The text in `{ (char) c, '\0' }`.
abbrev pub one_char : ℤ → Bytes
one_char c = if char_of c == 0 then [] else char_of c ∷ []

-- `if (!sgx_is_outside_enclave(...)) sgx_exit();`.
abbrev pub unless_inside {ℓ} : {A : Type ℓ} → Bool → A → Outcome A
unless_inside outside a = if outside then returns a else aborts

-- The fields of `struct utsname`, each a buffer.
pub record Utsname : Type 0 where
  pub machine : Bytes
  pub nodename : Bytes
  pub release : Bytes
  pub sysname : Bytes
  pub version : Bytes

-- `strncpy(field, "SGX", 4)`.
abbrev pub put_sgx : Bytes → Run Bytes
put_sgx field = write field 0 (codes "SGX" ++ 0 ∷ [])

unfoldable pub uname : Utsname → Run (ℤ × Utsname)
uname name = put_sgx name.machine >>= λ machine. put_sgx name.nodename >>= λ nodename.
    put_sgx name.release >>= λ release. put_sgx name.sysname >>= λ sysname.
    put_sgx name.version >>= λ version. done (
      pos 0,
      record {
        machine = machine;
        nodename = nodename;
        release = release;
        sysname = sysname;
        version = version;
      },
    )

abbrev pub xpg_strerror_r : ℤ → Bytes → ℕ → ℤ
xpg_strerror_r errnum buf buflen = einval

abbrev pub ssl_ctx_set_default_verify_paths : ℕ → ℤ
ssl_ctx_set_default_verify_paths ctx = pos 1

module _ (B : Border) where
  unfoldable pub access : Bytes → ℤ → B.World → B.World × Outcome ℤ
  access path amode = through (B.ocall_access path amode)

  -- The return value, and the address in `*res`.
  unfoldable pub getaddrinfo :
      Option Bytes → Option Bytes → Option Bytes → B.World → B.World × Outcome (ℤ × ℕ)
  getaddrinfo node service hints w =
      let (w', r) = B.ocall_getaddrinfo node service hints w in
      (
        w',
        if r.status == sgx_success
            then unless_inside (B.sgx_is_outside_enclave r.answer.1 sizeof_addrinfo) r.answer
            else aborts,
      )

  unfoldable pub freeaddrinfo : ℕ → B.World → B.World × Outcome (Unit {0})
  freeaddrinfo res = through (B.ocall_freeaddrinfo res)

  unfoldable pub putchar : ℤ → B.World → B.World × ℤ
  putchar c w =
      let (w', r) = B.ocall_print_string (one_char c) w in
      (w', if r.status == sgx_success then c else eof)

  unfoldable pub fcntl : ℤ → ℤ → ℤ → B.World → B.World × Outcome ℤ
  fcntl fildes cmd arg = through (B.ocall_fcntl fildes cmd arg)

  unfoldable pub poll : List Pollfd → ℕ → ℤ → B.World → B.World × Outcome (ℤ × List Pollfd)
  poll fds nfds timeout = through (B.ocall_poll fds nfds timeout)

  unfoldable pub setsockopt : ℤ → ℤ → ℤ → Bytes → ℕ → B.World → B.World × Outcome ℤ
  setsockopt socket level option_name option_value option_len =
      through (B.ocall_setsockopt socket level option_name option_value option_len)

  -- The address is the caller's pointer; the number is `*address_len`, before and behind the call.
  unfoldable pub accept : ℤ → ℕ → ℕ → B.World → B.World × Outcome (ℤ × ℕ)
  accept socket address address_len w =
      let (w', r) = B.ocall_accept socket address address_len w in
      (
        w',
        if r.status == sgx_success
            then unless_inside (B.sgx_is_outside_enclave address sizeof_addrinfo) r.answer
            else aborts,
      )

  unfoldable pub close : ℤ → B.World → B.World × Outcome ℤ
  close fildes = through (B.ocall_close fildes)

  unfoldable pub ntohs : ℕ → B.World → B.World × Outcome ℕ
  ntohs netshort = through (B.ocall_ntohs netshort)

  unfoldable pub bind : ℤ → Bytes → ℕ → B.World → B.World × Outcome ℤ
  bind socket address address_len = through (B.ocall_bind socket address address_len)

  unfoldable pub shutdown : ℤ → ℤ → B.World → B.World × Outcome ℤ
  shutdown socket how = through (B.ocall_shutdown socket how)

  unfoldable pub connect : ℤ → ℕ → ℕ → B.World → B.World × Outcome ℤ
  connect socket address address_len = through (B.ocall_connect socket address address_len)

  unfoldable pub listen : ℤ → ℤ → B.World → B.World × Outcome ℤ
  listen socket backlog = through (B.ocall_listen socket backlog)

  unfoldable pub socket : ℤ → ℤ → ℤ → B.World → B.World × Outcome ℤ
  socket domain type_of protocol = through (B.ocall_socket domain type_of protocol)

  unfoldable pub recv : ℤ → Bytes → ℕ → ℤ → B.World → B.World × Outcome (ℤ × Bytes)
  recv socket buffer size flags = through (B.ocall_recv socket buffer size flags)

  unfoldable pub send : ℤ → Bytes → ℕ → ℤ → B.World → B.World × Outcome ℤ
  send socket buffer size flags = through (B.ocall_send socket buffer size flags)

  unfoldable pub gethostbyname : Bytes → B.World → B.World × Outcome ℕ
  gethostbyname name = through (B.ocall_gethostbyname name)

  unfoldable pub read : ℤ → Bytes → ℕ → B.World → B.World × Outcome (ℤ × Bytes)
  read fildes buf nbyte = through (B.ocall_read fildes buf nbyte)

  unfoldable pub usleep : ℕ → B.World → B.World × Outcome ℤ
  usleep usec = through (B.ocall_usleep usec)

  unfoldable pub getpid : B.World → B.World × Outcome ℤ
  getpid = through B.ocall_getpid

  unfoldable pub gethostname : Bytes → ℕ → B.World → B.World × Outcome (ℤ × Bytes)
  gethostname name namelen = through (B.ocall_gethostname name namelen)

  unfoldable pub time : Option ℤ → B.World → B.World × Outcome (ℤ × Option ℤ)
  time tloc = through (B.ocall_time tloc)

  -- `*seedp` stays as it is.
  unfoldable pub rand_r : ℕ → B.World → B.World × ℤ
  rand_r seed w = B.rand (B.srand seed w)
