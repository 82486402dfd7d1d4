-- ===== src/Untrusted/Answers.antt =====
-- The answers of untrusted/my_wrappers_impl.cpp to the calls of the enclave: the system's functions, over
-- its state. Types as in Ocalls and Ocalls/Border.
pub mod Ssl
pub mod Getenv
mod Examples
use mongo_sgx_client.Base.{
  ℕ, ◌+◌, ◌*◌, ◌/◌, ◌-◌, ◌%◌, ◌^◌, ltb, if◌then◌else◌, Bytes, List, [], ◌∷◌, ◌++◌, Option, none,
  some, Run, done, fault, ◌>>=◌,
}
use mongo_sgx_client.Base.Integers.{ℤ, pos, negsuc}
use mongo_sgx_client.Ocalls.{OptionMemory, Msghdr, Outcome, aborts}
use mongo_sgx_client.Ocalls.Border.{Pollfd}

-- The memory of an argument: a pointer that the enclave handed over as it is, or a copy of its bytes.
pub data Place : Type 0 where
  at : ℕ → Place
  held : Bytes → Place

-- The functions of the system, by their names; open is open_file.
pub record Os : Type 1 where
  pub World : Type 0
  pub access : Bytes → ℤ → World → World × ℤ
  pub getaddrinfo : Option Bytes → Option Bytes → Option Bytes → World → World × ℤ × ℕ
  pub freeaddrinfo : ℕ → World → World × (Unit {0})
  pub fcntl : ℤ → ℤ → ℤ → World → World × ℤ
  pub poll : List Pollfd → ℕ → ℤ → World → World × ℤ × List Pollfd
  pub getsockopt : ℤ → ℤ → ℤ → OptionMemory → World → World × ℤ × OptionMemory
  pub setsockopt : ℤ → ℤ → ℤ → Bytes → ℕ → World → World × ℤ
  pub accept : ℤ → Place → ℕ → World → World × ℤ × Place × ℕ
  pub close : ℤ → World → World × ℤ
  pub ntohs : ℕ → World → World × ℕ
  pub bind : ℤ → Bytes → ℕ → World → World × ℤ
  pub shutdown : ℤ → ℤ → World → World × ℤ
  pub connect : ℤ → Place → ℕ → World → World × ℤ
  pub listen : ℤ → ℤ → World → World × ℤ
  pub socket : ℤ → ℤ → ℤ → World → World × ℤ
  pub recv : ℤ → Bytes → ℕ → ℤ → World → World × ℤ × Bytes
  pub send : ℤ → Bytes → ℕ → ℤ → World → World × ℤ
  pub sendmsg : ℕ → Msghdr → ℕ → World → World × ℤ
  pub gethostbyname : Bytes → World → World × ℕ
  pub read : ℤ → Bytes → ℕ → World → World × ℤ × Bytes
  pub gethostname : Bytes → ℕ → World → World × ℤ × Bytes
  pub getpid : World → World × ℤ
  pub usleep : ℕ → World → World × ℤ
  pub time : Option ℤ → World → World × ℤ × Option ℤ
  pub malloc : ℕ → World → World × ℕ
  pub free : ℕ → World → World × (Unit {0})
  pub getservbyname : Bytes → Bytes → World → World × ℕ
  -- The return value and the two buffers.
  pub getnameinfo : Bytes → ℕ → Bytes → ℕ → Bytes → ℕ → ℤ → World → World × ℤ × Bytes × Bytes
  pub getpeername : ℤ → ℕ → ℕ → World → World × ℤ × ℕ
  pub ioctl : ℤ → ℤ → World → World × ℤ
  pub open_file : Bytes → ℤ → World → World × ℤ
  pub localtime : ℤ → World → World × ℕ
  pub gmtime_r : ℤ → Bytes → World → World × ℕ × Bytes
  pub gettimeofday : Bytes → World → World × ℤ × Bytes
  pub write : ℤ → Bytes → ℕ → World → World × ℤ
  pub exit : ℤ → World → World
  -- Seconds and nanoseconds.
  pub clock_gettime : World → World × ℕ × ℕ
  -- The text, if the variable is there.
  pub getenv : Bytes → World → Option Bytes
  pub printf : Bytes → World → World × ℤ

module _ (os : Os) where
  unfoldable pub ocall_access : Bytes → ℤ → os.World → os.World × ℤ
  ocall_access path amode = os.access path amode

  unfoldable pub ocall_getaddrinfo :
      Option Bytes → Option Bytes → Option Bytes → os.World → os.World × ℤ × ℕ
  ocall_getaddrinfo node service hints = os.getaddrinfo node service hints

  unfoldable pub ocall_freeaddrinfo : ℕ → os.World → os.World × (Unit {0})
  ocall_freeaddrinfo res = os.freeaddrinfo res

  unfoldable pub ocall_fcntl : ℤ → ℤ → ℤ → os.World → os.World × ℤ
  ocall_fcntl fildes cmd arg = os.fcntl fildes cmd arg

  unfoldable pub ocall_poll : List Pollfd → ℕ → ℤ → os.World → os.World × ℤ × List Pollfd
  ocall_poll fds nfds timeout = os.poll fds nfds timeout

  unfoldable pub ocall_getsockopt :
      ℤ → ℤ → ℤ → OptionMemory → os.World → os.World × ℤ × OptionMemory
  ocall_getsockopt socket level option_name memory = os.getsockopt socket level option_name memory

  unfoldable pub ocall_setsockopt : ℤ → ℤ → ℤ → Bytes → ℕ → os.World → os.World × ℤ
  ocall_setsockopt socket level option_name option_value option_len =
      os.setsockopt socket level option_name option_value option_len

  unfoldable pub ocall_accept : ℤ → ℕ → ℕ → os.World → os.World × ℤ × ℕ
  ocall_accept socket address address_len w =
      let (w', retv, place, len) = os.accept socket (at address) address_len w in (w', retv, len)

  unfoldable pub ocall_close : ℤ → os.World → os.World × ℤ
  ocall_close fildes = os.close fildes

  unfoldable pub ocall_ntohs : ℕ → os.World → os.World × ℕ
  ocall_ntohs netshort = os.ntohs netshort

  unfoldable pub ocall_bind : ℤ → Bytes → ℕ → os.World → os.World × ℤ
  ocall_bind socket address address_len = os.bind socket address address_len

  unfoldable pub ocall_shutdown : ℤ → ℤ → os.World → os.World × ℤ
  ocall_shutdown socket how = os.shutdown socket how

  unfoldable pub ocall_connect : ℤ → ℕ → ℕ → os.World → os.World × ℤ
  ocall_connect socket address address_len = os.connect socket (at address) address_len

  unfoldable pub ocall_listen : ℤ → ℤ → os.World → os.World × ℤ
  ocall_listen socket backlog = os.listen socket backlog

  unfoldable pub ocall_socket : ℤ → ℤ → ℤ → os.World → os.World × ℤ
  ocall_socket domain type_of protocol = os.socket domain type_of protocol

  unfoldable pub ocall_recv : ℤ → Bytes → ℕ → ℤ → os.World → os.World × ℤ × Bytes
  ocall_recv socket buffer size flags = os.recv socket buffer size flags

  unfoldable pub ocall_send : ℤ → Bytes → ℕ → ℤ → os.World → os.World × ℤ
  ocall_send socket buffer size flags = os.send socket buffer size flags

  unfoldable pub ocall_sendmsg : ℕ → Msghdr → ℕ → os.World → os.World × ℤ
  ocall_sendmsg socket message flags = os.sendmsg socket message flags

  unfoldable pub ocall_gethostbyname : Bytes → os.World → os.World × ℕ
  ocall_gethostbyname name = os.gethostbyname name

  unfoldable pub ocall_read : ℤ → Bytes → ℕ → os.World → os.World × ℤ × Bytes
  ocall_read fildes buf nbyte = os.read fildes buf nbyte

  unfoldable pub ocall_gethostname : Bytes → ℕ → os.World → os.World × ℤ × Bytes
  ocall_gethostname name namelen = os.gethostname name namelen

  unfoldable pub ocall_getpid : os.World → os.World × ℤ
  ocall_getpid = os.getpid

  unfoldable pub ocall_usleep : ℕ → os.World → os.World × ℤ
  ocall_usleep usec = os.usleep usec

  unfoldable pub ocall_time : Option ℤ → os.World → os.World × ℤ × Option ℤ
  ocall_time tloc = os.time tloc

  unfoldable pub ocall_malloc : ℕ → os.World → os.World × ℕ
  ocall_malloc size = os.malloc size

  unfoldable pub ocall_free : ℕ → os.World → os.World × (Unit {0})
  ocall_free ptr = os.free ptr

  unfoldable pub ocall_getservbyname : Bytes → Bytes → os.World → os.World × ℕ
  ocall_getservbyname name proto = os.getservbyname name proto

  unfoldable pub ocall_getnameinfo :
      Bytes → ℕ → Bytes → ℕ → Bytes → ℕ → ℤ → os.World → os.World × ℤ × Bytes × Bytes
  ocall_getnameinfo addr addrlen host hostlen serv servlen flags =
      os.getnameinfo addr addrlen host hostlen serv servlen flags

  unfoldable pub ocall_getpeername : ℤ → ℕ → ℕ → os.World → os.World × ℤ × ℕ
  ocall_getpeername socket address address_len = os.getpeername socket address address_len

  -- The arguments behind `request` are dropped.
  unfoldable pub ocall_ioctl : ℤ → ℤ → os.World → os.World × ℤ
  ocall_ioctl fildes request = os.ioctl fildes request

  -- The mode behind `oflag` is dropped.
  unfoldable pub ocall_open : Bytes → ℤ → os.World → os.World × ℤ
  ocall_open path oflag = os.open_file path oflag
