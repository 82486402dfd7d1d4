-- ===== src/Untrusted/Answers/Examples.antt =====
-- ocall_sgx_getenv over a concrete system.
use mongo_sgx_client.Base.{◌≡◌, refl, [], ◌∷◌, ◌++◌, none, some, codes, replicate, done, fault}
use mongo_sgx_client.Base.Integers.{pos}
use mongo_sgx_client.Untrusted.Answers.{Os}
use mongo_sgx_client.Untrusted.Answers.Ssl.{ocall_sgx_getenv}
use mongo_sgx_client.Untrusted.Answers.Getenv.{ocall_sgx_getenv_lem}

-- Every variable is "/h", and everything else answers 0.
abbrev os : Os
os = record {
  World = Unit;
  access = λ a0 a1 w. (w, pos 0);
  getaddrinfo = λ a0 a1 a2 w. (w, pos 0, 0);
  freeaddrinfo = λ a0 w. (w, tt);
  fcntl = λ a0 a1 a2 w. (w, pos 0);
  poll = λ a0 a1 a2 w. (w, pos 0, []);
  getsockopt = λ a0 a1 a2 a3 w. (w, pos 0, a3);
  setsockopt = λ a0 a1 a2 a3 a4 w. (w, pos 0);
  accept = λ a0 a1 a2 w. (w, pos 0, a1, 0);
  close = λ a0 w. (w, pos 0);
  ntohs = λ a0 w. (w, 0);
  bind = λ a0 a1 a2 w. (w, pos 0);
  shutdown = λ a0 a1 w. (w, pos 0);
  connect = λ a0 a1 a2 w. (w, pos 0);
  listen = λ a0 a1 w. (w, pos 0);
  socket = λ a0 a1 a2 w. (w, pos 0);
  recv = λ a0 a1 a2 a3 w. (w, pos 0, []);
  send = λ a0 a1 a2 a3 w. (w, pos 0);
  sendmsg = λ a0 a1 a2 w. (w, pos 0);
  gethostbyname = λ a0 w. (w, 0);
  read = λ a0 a1 a2 w. (w, pos 0, []);
  gethostname = λ a0 a1 w. (w, pos 0, []);
  getpid = λ w. (w, pos 0);
  usleep = λ a0 w. (w, pos 0);
  time = λ a0 w. (w, pos 0, none);
  malloc = λ a0 w. (w, 0);
  free = λ a0 w. (w, tt);
  getservbyname = λ a0 a1 w. (w, 0);
  getnameinfo = λ a0 a1 a2 a3 a4 a5 a6 w. (w, pos 0, [], []);
  getpeername = λ a0 a1 a2 w. (w, pos 0, 0);
  ioctl = λ a0 a1 w. (w, pos 0);
  open_file = λ a0 a1 w. (w, pos 0);
  localtime = λ a0 w. (w, 0);
  gmtime_r = λ a0 a1 w. (w, 0, []);
  gettimeofday = λ a0 w. (w, pos 0, []);
  write = λ a0 a1 a2 w. (w, pos 0);
  exit = λ e w. w;
  clock_gettime = λ w. (w, 0, 0);
  getenv = λ env w. some (codes "/h");
  printf = λ a0 w. (w, pos 0);
}

home :
    ocall_sgx_getenv os (codes "HOME") (replicate 5 9) 5 tt
    ≡ done (pos 0, codes "/h" ++ 0 ∷ 9 ∷ 9 ∷ [])
home = ocall_sgx_getenv_lem os (codes "HOME") (replicate 5 9) (codes "/h") 5 tt refl

-- A buffer of two bytes is too small for the text and its NUL.
small_buffer : ocall_sgx_getenv os (codes "HOME") (replicate 2 9) 2 tt ≡ fault
small_buffer = ocall_sgx_getenv_lem os (codes "HOME") (replicate 2 9) (codes "/h") 2 tt refl
