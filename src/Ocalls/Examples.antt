-- ===== src/Ocalls/Examples.antt =====
-- The theorems about the wrappers with a concrete host.
use mongo_sgx_client.Base.{ℕ, ◌+◌, ◌*◌, ◌≡◌, refl, leb, none, [], ◌∷◌, codes, set, done, arith}
use mongo_sgx_client.Base.Integers.{pos}
use mongo_sgx_client.Ocalls.Border.{Border, Call}
use mongo_sgx_client.Ocalls.Wrappers.{getaddrinfo}
use mongo_sgx_client.Ocalls.{returns, Host, Msghdr, getsockopt, sendmsg}
use mongo_sgx_client.Ocalls.Copies.{getsockopt_lem, sendmsg_lem}

-- A host that sets the first byte of an option, claims a length of a thousand, and accepts every
-- message.
abbrev host : Host
host = record {
  ocall_getsockopt = λ s l o m. record {
    status = 0;
    answer = (pos 0, record { option_value = set m.option_value 0 1; option_len = 1000 });
  };
  ocall_sendmsg = λ s m f. record { status = 0; answer = pos m.msg_iovlen };
}

abbrev message : Msghdr
message = record {
  msg_name = codes "ab";
  msg_namelen = 2;
  msg_iov =
      record { iov_base = codes "xyz"; iov_len = 3 } ∷ record { iov_base = []; iov_len = 0 } ∷ [];
  msg_iovlen = 2;
  msg_control = codes "c";
  msg_controllen = 1;
  msg_flags = 0;
}

getsockopt_lem_example :
    getsockopt host 3 1 4 (0 ∷ 0 ∷ 0 ∷ 0 ∷ 9 ∷ []) 4
    ≡ done (returns (pos 0, 1 ∷ 0 ∷ 0 ∷ 0 ∷ 9 ∷ [], 1000))
getsockopt_lem_example = getsockopt_lem host 3 1 4 (0 ∷ 0 ∷ 0 ∷ 0 ∷ 9 ∷ []) 4 (omega arith) refl

sendmsg_lem_example : sendmsg host 3 message 0 (7 ∷ 7 ∷ []) ≡ done (returns (pos 2))
sendmsg_lem_example = sendmsg_lem host 3 0 message (7 ∷ 7 ∷ []) refl refl (refl, (refl, tt))

abbrev idle {ℓ} : {A : Type ℓ} → A → Call ℕ A
idle a w = (w, record { status = 0; answer = a })

-- A border where every call succeeds and does nothing, whose list of addresses stands at 4096, where
-- the addresses from 1000 are outside, and whose world is the state of the random numbers.
abbrev border : Border
border = record {
  World = ℕ;
  sgx_is_outside_enclave = λ address size. leb 1000 address;
  ocall_access = λ path amode. idle (pos 0);
  ocall_getaddrinfo = λ node service hints. idle (pos 0, 4096);
  ocall_freeaddrinfo = λ res. idle tt;
  ocall_print_string = λ text. idle (pos 0);
  ocall_fcntl = λ fildes cmd arg. idle (pos 0);
  ocall_poll = λ fds nfds timeout. idle (pos 0, fds);
  ocall_setsockopt = λ s level option_name value len. idle (pos 0);
  ocall_accept = λ s address len. idle (pos 0, len);
  ocall_close = λ fildes. idle (pos 0);
  ocall_ntohs = λ netshort. idle netshort;
  ocall_bind = λ s address len. idle (pos 0);
  ocall_shutdown = λ s how. idle (pos 0);
  ocall_connect = λ s address len. idle (pos 0);
  ocall_listen = λ s backlog. idle (pos 0);
  ocall_socket = λ domain type_of protocol. idle (pos 0);
  ocall_recv = λ s buffer size flags. idle (pos 0, buffer);
  ocall_send = λ s buffer size flags. idle (pos 0);
  ocall_gethostbyname = λ name. idle 4096;
  ocall_read = λ fildes buf nbyte. idle (pos 0, buf);
  ocall_usleep = λ usec. idle (pos 0);
  ocall_getpid = idle (pos 7);
  ocall_gethostname = λ name namelen. idle (pos 0, name);
  ocall_time = λ tloc. idle (pos 0, tloc);
  srand = λ seed w. seed;
  rand = λ w. (w * 5 + 1, pos (w * 3));
}

address_outside : (getaddrinfo border none none none 5).1 ≡ returns (pos 0, 4096)
unfolding getaddrinfo
address_outside = refl
