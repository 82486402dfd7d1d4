-- ===== src/Untrusted/Examples.antt =====
-- The start of the enclave with a concrete system.
use mongo_sgx_client.Base.{
  ℕ, ◌<◌, ◌≡◌, refl, true, List, [], ◌∷◌, ◌++◌, ap, none, some, codes, replicate, length, done,
  arith,
}
use mongo_sgx_client.Base.Integers.{pos}
use mongo_sgx_client.Libc.{strlen, strncpy}
use mongo_sgx_client.Untrusted.Messages.{
  SgxError, error_unexpected, error_invalid_parameter, error_out_of_memory, error_enclave_lost,
  error, info, error_code, print_error_message, messages,
}
use mongo_sgx_client.Untrusted.Token.{token_path, composed, short_path, token_filename}
use mongo_sgx_client.Untrusted.Token.Fits.{token_path-path_text}
use mongo_sgx_client.Untrusted.Start.{System, initialize_with}
use mongo_sgx_client.Untrusted.Files.{IsCounted, initialize_with-open_files}

abbrev behind : List ℕ → List ℕ
behind [] = []
behind (f ∷ fs) = fs

-- The world is the list of the files that are open. There is no file to read; a file that is written is
-- number 7, and the enclave is created with a new token.
abbrev system : System
system = record {
  World = List ℕ;
  max_path = 32;
  token_size = 4;
  home_dir = λ w. some (codes "/home/al" ++ 0 ∷ []);
  open_read = λ path w. (w, none);
  open_write = λ path w. (7 ∷ w, some 7);
  reopen_write = λ path f w. (behind w, none);
  fread = λ f n w. (w, []);
  fwrite = λ f bs w. w;
  fclose = λ f w. behind w;
  sgx_create_enclave_ex =
      λ token w. (w, record { ret = 0; new_token = 1 ∷ 2 ∷ 3 ∷ 4 ∷ []; updated = true; eid = 5 });
  chdir = λ w. (w, pos 0);
  ecall_sample = λ eid w. (w, 0, pos 0);
  sgx_destroy_enclave = λ eid w. w;
}

abbrev system-IsCounted : IsCounted system
system-IsCounted = record {
  open_files = λ w. w;
  read_opens = λ path w. refl;
  write_opens = λ path w. refl;
  reopens = λ path f fs w h. ap behind h;
  fclose_closes = λ f fs w h. ap behind h;
  fread_keeps = λ f n w. refl;
  fwrite_keeps = λ f bs w. refl;
  create_keeps = λ token w. refl;
}

initialize_with-open_files_example :
    (initialize_with system (codes "enclave.token" ++ 0 ∷ []) (3 ∷ [])).0 ≡ 3 ∷ []
initialize_with-open_files_example =
    initialize_with-open_files system system-IsCounted (codes "enclave.token" ++ 0 ∷ []) (3 ∷ [])

token_path-path_text_example :
    (token_path 32 (some (codes "/h" ++ 0 ∷ 9 ∷ []))
      ≡ done (codes "/h/enclave.token" ++ replicate 16 0))
    × (length (codes "/h/enclave.token") < 32)
token_path-path_text_example =
    token_path-path_text 32 (some (codes "/h")) (9 ∷ []) (omega arith)
      ((λ e. omega arith), ((λ e. omega arith), tt))

-- A home directory that is too long for the buffer.
long_home :
    token_path 20 (some (codes "/home/al" ++ 0 ∷ [])) ≡ done (token_filename ++ replicate 7 0)
unfolding token_path strlen composed short_path strncpy
long_home = refl

-- The constants, numbered from 1 for the first three, and the messages for two of them.
abbrev code : SgxError → ℕ
code error_unexpected = 1
code error_invalid_parameter = 2
code error_out_of_memory = 3
code error_enclave_lost = 4
code _ = 5

two_messages :
    print_error_message code 4
    ≡ info (codes "Please refer to the sample \"PowerTransition\" for details.")
      ∷ error (codes "Power transition occurred.")
      ∷ []
unfolding print_error_message messages
two_messages = refl

unknown_message : print_error_message code 9 ≡ error_code 9 ∷ []
unfolding print_error_message messages
unknown_message = refl
