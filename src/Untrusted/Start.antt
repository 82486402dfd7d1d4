-- ===== src/Untrusted/Start.antt =====
-- `initialize_enclave` and `main` of untrusted/sample.cpp, over the system's calls.
use mongo_sgx_client.Base.{
  ℕ, ◌==◌, Bool, true, false, ◌&&◌, not, Bytes, ◌++◌, Option, none, some, length, drop, replicate,
  Run, done, fault,
}
use mongo_sgx_client.Base.Integers.{ℤ, pos, negsuc}
use mongo_sgx_client.Untrusted.Token.{token_path}

-- What `sgx_create_enclave_ex` gives back.
pub record Created : Type 0 where
  pub ret : ℕ
  pub new_token : Bytes
  pub updated : Bool
  pub eid : ℕ

-- The system and the untrusted part of the SGX runtime. A path is the buffer that holds it; a file is a
-- number, and no number is NULL.
pub record System : Type 1 where
  pub World : Type 0
  pub max_path : ℕ
  -- sizeof(sgx_launch_token_t).
  pub token_size : ℕ
  pub home_dir : World → Option Bytes
  pub open_read : Bytes → World → World × Option ℕ
  pub open_write : Bytes → World → World × Option ℕ
  pub reopen_write : Bytes → ℕ → World → World × Option ℕ
  -- The bytes that were read.
  pub fread : ℕ → ℕ → World → World × Bytes
  pub fwrite : ℕ → Bytes → World → World
  pub fclose : ℕ → World → World
  pub sgx_create_enclave_ex : Bytes → World → World × Created
  -- The change to the folder of the program.
  pub chdir : World → World × ℤ
  -- The status, and `ecall_return`.
  pub ecall_sample : ℕ → World → World × ℕ × ℤ
  pub sgx_destroy_enclave : ℕ → World → World

abbrev pub sgx_success : ℕ
sgx_success = 0

module _ (S : System) where
  -- `if (fp != NULL) fclose(fp);`.
  abbrev pub close_file : Option ℕ → S.World → S.World
  close_file none w = w
  close_file (some fp) w = S.fclose fp w

  -- The file with the token, or a new one.
  unfoldable pub open_token : Bytes → S.World → S.World × Option ℕ
  open_token path w =
      let (w', fp) = S.open_read path w in
      elim fp [ some f ↦ (w', some f) | none ↦ S.open_write path w' ]

  -- The token behind the read: what is not read stays zero, and a part of a token is cleared.
  abbrev pub token_read : Bytes → Bytes
  token_read bytes = elim (not (length bytes == 0) && not (length bytes == S.token_size)) [
    | true ↦ replicate S.token_size 0
    | false ↦ bytes ++ drop (length bytes) (replicate S.token_size 0)
  ]

  unfoldable pub read_token : Option ℕ → S.World → S.World × Bytes
  read_token none w = (w, replicate S.token_size 0)
  read_token (some fp) w = let (w', bytes) = S.fread fp S.token_size w in (w', token_read bytes)

  -- The updated token is written to the file, opened anew.
  unfoldable pub save_token : Bytes → ℕ → Bytes → S.World → S.World
  save_token path fp token w =
      let (w', opened) = S.reopen_write path fp w in
      elim opened [ none ↦ w' | some f ↦ S.fclose f (S.fwrite f token w') ]

  unfoldable pub third_step : Bytes → Option ℕ → Created → S.World → S.World
  third_step path none created w = w
  third_step path (some fp) created w = elim created.updated [
    | false ↦ S.fclose fp w
    | true ↦ save_token path fp created.new_token w
  ]

  -- From the file on. The result is the return value and `global_eid`.
  unfoldable pub initialize_with : Bytes → S.World → S.World × ℤ × ℕ
  initialize_with path w =
      let (w1, fp) = open_token path w in
      let (w2, token) = read_token fp w1 in
      let (w3, created) = S.sgx_create_enclave_ex token w2 in
      elim (created.ret == sgx_success) [
        | false ↦ (close_file fp w3, negsuc 0, created.eid)
        | true ↦ (third_step path fp created w3, pos 0, created.eid)
      ]

  unfoldable pub initialize_enclave : S.World → Run (S.World × ℤ × ℕ)
  initialize_enclave w = elim (token_path S.max_path (S.home_dir w)) [
    | fault ↦ fault
    | done path ↦ done (initialize_with path w)
  ]

  -- The end of the program.
  unfoldable pub run_enclave : ℕ → S.World → S.World × Option ℤ
  run_enclave global_eid w =
      let (w', ret, ecall_return) = S.ecall_sample global_eid w in
      elim (ret == sgx_success) [
        | false ↦ (w', none)
        | true ↦ (S.sgx_destroy_enclave global_eid w', some ecall_return)
      ]

  abbrev is_negative : ℤ → Bool
  is_negative (pos n) = false
  is_negative (negsuc n) = true

  abbrev after_start : S.World × ℤ × ℕ → S.World × Option ℤ
  after_start (w, retval, global_eid) = elim (is_negative retval) [
    | true ↦ (w, some (negsuc 0))
    | false ↦ run_enclave global_eid w
  ]

  -- `none` is `abort`.
  unfoldable pub main : S.World → Run (S.World × Option ℤ)
  main w =
      let (w1, status) = S.chdir w in
      elim status [
        | negsuc n ↦ done (w1, none)
        | pos n ↦ elim (n == 0) [
          | false ↦ done (w1, none)
          | true ↦ elim (initialize_enclave w1) [
            | fault ↦ fault
            | done started ↦ done (after_start started)
          ]
        ]
      ]
