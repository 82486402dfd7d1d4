-- ===== src/Untrusted/Files.antt =====
-- The files that `initialize_enclave` of untrusted/sample.cpp opens and closes.
use mongo_sgx_client.Base.{
  ℕ, ◌≡◌, ◌==◌, ◌∙◌, ap, Bytes, List, ◌∷◌, Option, none, some, Bool-cases, Option-cases, inl, inr,
}
use mongo_sgx_client.Untrusted.Start.{
  System, Created, sgx_success, close_file, open_token, read_token, save_token, third_step,
  initialize_with,
}

-- A file more, if there is one.
abbrev pub with_file : List ℕ → Option ℕ → List ℕ
with_file fs none = fs
with_file fs (some f) = f ∷ fs

-- The files that are open, the last one first, and what the system's calls do to them. A file that is
-- opened anew is closed first, also where it cannot be opened.
pub record IsCounted (S : System) : Type 0 where
  pub open_files : S.World → List ℕ
  pub read_opens :
      (path : Bytes) (w : S.World)
      → open_files (S.open_read path w).0 ≡ with_file (open_files w) (S.open_read path w).1
  pub write_opens :
      (path : Bytes) (w : S.World)
      → open_files (S.open_write path w).0 ≡ with_file (open_files w) (S.open_write path w).1
  pub reopens :
      (path : Bytes) (f : ℕ) (fs : List ℕ) (w : S.World)
      → open_files w ≡ f ∷ fs
      → open_files (S.reopen_write path f w).0 ≡ with_file (fs) (S.reopen_write path f w).1
  pub fclose_closes :
      (f : ℕ) (fs : List ℕ) (w : S.World) → open_files w ≡ f ∷ fs → open_files (S.fclose f w) ≡ fs
  pub fread_keeps : (f n : ℕ) (w : S.World) → open_files (S.fread f n w).0 ≡ open_files w
  pub fwrite_keeps :
      (f : ℕ) (bs : Bytes) (w : S.World) → open_files (S.fwrite f bs w) ≡ open_files w
  pub create_keeps :
      (token : Bytes) (w : S.World) → open_files (S.sgx_create_enclave_ex token w).0 ≡ open_files w

module _ (S : System) (C : IsCounted S) where
  -- These files are open, and the one that the pointer has, if it has one, before them.
  abbrev Held : Option ℕ → List ℕ → S.World → Type 0
  Held fp fs w = C.open_files w ≡ with_file fs fp

  open_token-Held :
      (path : Bytes) (w : S.World)
      → Held (open_token S path w).1 (C.open_files w) (open_token S path w).0
  unfolding open_token
  open_token-Held path w =
      let r = S.open_read path w in
      elim (Option-cases r.1) [
        | inl closed ↦
            let same : C.open_files r.0 ≡ C.open_files w =
              C.read_opens path w ∙ ap (with_file (C.open_files w)) closed in
            rw (open_token, closed)
              (C.write_opens path r.0 ∙ ap (λ fs. with_file fs (S.open_write path r.0).1) same)
        | inr (f, opened) ↦
            rw (open_token, opened) (C.read_opens path w ∙ ap (with_file (C.open_files w)) opened)
      ]

  read_token-Held :
      (fp : Option ℕ) (fs : List ℕ) (w : S.World) → Held fp fs w → Held fp fs (read_token S fp w).0
  unfolding read_token
  read_token-Held none fs w h = h
  read_token-Held (some f) fs w h = C.fread_keeps f S.token_size w ∙ h

  close_file-Held :
      (fp : Option ℕ) (fs : List ℕ) (w : S.World)
      → Held fp fs w
      → C.open_files (close_file S fp w) ≡ fs
  close_file-Held none fs w h = h
  close_file-Held (some f) fs w h = C.fclose_closes f fs w h

  save_token-Held :
      (path : Bytes) (f : ℕ) (token : Bytes) (fs : List ℕ) (w : S.World)
      → Held (some f) fs w
      → C.open_files (save_token S path f token w) ≡ fs
  unfolding save_token
  save_token-Held path f token fs w h =
      let r = S.reopen_write path f w in
      let again = C.reopens path f fs w h in
      elim (Option-cases r.1) [
        | inl failed ↦ rw (save_token, failed) (again ∙ ap (with_file fs) failed)
        | inr (g, opened) ↦
            rw (save_token, opened)
              (C.fclose_closes g fs (S.fwrite g token r.0)
                (C.fwrite_keeps g token r.0 ∙ again ∙ ap (with_file fs) opened))
      ]

  third_step-Held :
      (path : Bytes) (fp : Option ℕ) (created : Created) (fs : List ℕ) (w : S.World)
      → Held fp fs w
      → C.open_files (third_step S path fp created w) ≡ fs
  unfolding third_step
  third_step-Held path none created fs w h = h
  third_step-Held path (some f) created fs w h = elim (Bool-cases created.updated) [
    | inl new ↦ rw new (save_token-Held path f created.new_token fs w h)
    | inr old ↦ rw old (C.fclose_closes f fs w h)
  ]

  -- If the system's calls open and close files as they say: initialize_enclave leaves as many files open
  -- as there were, whether the token's file can be opened, read, opened anew and the enclave created or
  -- not; every file that it opened is closed.
  pub initialize_with-open_files :
      (path : Bytes) (w : S.World) → C.open_files (initialize_with S path w).0 ≡ C.open_files w
  unfolding initialize_with
  initialize_with-open_files path w =
      let (w1, fp) = open_token S path w in
      let (w2, token) = read_token S fp w1 in
      let (w3, created) = S.sgx_create_enclave_ex token w2 in
      let fs = C.open_files w in
      let held : Held fp fs w3 =
        C.create_keeps token w2 ∙ read_token-Held fp fs w1 (open_token-Held path w) in
      elim (Bool-cases (created.ret == sgx_success)) [
        | inl created_well ↦
            rw (initialize_with, created_well) (third_step-Held path fp created fs w3 held)
        | inr failed ↦ rw (initialize_with, failed) (close_file-Held fp fs w3 held)
      ]
