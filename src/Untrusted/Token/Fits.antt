-- ===== src/Untrusted/Token/Fits.antt =====
-- The path of the launch token stays inside of its buffer.
use mongo_sgx_client.Base.{
  ℕ, zero, suc, ◌+◌, ◌-◌, ◌≤◌, ◌<◌, ◌≡◌, ◌≢◌, refl, All-append, sym, ◌∙◌, ap, ap₂, true, false,
  Bytes, [], ◌∷◌, ◌++◌, append_assoc, Option, none, some, codes, replicate, length, take, drop, leb,
  take-append, drop-append, length-append, length-replicate, arith, done, ◌>>=◌, if◌then◌else◌,
  Bool-cases, inl, inr,
}
use mongo_sgx_client.Libc.{write, strlen, strncpy}
use mongo_sgx_client.Libc.Laws.{IsText, write_fits, strlen_text, strncpy_exact}
use mongo_sgx_client.Untrusted.Token.{
  token_filename, sizeof_token_filename, up_to, strncat, home_path, short_path, composed,
  token_path,
}

-- A write over as many bytes as are written.
write_over :
    (t old new rest : Bytes)
    → length old ≡ length new
    → write (t ++ old ++ rest) (length t) new ≡ done (t ++ new ++ rest)
write_over t old new rest e =
    let front : take (length t) (t ++ old ++ rest) ≡ t =
      ap (take (length t)) (append_assoc t old rest) ∙ take-append t (old ++ rest) in
    let whole : length t + length new ≡ length (t ++ old) =
      omega (arith, length-append {0} t old) in
    let behind : drop (length t + length new) (t ++ old ++ rest) ≡ rest =
      ap (λ n. drop n (t ++ old ++ rest)) whole ∙ drop-append (t ++ old) rest in
    write_fits (t ++ old ++ rest) new (length t)
      (omega (arith, length-append {0} (t ++ old) rest, length-append {0} t old))
    ∙ ap₂ (λ a b. done (a ++ new ++ b)) front behind

abbrev pub zeros : ℕ → Bytes
zeros n = replicate n 0

zeros_add : (m n : ℕ) → zeros (m + n) ≡ zeros m ++ zeros n
zeros_add zero n = ap zeros (omega arith)
zeros_add (suc m) n =
    let more : suc m + n ≡ suc (m + n) = omega arith in
    ap zeros more ∙ ap (λ t. 0 ∷ t) (zeros_add m n)

-- strncat behind a text, where zeros are left for what comes and for its NUL.
strncat_text :
    (t src bs : Bytes) (n k : ℕ)
    → IsText t
    → up_to src n ≡ done bs
    → strncat (t ++ zeros (length bs + suc k)) src n ≡ done (t ++ bs ++ zeros (suc k))
unfolding strncat
strncat_text t src bs n k text taken =
    let more : length bs + suc k ≡ suc (length bs + k) = omega arith in
    let parts : length bs + suc k ≡ length bs + 1 + k = omega arith in
    let found : strlen (t ++ zeros (length bs + suc k)) ≡ done (length t) =
      ap (λ m. strlen (t ++ zeros m)) more ∙ strlen_text t (zeros (length bs + k)) text in
    let split : t ++ zeros (length bs + suc k) ≡ t ++ zeros (length bs + 1) ++ zeros k =
      ap (λ z. t ++ z) (ap zeros parts ∙ zeros_add (length bs + 1) k)
      ∙ sym (append_assoc t (zeros (length bs + 1)) (zeros k)) in
    let stored : write (t ++ zeros (length bs + suc k)) (length t) (bs ++ 0 ∷ [])
        ≡ done (t ++ (bs ++ 0 ∷ []) ++ zeros k) =
      ap (λ z. write z (length t) (bs ++ 0 ∷ [])) split
      ∙ write_over t (zeros (length bs + 1)) (bs ++ 0 ∷ []) (zeros k) (
          omega
            (arith, length-replicate {A = ℕ} (length bs + 1) 0, length-append {0} bs (0 ∷ []))) in
    let flat : t ++ (bs ++ 0 ∷ []) ++ zeros k ≡ t ++ bs ++ zeros (suc k) = simp append_assoc in
    rw (found, taken) (stored ∙ ap done flat)

-- `home/enclave.token`, and zeros to the end of the buffer.
home_path_text :
    (home rest : Bytes) (k : ℕ)
    → IsText home
    → home_path (zeros (length home + (16 + k))) (home ++ 0 ∷ rest) (length home)
      ≡ done (home ++ codes "/" ++ token_filename ++ zeros (2 + k))
unfolding home_path up_to
home_path_text home rest k text =
    let slash : IsText (codes "/") = (λ e. omega arith, tt) in
    let first : strncpy (zeros (length home + (16 + k))) 0 (home ++ 0 ∷ rest) (length home)
        ≡ done (home ++ zeros (16 + k)) =
      strncpy_exact (zeros (length home + (16 + k))) home (0 ∷ rest) 0 text
      ∙ ap (λ z. write z 0 home) (zeros_add (length home) (16 + k))
      ∙ write_over [] (zeros (length home)) home (zeros (16 + k))
          (length-replicate {A = ℕ} (length home) 0) in
    let room1 : 16 + k ≡ 1 + suc (14 + k) = omega arith in
    let second : strncat (home ++ zeros (16 + k)) (codes "/" ++ 0 ∷ []) 1
        ≡ done (home ++ codes "/" ++ zeros (suc (14 + k))) =
      ap (λ n. strncat (home ++ zeros n) (codes "/" ++ 0 ∷ []) 1) room1
      ∙ strncat_text home (codes "/" ++ 0 ∷ []) (codes "/") 1 (14 + k) text refl in
    let room2 : suc (14 + k) ≡ 13 + suc (1 + k) = omega arith in
    let third : strncat (home ++ codes "/" ++ zeros (suc (14 + k))) (token_filename ++ 0 ∷ []) 15
        ≡ done (home ++ codes "/" ++ token_filename ++ zeros (suc (1 + k))) =
      ap (λ n. strncat (home ++ codes "/" ++ zeros n) (token_filename ++ 0 ∷ []) 15) room2
      ∙ strncat_text (home ++ codes "/") (token_filename ++ 0 ∷ []) token_filename 15 (1 + k)
          (All-append (λ c. c ≢ 0) home (codes "/") text slash) refl in
    let last : suc (1 + k) ≡ 2 + k = omega arith in
    rw (first, second, third) (ap (λ n. done (home ++ codes "/" ++ token_filename ++ zeros n)) last)

short_path_text :
    (max_path : ℕ)
    → 14 ≤ max_path
    → short_path (zeros max_path) ≡ done (token_filename ++ zeros (max_path - 13))
unfolding short_path strncpy
short_path_text max_path room =
    let parts : max_path ≡ 14 + (max_path - 14) = omega arith in
    let behind : suc (max_path - 14) ≡ max_path - 13 = omega arith in
    ap (λ z. write z 0 (token_filename ++ 0 ∷ [])) (ap zeros parts ∙ zeros_add 14 (max_path - 14))
    ∙ write_over [] (zeros 14) (token_filename ++ 0 ∷ []) (zeros (max_path - 14)) refl
    ∙ ap (λ n. done (token_filename ++ zeros n)) behind

-- The text of the path: in the home directory, if that leaves room for it.
abbrev pub path_text : ℕ → Option Bytes → Bytes
path_text max_path none = token_filename
path_text max_path (some home) =
    if leb (length home + 16) max_path then home ++ codes "/" ++ token_filename else token_filename

-- The home directory as the system gives it, and what stands behind its NUL.
abbrev pub with_nul : Bytes → Option Bytes → Option Bytes
with_nul rest none = none
with_nul rest (some home) = some (home ++ 0 ∷ rest)

abbrev pub AreTexts : Option Bytes → Type 0
AreTexts none = Unit
AreTexts (some home) = IsText home

-- For a buffer of 14 bytes or more, and a home directory that is a text or none: token_path makes no
-- access outside of a buffer. The buffer then holds the home directory's path with /enclave.token,
-- where that takes two bytes less than the buffer has or fewer, and else enclave.token alone; zeros
-- fill the rest, and there is at least one.
pub token_path-path_text :
    (max_path : ℕ) (home : Option Bytes) (rest : Bytes)
    → 14 ≤ max_path
    → AreTexts home
    → let text = path_text max_path home in
      (token_path max_path (with_nul rest home) ≡ done (text ++ zeros (max_path - length text)))
      × (length text < max_path)
unfolding token_path composed
token_path-path_text max_path none rest room texts = (short_path_text max_path room, omega arith)
token_path-path_text max_path (some home) rest room text =
    let found = strlen_text home rest text in
    elim (Bool-cases (leb (length home + 16) max_path)) [
      | inl fits ↦
          let inside : leb (length home + 1 + sizeof_token_filename + 1) max_path ≡ true =
            ground (arith, fits) in
          let k = max_path - (length home + 16) in
          let parts : max_path ≡ length home + (16 + k) = ground (arith, fits) in
          let size : length (home ++ codes "/" ++ token_filename) ≡ length home + 14 = omega (
            arith,
            length-append {0} (home ++ codes "/") token_filename,
            length-append {0} home (codes "/"),
          ) in
          let behind : 2 + k ≡ max_path - length (home ++ codes "/" ++ token_filename) =
            ground (arith, fits, size) in
          let path : home_path (zeros max_path) (home ++ 0 ∷ rest) (length home)
              ≡ done (
                  home
                  ++ codes "/"
                  ++ token_filename
                  ++ zeros (max_path - length (home ++ codes "/" ++ token_filename))) =
            ap (λ m. home_path (zeros m) (home ++ 0 ∷ rest) (length home)) parts
            ∙ home_path_text home rest k text
            ∙ ap (λ n. done (home ++ codes "/" ++ token_filename ++ zeros n)) behind in
          (
            ap (λ r. r >>= composed max_path (home ++ 0 ∷ rest)) found
                ∙ rw (composed, inside, fits) path,
            rw fits (ground (arith, fits, size)),
          )
      | inr long ↦
          let outside : leb (length home + 1 + sizeof_token_filename + 1) max_path ≡ false =
            ground (arith, long) in
          (
            ap (λ r. r >>= composed max_path (home ++ 0 ∷ rest)) found
                ∙ rw (composed, outside, long) (short_path_text max_path room),
            rw long (omega arith),
          )
    ]
