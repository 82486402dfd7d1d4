-- ===== src/Libc/Laws.antt =====
-- The string functions on a buffer that begins with a text and its NUL.
use native.Mathlib.Nat.{suc-sub-suc, sub-zero}
use mongo_sgx_client.Base.{
  ℕ, zero, suc, ◌+◌, ◌-◌, ◌≤◌, ◌<◌, ◌≡◌, ◌≢◌, refl, Bytes, [], ◌∷◌, ◌++◌, arith, length, take, drop,
  replicate, All, done, fault, le→leb, length-append, take-all,
}
use mongo_sgx_client.Libc.{write, strlen, strnlen, strncpy_bytes, strncpy, snprintf}

-- A text without a NUL.
abbrev pub IsText : Bytes → Type 0
IsText = All (λ c. c ≢ 0)

pub write_fits :
    (m bs : Bytes) (p : ℕ)
    → p + length bs ≤ length m
    → write m p bs ≡ done (take p m ++ bs ++ drop (p + length bs) m)
unfolding write
write_fits m bs p h = rw (le→leb (p + length bs) (length m) h)

pub write_overflow : (m bs : Bytes) (p : ℕ) → length m < p + length bs → write m p bs ≡ fault
unfolding write
write_overflow m bs p h = ground arith

pub strlen_text : (t rest : Bytes) → IsText t → strlen (t ++ 0 ∷ rest) ≡ done (length t)
unfolding strlen
strlen_text [] rest h = refl
strlen_text (c ∷ t) rest h = ground (arith, strlen_text t rest h.1)

pub strnlen_text :
    (t rest : Bytes) (n : ℕ) → IsText t → length t < n → strnlen (t ++ 0 ∷ rest) n ≡ done (length t)
unfolding strnlen
strnlen_text t rest zero h k = absurd (omega arith)
strnlen_text [] rest (suc n) h k = refl
strnlen_text (c ∷ t) rest (suc n) h k = ground (arith, strnlen_text t rest n h.1)

-- Copying as many bytes as the text has copies no NUL,
pub strncpy_bytes_exact :
    (t rest : Bytes) → IsText t → strncpy_bytes (t ++ rest) (length t) ≡ done t
unfolding strncpy_bytes
strncpy_bytes_exact [] rest h = refl
strncpy_bytes_exact (c ∷ t) rest h = ground (arith, strncpy_bytes_exact t rest h.1)

-- and copying more pads with NULs.
pub strncpy_bytes_padded :
    (t rest : Bytes) (n : ℕ)
    → IsText t
    → length t ≤ n
    → strncpy_bytes (t ++ 0 ∷ rest) n ≡ done (t ++ replicate (n - length t) 0)
unfolding strncpy_bytes
strncpy_bytes_padded [] rest zero h k = refl
strncpy_bytes_padded [] rest (suc n) h k = rw sub-zero
strncpy_bytes_padded (c ∷ t) rest zero h k = absurd (omega arith)
strncpy_bytes_padded (c ∷ t) rest (suc n) h k =
    rw suc-sub-suc (ground (arith, strncpy_bytes_padded t rest n h.1))

-- snprintf of a text that fits, its NUL included.
pub snprintf_fits :
    (m text : Bytes) (p cap : ℕ)
    → length text < cap
    → p + length text + 1 ≤ length m
    → snprintf m p cap text
      ≡ done (take p m ++ (text ++ 0 ∷ []) ++ drop (p + length text + 1) m, length text)
unfolding snprintf
snprintf_fits m text p zero h k = absurd (omega arith)
snprintf_fits m text p (suc cap) h k =
    let whole : take cap text ≡ text = take-all cap text (omega arith) in
    let more : p + length (text ++ 0 ∷ []) ≡ p + length text + 1 =
      omega (arith, length-append {0} text (0 ∷ [])) in
    rw (whole, write_fits m (text ++ 0 ∷ []) p (omega arith), more)

pub strncpy_exact :
    (dst t rest : Bytes) (p : ℕ) → IsText t → strncpy dst p (t ++ rest) (length t) ≡ write dst p t
unfolding strncpy
strncpy_exact dst t rest p h = rw (strncpy_bytes_exact t rest h)

pub strncpy_padded :
    (dst t rest : Bytes) (p n : ℕ)
    → IsText t
    → length t ≤ n
    → strncpy dst p (t ++ 0 ∷ rest) n ≡ write dst p (t ++ replicate (n - length t) 0)
unfolding strncpy
strncpy_padded dst t rest p n h k = rw (strncpy_bytes_padded t rest n h k)
