-- ===== src/Libc.antt =====
-- What the client uses of the C library's string functions, on buffers of bytes.
pub mod Laws
use mongo_sgx_client.Base.{
  ℕ, zero, suc, ◌+◌, ◌-◌, ◌≤◌, ◌≡◌, refl, Bytes, [], ◌∷◌, ◌++◌, arith, leb, ◌==◌, if◌then◌else◌,
  length, take, drop, replicate, Run, done, fault, ◌>>=◌, codes, true, false,
}

-- memcpy, memmove and memset: the bytes `bs` at offset `p` of the buffer `m`.
unfoldable pub write : Bytes → ℕ → Bytes → Run Bytes
write m p bs =
    if leb (p + length bs) (length m)
    then done (take p m ++ bs ++ drop (p + length bs) m)
    else fault

-- strlen of a buffer: the bytes before the first NUL. Without a NUL it reads on past the end.
unfoldable pub strlen : Bytes → Run ℕ
strlen [] = fault
strlen (c ∷ s) = elim (c == 0) [
  | true ↦ done 0
  | false ↦ elim (strlen s) [ done n ↦ done (suc n) | fault ↦ fault ]
]

-- strnlen: strlen, but no more than the bound.
unfoldable pub strnlen : Bytes → ℕ → Run ℕ
strnlen s zero = done 0
strnlen [] (suc n) = fault
strnlen (c ∷ s) (suc n) = elim (c == 0) [
  | true ↦ done 0
  | false ↦ elim (strnlen s n) [ done k ↦ done (suc k) | fault ↦ fault ]
]

-- The `n` bytes that strncpy stores: `s` up to its NUL, and then NULs only.
unfoldable pub strncpy_bytes : Bytes → ℕ → Run Bytes
strncpy_bytes s zero = done []
strncpy_bytes [] (suc n) = fault
strncpy_bytes (c ∷ s) (suc n) = elim (c == 0) [
  | true ↦ done (replicate (suc n) 0)
  | false ↦ elim (strncpy_bytes s n) [ done bs ↦ done (c ∷ bs) | fault ↦ fault ]
]

-- strncpy to offset `p` of `dst`.
unfoldable pub strncpy : Bytes → ℕ → Bytes → ℕ → Run Bytes
unfolding strncpy_bytes write
strncpy dst p s n = do bs ← strncpy_bytes s n; write dst p bs

-- snprintf of a text at offset `p`: at most `cap` bytes with the NUL. It returns the whole length.
unfoldable pub snprintf : Bytes → ℕ → ℕ → Bytes → Run (Bytes × ℕ)
unfolding write
snprintf m p zero text = done (m, length text)
snprintf m p (suc cap) text = do m' ← write m p (take cap text ++ 0 ∷ []); done (m', length text)

strncpy_pads :
    strncpy (codes "......") 1 (codes "ab" ++ 0 ∷ []) 4 ≡ done (codes ".ab" ++ 0 ∷ 0 ∷ codes ".")
unfolding strncpy
strncpy_pads = refl

strncpy_without_nul : strncpy (codes "......") 1 (codes "ab" ++ 0 ∷ []) 2 ≡ done (codes ".ab...")
unfolding strncpy
strncpy_without_nul = refl
