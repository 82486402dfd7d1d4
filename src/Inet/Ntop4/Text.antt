-- ===== src/Inet/Ntop4/Text.antt =====
-- What `inet_ntop4` writes.
use mongo_sgx_client.Base.{
  ℕ, ◌+◌, ◌*◌, ◌≤◌, ◌<◌, ◌≡◌, ◌≢◌, refl, ap, Bytes, [], ◌∷◌, ◌++◌, none, some, arith, leb,
  if◌then◌else◌, done, ◌>>=◌, length, take, drop, All, All-append, length-append, append_assoc,
}
use mongo_sgx_client.Libc.{write}
use mongo_sgx_client.Libc.Laws.{IsText, write_fits, strnlen_text, snprintf_fits, strncpy_exact}
use mongo_sgx_client.Inet.Digits.{format, format_small, format_large, IsDigit, format-AllIsDigit}
use mongo_sgx_client.Inet.Pton4.Texts.{joined, AreBytes, IsAddress}
use mongo_sgx_client.Inet.Ntop4.{print_quad, tmp_size, inet_ntop4}

-- A number below 10 ^ 3 has at most three digits, none of them NUL.
length-format : (n : ℕ) → n < 1000 → length (format 10 n) ≤ 3
length-format n h = grind (arith, format_small, format_large)

print_quad-joined : (a b c d : ℕ) → print_quad a b c d ≡ joined (a ∷ b ∷ c ∷ d ∷ [])
print_quad-joined a b c d = refl

-- Four bytes take at most fifteen characters,
pub length-joined : (r : Bytes) → AreBytes r → r ≢ [] → length (joined r) + 1 ≤ 4 * length r
length-joined [] h ne = absurd (ne refl)
length-joined (a ∷ []) h ne = omega (arith, length-format a)
length-joined (a ∷ b ∷ r) h ne =
    let rest : length (joined (b ∷ r)) + 1 ≤ 4 * length (b ∷ r) = length-joined (b ∷ r) h.1 (cc) in
    omega (arith, length-format a, length-append {0} (format 10 a) (b'.' ∷ joined (b ∷ r)))

format-IsText : (n : ℕ) → IsText (format 10 n)
format-IsText n = weaken (format 10 n) (format-AllIsDigit 10 n)
  where
    weaken : (t : Bytes) → All IsDigit t → IsText t
    weaken [] h = tt
    weaken (c ∷ t) h = (h.0.0, weaken t h.1)

-- and no NUL.
pub joined-IsText : (r : Bytes) → IsText (joined r)
joined-IsText [] = tt
joined-IsText (a ∷ []) = format-IsText a
joined-IsText (a ∷ b ∷ r) =
    All-append (λ c. c ≢ 0) (format 10 a) (b'.' ∷ joined (b ∷ r)) (format-IsText a)
      (omega arith, joined-IsText (b ∷ r))

pub length-joined_quad : (r : Bytes) → IsAddress r → length (joined r) < tmp_size
length-joined_quad r quad =
    omega (arith, length-joined r quad.1 (λ e. omega (arith, ap length e, quad.0)), quad.0)

-- The calls of `inet_ntop4` on its local buffer, gone through.
inet_ntop4-write :
    (r tmp m : Bytes) (p size : ℕ)
    → IsAddress r
    → length tmp ≡ tmp_size
    → inet_ntop4 r tmp m p size ≡ (
        if leb size (length (joined r))
        then done none
        else write m p (joined r) >>= λ m'. done (some m'))
unfolding inet_ntop4
inet_ntop4-write (a ∷ b ∷ c ∷ d ∷ []) tmp m p size quad local =
    let t = joined (a ∷ b ∷ c ∷ d ∷ []) in
    let short : length t < tmp_size = length-joined_quad (a ∷ b ∷ c ∷ d ∷ []) quad in
    let text : IsText t = joined-IsText (a ∷ b ∷ c ∷ d ∷ []) in
    rw
      (
        snprintf_fits tmp t 0 tmp_size short (omega arith),
        append_assoc t (0 ∷ []) (drop (0 + length t + 1) tmp),
        strnlen_text t (drop (0 + length t + 1) tmp) tmp_size text short,
      )
      (rw (strncpy_exact m t (0 ∷ drop (0 + length t + 1) tmp) p text))
inet_ntop4-write _ tmp m p size quad local = absurd (omega (arith, quad.0))

module _ (r tmp m : Bytes) (p size : ℕ) (quad : IsAddress r) (local : length tmp ≡ tmp_size) where
  -- For four bytes and a local buffer of sixteen: `inet_ntop4` returns NULL when the text of the
  -- address has `size` characters or more. Otherwise, where `dst` has room for the text, the text
  -- without a NUL replaces what stood there, and nothing else changes.
  pub inet_ntop4_lem :
      (size ≤ length (joined r) → inet_ntop4 r tmp m p size ≡ done none)
      × (length (joined r) < size
          → p + length (joined r) ≤ length m
          → inet_ntop4 r tmp m p size
            ≡ done (some (take p m ++ joined r ++ drop (p + length (joined r)) m)))
  inet_ntop4_lem = (
    λ small. ground (arith, inet_ntop4-write r tmp m p size quad local),
    λ large room.
        ground (arith, inet_ntop4-write r tmp m p size quad local, write_fits m (joined r) p room),
  )
