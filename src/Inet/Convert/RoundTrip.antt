-- ===== src/Inet/Convert/RoundTrip.antt =====
-- `inet_pton` on what `inet_ntop` stores.
use mongo_sgx_client.Base.{
  ℕ, ◌+◌, ◌≤◌, ◌<◌, ◌≡◌, refl, ◌∙◌, ap, Bytes, ◌∷◌, ◌++◌, some, arith, done, ◌>>=◌, length, drop,
  length-append, drop-append,
}
use mongo_sgx_client.Libc.Laws.{write_fits}
use mongo_sgx_client.Inet.Pton4.Texts.{joined, IsAddress}
use mongo_sgx_client.Inet.Pton4.Accepts.{inet_pton4_exact}
use mongo_sgx_client.Inet.Ntop4.{tmp_size}
use mongo_sgx_client.Inet.Ntop4.Text.{inet_ntop4_lem, joined-IsText}
use mongo_sgx_client.Inet.Convert.{valid, af_inet, inet_pton, inet_ntop}
use mongo_sgx_client.Inet.Convert.Laws.{text_at-IsText}

-- For four bytes, local buffers of sixteen and four bytes, a `size` above the length of the text,
-- and a `dst` that before the call holds a NUL right behind where the text goes: `inet_ntop`
-- stores the text of the bytes, and `inet_pton` on it answers that it is valid and stores the
-- four bytes at the beginning of its own `dst`, which has room for four.
pub inet_pton-inet_ntop :
    (r tmp tmp6 before rest addr junk : Bytes) (size : ℕ)
    → IsAddress r
    → length tmp ≡ tmp_size
    → length before ≡ length (joined r)
    → length (joined r) < size
    → 4 ≤ length addr
    → length junk ≡ 4
    → (m : Bytes) × (inet_ntop af_inet r (before ++ 0 ∷ rest) size tmp tmp6 ≡ done (some m))
      × (inet_pton af_inet m addr junk ≡ done (valid, r ++ drop 4 addr))
unfolding inet_ntop inet_pton
inet_pton-inet_ntop r tmp tmp6 before rest addr junk size quad local same fits room local4 = (
  joined r ++ 0 ∷ rest,
  (inet_ntop4_lem r tmp (before ++ 0 ∷ rest) 0 size quad local).1 fits
        (omega (arith, length-append {0} before (0 ∷ rest)))
      ∙ ap (λ t. done (some (joined r ++ t)))
          (ap (λ n. drop n (before ++ 0 ∷ rest)) at ∙ drop-append before (0 ∷ rest)),
  rw
      (
        text_at-IsText (joined r) rest (joined-IsText r),
        (inet_pton4_exact (joined r) junk r local4).1 (refl, quad),
      )
      (ap (λ w. w >>= λ m. done (valid, m)) (write_fits addr r 0 (omega (arith, quad.0)))
        ∙ ap (λ n. done (valid, r ++ drop n addr)) four),
)
  where
    at : 0 + length (joined r) ≡ length before
    at = omega arith

    four : 0 + length r ≡ 4
    four = omega (arith, quad.0)
