-- ===== src/Ocalls/Guards.antt =====
-- What the caller of `getaddrinfo` and of `rand_r` in trusted/my_wrappers.c can rely on.
use mongo_sgx_client.Base.{
  ℕ, zero, suc, ◌⊎◌, ◌≡◌, refl, ap₂, true, Bytes, List, [], ◌∷◌, Option, ◌==◌, ◌&&◌, false,
  replicate, Bool-cases, inl, inr,
}
use mongo_sgx_client.Base.Integers.{ℤ}
use mongo_sgx_client.Ocalls.{returns, aborts, sgx_success}
use mongo_sgx_client.Ocalls.Border.{Border}
use mongo_sgx_client.Ocalls.Wrappers.{getaddrinfo, sizeof_addrinfo, rand_r}

module _ (B : Border) where
  -- Whatever the host answers: where the call succeeds with an address that lies outside of the enclave
  -- with the whole structure behind it, getaddrinfo returns it; in every other case the enclave ends.
  pub getaddrinfo-sgx_is_outside_enclave :
      (node service hints : Option Bytes) (w : B.World)
      → let r = (B.ocall_getaddrinfo node service hints w).1 in
        let outcome = (getaddrinfo B node service hints w).1 in
        let accepted =
          (r.status == sgx_success) && B.sgx_is_outside_enclave r.answer.1 sizeof_addrinfo in
        ((accepted ≡ true) × (outcome ≡ returns r.answer))
        ⊎ ((accepted ≡ false) × (outcome ≡ aborts))
  unfolding getaddrinfo
  getaddrinfo-sgx_is_outside_enclave node service hints w =
      let r = (B.ocall_getaddrinfo node service hints w).1 in
      elim (Bool-cases (r.status == sgx_success)) [
        | inr failed ↦ inr (rw failed (refl, refl))
        | inl called ↦ elim (Bool-cases (B.sgx_is_outside_enclave r.answer.1 sizeof_addrinfo)) [
          | inr inside ↦ inr (rw (called, inside) (refl, refl))
          | inl outside ↦ inl (rw (called, outside) (refl, refl))
        ]
      ]

  -- The numbers that so many calls in a row give, each with the same `seedp`.
  unfoldable pub draws : ℕ → ℕ → B.World → List ℤ
  draws zero seed w = []
  draws (suc n) seed w = let (w', x) = rand_r B seed w in x ∷ draws n seed w'

  module _
      (seeded : (seed : ℕ) (v w : B.World)
        → (B.rand (B.srand seed v)).1 ≡ (B.rand (B.srand seed w)).1) where
    same_draws : (n seed : ℕ) (v w : B.World) → draws n seed w ≡ replicate n (rand_r B seed v).1
    unfolding draws rand_r
    same_draws zero seed v w = refl
    same_draws (suc n) seed v w =
        ap₂ (λ x xs. x ∷ xs) (seeded seed w v) (same_draws n seed v (rand_r B seed w).0)

    -- If the first number that rand gives behind srand depends on the seed alone: however many numbers
    -- are drawn with rand_r and one `seedp`, they are all the same.
    pub rand_r_constant :
        (n seed : ℕ) (w : B.World) → draws n seed w ≡ replicate n (rand_r B seed w).1
    rand_r_constant n seed w = same_draws n seed w w
