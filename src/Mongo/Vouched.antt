-- ===== src/Mongo/Vouched.antt =====
-- `reencrypt_user_key` whatever the server answers: what is behind the key that it encrypts.
use mongo_sgx_client.Base.{
  ◌≡◌, refl, sym, ◌∙◌, ap, ap₂, Bool, true, false, Bytes, [], ◌∷◌, none, some, codes, done,
  Option-cases, inl, inr,
}
use mongo_sgx_client.Mongo.Bson.{Document, find_binary}
use mongo_sgx_client.Mongo.Platform.{Platform, users_collection, value, pure_run}
use mongo_sgx_client.Mongo.Hashing.{
  hmac_key, aes_key, hash_name, encrypt_data, decrypt_data, compute_hmac_2,
}
use mongo_sgx_client.Mongo.Signature.{same_hash}
use mongo_sgx_client.Mongo.Users.{
  first_document, by_name, reencrypt_checked, reencrypt_document, reencrypt_on, reencrypt_user_key,
}
use mongo_sgx_client.Mongo.Signed.{same_hash-true}
use mongo_sgx_client.Mongo.Authentic.{onward_value, pure_run_value, decrypt_data_value}

module _ (P : Platform) where
  -- The document of a user with the HMAC of its name and text under the enclave's key, and the text
  -- decrypts to the key.
  abbrev pub VouchesFor : Document → Bytes → Type 0
  VouchesFor d k =
      (name : Bytes) × (text : Bytes) × (find_binary (codes "name") d ≡ done name)
      × (find_binary (codes "key") d ≡ done text)
      × (find_binary (codes "signature") d ≡ done (P.hmac256 hmac_key (name ∷ text ∷ [])))
      × (P.decrypt_aesgcm aes_key text ≡ some k)

  -- A text that the encryption of the key gives.
  abbrev pub Encrypts : Bytes → P.World → Bytes → Type 0
  Encrypts k v c = (u : P.World) × (P.encrypt_aesgcm aes_key k u ≡ (v, c))

  encrypt_data-Encrypts :
      (k : Bytes) (w v : P.World) (c : Bytes) → encrypt_data P k w ≡ (v, value c) → Encrypts k v c
  unfolding encrypt_data
  encrypt_data-Encrypts k w v c h =
      let text : (P.encrypt_aesgcm aes_key k w).1 ≡ c = cc (ap (λ r. r.1) h) in
      (w, ap₂ (λ a b. (a, b)) (ap (λ r. r.0) h) text)

  reencrypt_checked-Encrypts :
      (valid : Bool) (text : Bytes) (w v : P.World) (c : Bytes)
      → reencrypt_checked P valid text w ≡ (v, value c)
      → (valid ≡ true) × (k : Bytes) × (P.decrypt_aesgcm aes_key text ≡ some k) × Encrypts k v c
  unfolding reencrypt_checked
  reencrypt_checked-Encrypts false text w v c h = absurd (cc (ap (λ r. r.1) h))
  reencrypt_checked-Encrypts true text w v c h =
      let (k, w1, run, last) = onward_value (decrypt_data P text w) _ v c h in
      (refl, k, decrypt_data_value P text k w w1 run, encrypt_data-Encrypts k w1 v c last)

  reencrypt_document-VouchesFor :
      (d : Document) (w v : P.World) (c : Bytes)
      → reencrypt_document P d w ≡ (v, value c)
      → (k : Bytes) × VouchesFor d k × Encrypts k v c
  unfolding reencrypt_document compute_hmac_2
  reencrypt_document-VouchesFor d w v c h =
      let (name, w1, run1, h1) = onward_value (pure_run (find_binary (codes "name") d) w) _ v c h in
      let (text, w2, run2, h2) =
        onward_value (pure_run (find_binary (codes "key") d) w1) _ v c h1 in
      let (s, w3, run3, h3) =
        onward_value (pure_run (find_binary (codes "signature") d) w2) _ v c h2 in
      let hash = P.hmac256 hmac_key (name ∷ text ∷ []) in
      let (valid, k, opened, encrypted) =
        reencrypt_checked-Encrypts (same_hash hash s) text w3 v c h3 in
      (
        k,
        (
          name,
          text,
          pure_run_value (find_binary (codes "name") d) w w1 name run1,
          pure_run_value (find_binary (codes "key") d) w1 w2 text run2,
          pure_run_value (find_binary (codes "signature") d) w2 w3 s run3
              ∙ ap done (sym (same_hash-true hash s valid)),
          opened,
        ),
        encrypted,
      )

  -- Whatever the server answers: where reencrypt_user_key returns a text, it encrypts the key that a
  -- user's document vouches for: the document that the server gave carries the HMAC of its name and its
  -- text under the enclave's key, and this text decrypts to the key.
  pub reencrypt_user_key-VouchesFor :
      (user_name : Bytes) (w v : P.World) (c : Bytes)
      → reencrypt_user_key P user_name w ≡ (v, value c)
      → (d : Document) × (k : Bytes) × (first_document
            (P.find_with_opts users_collection (by_name (hash_name P user_name none)) w).1
          ≡ some d)
        × VouchesFor d k
        × Encrypts k v c
  unfolding reencrypt_user_key reencrypt_on
  reencrypt_user_key-VouchesFor user_name w v c h =
      let r = P.find_with_opts users_collection (by_name (hash_name P user_name none)) w in
      elim (Option-cases (first_document r.1)) [
        | inl missing ↦ let read = rw missing at h in absurd (cc (ap (λ r. r.1) read))
        | inr (d, found) ↦
            let (k, vouched, encrypted) = reencrypt_document-VouchesFor d r.0 v c (rw found at h) in
            (d, k, found, vouched, encrypted)
      ]
