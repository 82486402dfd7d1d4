-- ===== src/Mongo/Accounts.antt =====
-- The methods that make users and groups, on a quiet platform.
use mongo_sgx_client.Base.{
  ◌≡◌, refl, sym, ◌∙◌, ap, Bool, true, false, Bytes, List, [], ◌∷◌, ◌++◌, none, some, codes, map,
  arith, done,
}
use mongo_sgx_client.Mongo.Bson.{Document, eqb, seek, find_binary}
use mongo_sgx_client.Mongo.Platform.{
  Platform, BsonError, bson_error, users_collection, groups_collection, failure, value, thrown,
  onward, call, check,
}
use mongo_sgx_client.Mongo.Hashing.{
  hmac_key, aes_key, hash_name, encrypt_data, compute_hmac_2, compute_user_signature,
}
use mongo_sgx_client.Mongo.Users.{
  first_document, by_name, user_document, create_user, reencrypt_checked, reencrypt_document,
  reencrypt_on, reencrypt_user_key,
}
use mongo_sgx_client.Mongo.Groups.{duplicate_key}
use mongo_sgx_client.Mongo.First.{
  filter, first, any, head, head-filter, first-map, any-map, map-append_one,
}
use mongo_sgx_client.Mongo.Server.{IsQuiet, selects, path_is, clashes, with_id}
use mongo_sgx_client.Mongo.Quiet.{first_document-cursor_on, same_hash_refl}
use mongo_sgx_client.Mongo.Keys.{decrypt_data-some}

-- A user with the hashed name and the encrypted key.
pub record User : Type 0 where
  pub id : Bytes
  pub name : Bytes
  pub key : Bytes

abbrev pub is_user : Bytes → User → Bool
is_user h r = eqb r.name h

module _ (P : Platform) where
  -- The document of a user, with the signature that belongs to it.
  abbrev pub stored_user : User → Document
  stored_user r =
      with_id r.id (user_document r.name r.key (P.hmac256 hmac_key (r.name ∷ r.key ∷ [])))

  selects-by_name : (h : Bytes) (r : User) → selects (by_name h) (stored_user r) ≡ is_user h r
  unfolding path_is seek eqb
  selects-by_name h r = ground arith

  find-name : (r : User) → find_binary (codes "name") (stored_user r) ≡ done r.name
  unfolding find_binary seek eqb
  find-name r = refl

  find-key : (r : User) → find_binary (codes "key") (stored_user r) ≡ done r.key
  unfolding find_binary seek eqb
  find-key r = refl

  find-signature :
      (r : User)
      → find_binary (codes "signature") (stored_user r)
        ≡ done (P.hmac256 hmac_key (r.name ∷ r.key ∷ []))
  unfolding find_binary seek eqb
  find-signature r = refl

module _ (P : Platform) (Q : IsQuiet P) where
  -- The database holds these users, each with its signature.
  abbrev pub HoldsUsers : List User → P.World → Type 0
  HoldsUsers us w = Q.documents users_collection w ≡ map (stored_user P) us

  pub encrypted : Bytes → P.World → Bytes
  encrypted k w = (P.encrypt_aesgcm aes_key k w).1

  reencrypt_document-stored :
      (r : User) (k : Bytes) (w : P.World)
      → P.decrypt_aesgcm aes_key r.key ≡ some k
      → reencrypt_document P (stored_user P r) w
        ≡ ((P.encrypt_aesgcm aes_key k w).0, value (encrypted k w))
  unfolding encrypted compute_hmac_2 reencrypt_document reencrypt_checked encrypt_data
  reencrypt_document-stored r k w e =
      let valid =
        same_hash_refl (P.hmac256 hmac_key (r.name ∷ r.key ∷ [])) (Q.length-hmac256 _ _) in
      rw (reencrypt_document, find-name P r, find-key P r, find-signature P r)
        (ap (λ b. reencrypt_checked P b r.key w) valid
          ∙ ap (λ x. onward x (encrypt_data P)) (decrypt_data-some P r.key k w e))

module _ (P : Platform) (Q : IsQuiet P) (us : List User) (w : P.World)
    (docs : HoldsUsers P Q us w) where
  -- What a search for a name gives.
  found_user :
      (h : Bytes)
      → first_document (P.find_with_opts users_collection (by_name h) w).1
        ≡ elim (first (is_user h) us) [ none ↦ none | some r ↦ some (stored_user P r) ]
  found_user h =
      ap first_document (Q.find_answer users_collection (by_name h) w)
      ∙ first_document-cursor_on (filter (selects (by_name h)) (Q.documents users_collection w))
      ∙ ap (λ ds. head (filter (selects (by_name h)) ds)) docs
      ∙ head-filter (selects (by_name h)) (map (stored_user P) us)
      ∙ first-map (stored_user P) (selects (by_name h)) (is_user h) us (selects-by_name P h)

  -- On a platform that keeps the laws of `IsQuiet`, whose database holds these users, each with the
  -- signature that belongs to it: for a user who is there and whose stored key decrypts to k,
  -- reencrypt_user_key returns a text that decrypts to k as well, and leaves users and groups as
  -- they were.
  pub reencrypt_user_key-Holds :
      (user_name k : Bytes) (r : User)
      → first (is_user (hash_name P user_name none)) us ≡ some r
      → P.decrypt_aesgcm aes_key r.key ≡ some k
      → (v : P.World) × (t : Bytes) × (reencrypt_user_key P user_name w ≡ (v, value t))
        × (P.decrypt_aesgcm aes_key t ≡ some k)
        × (Q.documents users_collection v ≡ map (stored_user P) us)
        × (Q.documents groups_collection v ≡ Q.documents groups_collection w)
  unfolding reencrypt_user_key reencrypt_on
  reencrypt_user_key-Holds user_name k r e opens =
      let h = hash_name P user_name none in
      let f = P.find_with_opts users_collection (by_name h) w in
      let found : first_document f.1 ≡ some (stored_user P r) = found_user h ∙ rw e refl in
      let c = P.encrypt_aesgcm aes_key k f.0 in
      (
        c.0,
        c.1,
        ap (λ o. reencrypt_on P o f.0) found
            ∙ unfold encrypted in reencrypt_document-stored P Q r k f.0 opens,
        Q.decrypt-encrypt aes_key k f.0,
        Q.documents-encrypt aes_key k f.0 users_collection
            ∙ Q.documents-find users_collection users_collection (by_name h) w
            ∙ docs,
        Q.documents-encrypt aes_key k f.0 groups_collection
            ∙ Q.documents-find users_collection groups_collection (by_name h) w,
      )

  -- On a platform that keeps the laws of `IsQuiet`, whose database holds these users, each with the
  -- signature that belongs to it: for a user who is not there, reencrypt_user_key throws, and leaves users
  -- and groups as they were.
  pub reencrypt_user_key-none :
      (user_name : Bytes)
      → first (is_user (hash_name P user_name none)) us ≡ none
      → (v : P.World) × (e : BsonError) × (reencrypt_user_key P user_name w ≡ (v, thrown e))
        × HoldsUsers P Q us v
        × (Q.documents groups_collection v ≡ Q.documents groups_collection w)
  unfolding reencrypt_user_key reencrypt_on
  reencrypt_user_key-none user_name e =
      let h = hash_name P user_name none in
      let f = P.find_with_opts users_collection (by_name h) w in
      let missing : first_document f.1 ≡ none = found_user h ∙ rw e refl in
      (
        f.0,
        bson_error "User does not exist" 539,
        ap (λ o. reencrypt_on P o f.0) missing,
        Q.documents-find users_collection users_collection (by_name h) w ∙ docs,
        Q.documents-find users_collection groups_collection (by_name h) w,
      )

user_clash :
    (P : Platform) (n k s : Bytes) (us : List User)
    → clashes (user_document n k s) (map (stored_user P) us) ≡ any (is_user n) us
unfolding path_is seek eqb
user_clash P n k s us =
    any-map (stored_user P) (path_is (codes "name") n) (is_user n) us (λ r. refl)

module _ (P : Platform) (Q : IsQuiet P) (us : List User) (w : P.World) (docs : HoldsUsers P Q us w)
    (user_name k : Bytes) where
  hashed : Bytes
  hashed = hash_name P user_name none

  sealed : P.World × Bytes
  sealed = P.encrypt_aesgcm aes_key k w

  new_document : Document
  new_document = user_document hashed sealed.1 (P.hmac256 hmac_key (hashed ∷ sealed.1 ∷ []))

  sealed-users : Q.documents users_collection sealed.0 ≡ map (stored_user P) us
  unfolding sealed
  sealed-users = Q.documents-encrypt aes_key k w users_collection ∙ docs

  new_clash : clashes new_document (Q.documents users_collection sealed.0) ≡ any (is_user hashed) us
  unfolding new_document
  new_clash = ap (clashes _) sealed-users ∙ user_clash P hashed sealed.1 _ us

  create_user-insert :
      create_user P user_name k w
      ≡ onward (call (P.insert_one users_collection new_document) sealed.0) check
  unfolding create_user new_document sealed hashed encrypt_data compute_user_signature
  create_user-insert = refl

  -- On a platform that keeps the laws of `IsQuiet`, whose database holds these users, each with the
  -- signature that belongs to it: where no user has the hashed name, create_user returns, and
  -- leaves one user more behind the others, signed, with the hashed name and a key that decrypts to
  -- the one given; the groups stay as they were.
  pub create_user-Holds :
      any (is_user (hash_name P user_name none)) us ≡ false
      → (v : P.World) × (r : User) × (create_user P user_name k w ≡ (v, value tt))
        × (r.name ≡ hash_name P user_name none)
        × (P.decrypt_aesgcm aes_key r.key ≡ some k)
        × HoldsUsers P Q (us ++ r ∷ []) v
        × (Q.documents groups_collection v ≡ Q.documents groups_collection w)
  unfolding hashed
  create_user-Holds fresh =
      let (status, stored) =
        Q.insert_fresh users_collection new_document sealed.0 (new_clash ∙ fresh) in
      let i = P.insert_one users_collection new_document sealed.0 in
      let r : User = record { id = Q.new_id sealed.0; name = hashed; key = sealed.1 } in
      (
        i.0,
        r,
        create_user-insert ∙ ap (λ s. onward (i.0, value s) check) status,
        refl,
        unfold sealed in Q.decrypt-encrypt aes_key k w,
        stored users_collection
            ∙ ap (λ ds. ds ++ with_id (Q.new_id sealed.0) new_document ∷ []) sealed-users
            ∙ unfold new_document in sym (map-append_one (stored_user P) us r),
        stored groups_collection
            ∙ unfold sealed in Q.documents-encrypt aes_key k w groups_collection,
      )

  -- On a platform that keeps the laws of `IsQuiet`, whose database holds these users, each with the
  -- signature that belongs to it: where a user has the hashed name, create_user throws the server's
  -- error of a duplicate key, and leaves users and groups as they were.
  pub create_user-clash :
      any (is_user (hash_name P user_name none)) us ≡ true
      → (v : P.World) × (e : BsonError) × (create_user P user_name k w ≡ (v, thrown e))
        × (e.code ≡ duplicate_key)
        × HoldsUsers P Q us v
        × (Q.documents groups_collection v ≡ Q.documents groups_collection w)
  unfolding hashed
  create_user-clash taken =
      let (e, code, status, stored) =
        Q.insert_clash users_collection new_document sealed.0 (new_clash ∙ taken) in
      let i = P.insert_one users_collection new_document sealed.0 in
      let raised : check (failure e) i.0 ≡ (i.0, thrown e) = ground (arith, code) in
      (
        i.0,
        e,
        create_user-insert ∙ ap (λ s. onward (i.0, value s) check) status ∙ raised,
        code,
        stored users_collection ∙ sealed-users,
        stored groups_collection
            ∙ unfold sealed in Q.documents-encrypt aes_key k w groups_collection,
      )
