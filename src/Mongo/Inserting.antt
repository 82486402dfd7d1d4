-- ===== src/Mongo/Inserting.antt =====
-- `inserted`, the step of `create_group` behind the encryption, with a free name and with one that is taken.
use mongo_sgx_client.Base.{
  ◌≡◌, refl, sym, ◌∙◌, ap, true, false, Bytes, List, [], ◌∷◌, ◌++◌, none, some, codes, map, arith,
  ◌==◌, done,
}
use mongo_sgx_client.Mongo.Bson.{binary, scalar, Document, eqb, seek}
use mongo_sgx_client.Mongo.Platform.{
  Platform, BsonError, users_collection, groups_collection, failure, Result, value, onward, call,
}
use mongo_sgx_client.Mongo.Hashing.{hmac_key, aes_key, hash_name, encrypt_data}
use mongo_sgx_client.Mongo.Signature.{
  nothing_more, entry_updates, entries_updates, field_updates, document_updates,
  compute_group_signature,
}
use mongo_sgx_client.Mongo.Users.{reencrypt_user_key}
use mongo_sgx_client.Mongo.Groups.{
  duplicate_key, user_entry, group_fields, add_user_with_key, inserted, create_group,
}
use mongo_sgx_client.Mongo.First.{any, any-map, map-append_one}
use mongo_sgx_client.Mongo.Server.{IsQuiet, path_is, clashes, with_id}
use mongo_sgx_client.Mongo.Server.Groups.{is_named}
use mongo_sgx_client.Mongo.Spec.{Member, Group, group_document}
use mongo_sgx_client.Mongo.Single.{Single}
use mongo_sgx_client.Mongo.Quiet.{Holds}
use mongo_sgx_client.Mongo.Methods.{with_member, add_user_with_key-Holds}
use mongo_sgx_client.Mongo.Accounts.{User, stored_user, HoldsUsers}

-- What `create_group` inserts.
abbrev pub inserted_document : Bytes → Bytes → Member → Bytes → Document
inserted_document name encname m signature =
    group_fields name encname (user_entry m.name m.key)
    ++ (codes "signature", scalar (binary signature)) ∷ []

-- A user's entry in a group, with the key as it has been encrypted for it.
abbrev pub member_of : Platform → Bytes → Bytes → Bytes → Member
member_of P group_name user_name key = record {
  name = hash_name P user_name (some group_name);
  key = key;
}

module _ (P : Platform) where
  first_signature :
      (name encname : Bytes) (m : Member)
      → compute_group_signature P (group_fields name encname (user_entry m.name m.key)) nothing_more
        ≡ done (P.hmac256 hmac_key (name ∷ encname ∷ m.name ∷ m.key ∷ []))
  unfolding compute_group_signature document_updates field_updates entries_updates entry_updates
      seek eqb
  first_signature name encname m = refl

  group_clash :
      (name encname s : Bytes) (m : Member) (gs : List Group)
      → clashes (inserted_document name encname m s) (map (group_document P) gs)
        ≡ any (is_named name) gs
  unfolding path_is seek eqb
  group_clash name encname s m gs =
      any-map (group_document P) (path_is (codes "name") name) (is_named name) gs (λ g. refl)

module _ (P : Platform) (Q : IsQuiet P) (us : List User) (gs : List Group) (u : P.World)
    (user_docs : HoldsUsers P Q us u) (docs : Holds P Q gs u)
    (group_name user_name key : Bytes) where
  abbrev m : Member
  m = member_of P group_name user_name key

  unfoldable pub sealed : P.World × Bytes
  sealed = P.encrypt_aesgcm aes_key group_name u

  unfoldable pub hashed : Bytes
  hashed = hash_name P group_name none

  pub signature : Bytes
  signature = P.hmac256 hmac_key (hashed ∷ sealed.1 ∷ m.name ∷ m.key ∷ [])

  pub new_document : Document
  new_document = inserted_document hashed sealed.1 m signature

  pub sealed-groups : Q.documents groups_collection sealed.0 ≡ map (group_document P) gs
  unfolding sealed
  sealed-groups = Q.documents-encrypt aes_key group_name u groups_collection ∙ docs

  sealed-users : Q.documents users_collection sealed.0 ≡ map (stored_user P) us
  unfolding sealed
  sealed-users = Q.documents-encrypt aes_key group_name u users_collection ∙ user_docs

  new_clash :
      clashes new_document (Q.documents groups_collection sealed.0) ≡ any (is_named hashed) gs
  unfolding new_document
  new_clash = ap (clashes _) sealed-groups ∙ group_clash P hashed sealed.1 signature m gs

  abbrev inserting : P.World × Result (Unit {0})
  inserting =
      onward (call (P.insert_one groups_collection new_document) sealed.0)
        (inserted P group_name user_name key)

  pub create_group-insert :
      (w : P.World)
      → reencrypt_user_key P user_name w ≡ (u, value key)
      → create_group P group_name user_name w ≡ inserting
  unfolding create_group new_document sealed hashed signature encrypt_data
  create_group-insert w known = rw (create_group, known, first_signature P hashed sealed.1 m) refl

  unfoldable pub new_group : P.World → Group
  new_group w = record { id = Q.new_id w; name = hashed; encname = sealed.1; members = m ∷ [] }

  pub inserted-fresh :
      any (is_named hashed) gs ≡ false
      → (v : P.World) × (inserting ≡ (v, value tt))
        × Holds P Q (gs ++ new_group sealed.0 ∷ []) v
        × HoldsUsers P Q us v
  unfolding inserted
  inserted-fresh fresh =
      let (status, stored) =
        Q.insert_fresh groups_collection new_document sealed.0 (new_clash ∙ fresh) in
      let i = P.insert_one groups_collection new_document sealed.0 in
      (
        i.0,
        ap (λ s. inserted P group_name user_name key s i.0) status,
        stored groups_collection
            ∙ ap (λ ds. ds ++ with_id (Q.new_id sealed.0) new_document ∷ []) sealed-groups
            ∙ unfold new_document signature new_group in
              sym (map-append_one (group_document P) gs (new_group sealed.0)),
        stored users_collection ∙ sealed-users,
      )

  pub inserted-taken :
      Single hashed gs
      → any (is_named hashed) gs ≡ true
      → (v : P.World) × (inserting ≡ (v, value tt))
        × Holds P Q (with_member hashed m gs) v
        × HoldsUsers P Q us v
  unfolding inserted hashed
  inserted-taken single taken =
      let (e, code, status, stored) =
        Q.insert_clash groups_collection new_document sealed.0 (new_clash ∙ taken) in
      let i = P.insert_one groups_collection new_document sealed.0 in
      let clash : (e.code == duplicate_key) ≡ true = ground (arith, code) in
      let (v, run, groups, users) =
        add_user_with_key-Holds P Q gs i.0 (stored groups_collection ∙ sealed-groups) group_name
          user_name key single in
      (
        v,
        ap (λ s. inserted P group_name user_name key s i.0) status ∙ failed_on e i.0 clash ∙ run,
        groups,
        users ∙ stored users_collection ∙ sealed-users,
      )
    where
      failed_on :
          (e : BsonError) (x : P.World)
          → (e.code == duplicate_key) ≡ true
          → inserted P group_name user_name key (failure e) x
            ≡ add_user_with_key P group_name user_name key x
      failed_on e x c = ground (arith, c)
