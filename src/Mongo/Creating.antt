-- ===== src/Mongo/Creating.antt =====
-- `create_group`, and what the methods come to one after the other.
use mongo_sgx_client.Base.{◌≡◌, refl, ◌∙◌, ap, true, false, Bytes, List, [], ◌∷◌, ◌++◌, none, some}
use mongo_sgx_client.Mongo.Platform.{Platform, value, onward}
use mongo_sgx_client.Mongo.Hashing.{aes_key, hash_name}
use mongo_sgx_client.Mongo.Groups.{add_user_with_key, add_user_to_group, create_group}
use mongo_sgx_client.Mongo.First.{first, any}
use mongo_sgx_client.Mongo.Server.{IsQuiet}
use mongo_sgx_client.Mongo.Server.Groups.{is_named}
use mongo_sgx_client.Mongo.Spec.{Group}
use mongo_sgx_client.Mongo.Distinct.{Elsewhere, Elsewhere-new_id}
use mongo_sgx_client.Mongo.Single.{Single}
use mongo_sgx_client.Mongo.Quiet.{Holds}
use mongo_sgx_client.Mongo.Methods.{with_member, add_user_with_key-Holds}
use mongo_sgx_client.Mongo.Accounts.{User, is_user, HoldsUsers, reencrypt_user_key-Holds}
use mongo_sgx_client.Mongo.Inserting.{
  member_of, sealed, hashed, sealed-groups, create_group-insert, new_group, inserted-fresh,
  inserted-taken,
}

module _ (P : Platform) (Q : IsQuiet P) (us : List User) (gs : List Group) (w : P.World)
    (user_docs : HoldsUsers P Q us w) (docs : Holds P Q gs w) (group_name user_name k : Bytes)
    (r : User) (known : first (is_user (hash_name P user_name none)) us ≡ some r)
    (opens : P.decrypt_aesgcm aes_key r.key ≡ some k) where
  -- On a platform that keeps the laws of `IsQuiet`, whose database holds these users and groups,
  -- each with the signature that belongs to it: for a user who is there and whose stored key
  -- decrypts to k, and where no group has the hashed name, create_group returns, and leaves one
  -- group more behind the others, signed, of the hashed name and with an id that no other has, its
  -- name encrypted, and with the user as its one member, with a key that decrypts to k; the users stay
  -- as they were.
  pub create_group-Holds :
      any (is_named (hash_name P group_name none)) gs ≡ false
      → (v : P.World) × (g : Group) × (t : Bytes) × (create_group P group_name user_name w
          ≡ (v, value tt))
        × (g.name ≡ hash_name P group_name none)
        × (g.members ≡ member_of P group_name user_name t ∷ [])
        × (P.decrypt_aesgcm aes_key t ≡ some k)
        × (P.decrypt_aesgcm aes_key g.encname ≡ some group_name)
        × Elsewhere g.id gs
        × Holds P Q (gs ++ g ∷ []) v
        × HoldsUsers P Q us v
  unfolding hashed new_group
  create_group-Holds fresh =
      let (u, t, key, again, users, groups) =
        reencrypt_user_key-Holds P Q us w user_docs user_name k r known opens in
      let held = groups ∙ docs in
      let (v, run, gs', us') = inserted-fresh P Q us gs u users held group_name user_name t fresh in
      (
        v,
        new_group P Q us gs u users held group_name user_name t
            (sealed P Q us gs u users held group_name user_name t).0,
        t,
        create_group-insert P Q us gs u users held group_name user_name t w key ∙ run,
        refl,
        refl,
        again,
        unfold sealed in Q.decrypt-encrypt aes_key group_name u,
        Elsewhere-new_id P Q gs (sealed P Q us gs u users held group_name user_name t).0
            (sealed-groups P Q us gs u users held group_name user_name t),
        gs',
        us',
      )

  -- On a platform that keeps the laws of `IsQuiet`, whose database holds these users and groups,
  -- each with the signature that belongs to it: for a user who is there and whose stored key
  -- decrypts to k, and where one group has the hashed name already, create_group returns, and leaves
  -- the groups with the user as last member of the first group of that name that lacks the user,
  -- with a key that decrypts to k, and the users as they were.
  pub create_group-taken :
      Single (hash_name P group_name none) gs
      → any (is_named (hash_name P group_name none)) gs ≡ true
      → (v : P.World) × (t : Bytes) × (create_group P group_name user_name w ≡ (v, value tt))
        × (P.decrypt_aesgcm aes_key t ≡ some k)
        × Holds P Q
            (with_member (hash_name P group_name none) (member_of P group_name user_name t) gs)
            v
        × HoldsUsers P Q us v
  unfolding hashed
  create_group-taken single taken =
      let (u, t, key, again, users, groups) =
        reencrypt_user_key-Holds P Q us w user_docs user_name k r known opens in
      let held = groups ∙ docs in
      let (v, run, gs', us') =
        inserted-taken P Q us gs u users held group_name user_name t single taken in
      (
        v,
        t,
        create_group-insert P Q us gs u users held group_name user_name t w key ∙ run,
        again,
        gs',
        us',
      )

  -- On a platform that keeps the laws of `IsQuiet`, whose database holds these users and groups,
  -- each with the signature that belongs to it: for a user who is there and whose stored key
  -- decrypts to k, and where at most one group has the hashed name, add_user_to_group returns, and leaves the groups with the user as last member of
  -- the first group of the hashed name that lacks the user, with a key that decrypts to k, and the
  -- users as they were. No group is made where none has the name.
  pub add_user_to_group-Holds :
      Single (hash_name P group_name none) gs
      → (v : P.World) × (t : Bytes) × (add_user_to_group P group_name user_name w ≡ (v, value tt))
        × (P.decrypt_aesgcm aes_key t ≡ some k)
        × Holds P Q
            (with_member (hash_name P group_name none) (member_of P group_name user_name t) gs)
            v
        × HoldsUsers P Q us v
  unfolding add_user_to_group
  add_user_to_group-Holds single =
      let (u, t, key, again, users, groups) =
        reencrypt_user_key-Holds P Q us w user_docs user_name k r known opens in
      let (v, run, gs', us') =
        add_user_with_key-Holds P Q gs u (groups ∙ docs) group_name user_name t single in
      (
        v,
        t,
        ap (λ x. onward x (add_user_with_key P group_name user_name)) key ∙ run,
        again,
        gs',
        us' ∙ users,
      )
