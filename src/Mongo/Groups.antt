-- ===== src/Mongo/Groups.antt =====
-- The methods that change one group: `add_user_to_group`, `remove_user_from_group` and `create_group`.
use mongo_sgx_client.Base.{ℕ, true, false, Bytes, [], ◌∷◌, ◌++◌, none, some, codes, ◌==◌}
use mongo_sgx_client.Mongo.Bson.{binary, Entry, scalar, array, Document}
use mongo_sgx_client.Mongo.Platform.{
  Platform, bson_error, groups_collection, equals, differs, push, pull, Status, success, failure,
  Action, ◌>>=◌, return, call, pure_run, throw_potential_error,
}
use mongo_sgx_client.Mongo.Hashing.{hash_name, encrypt_data}
use mongo_sgx_client.Mongo.Signature.{nothing_more, compute_group_signature}
use mongo_sgx_client.Mongo.Users.{reencrypt_user_key}
use mongo_sgx_client.Mongo.Rounds.{attempt}

-- MONGOC_ERROR_DUPLICATE_KEY.
abbrev pub duplicate_key : ℕ
duplicate_key = 11000

-- One entry of a group's users.
abbrev pub user_entry : Bytes → Bytes → Entry
user_entry name key = (codes "name", binary name) ∷ (codes "key", binary key) ∷ []

abbrev pub group_fields : Bytes → Bytes → Entry → Document
group_fields name encname user =
    (codes "name", scalar (binary name))
    ∷ (codes "encname", scalar (binary encname))
    ∷ (codes "users", array (user ∷ []))
    ∷ []

module _ (P : Platform) where
  -- The private `add_user_to_group`, with the key encrypted for the group.
  unfoldable pub add_user_with_key : Bytes → Bytes → Bytes → Action P.World (Unit {0})
  add_user_with_key group_name user_name user_key_reencrypted =
      let hashed_group_name = hash_name P group_name none in
      let hashed_user_name = hash_name P user_name (some group_name) in
      attempt P 10
        (equals (codes "name") hashed_group_name
          ∷ differs (codes "users.name") hashed_user_name
          ∷ [])
        (record {
          additional_user_name = some hashed_user_name;
          additional_user_key = some user_key_reencrypted;
          additional_is_add = true;
        })
        (push (user_entry hashed_user_name user_key_reencrypted))
        (bson_error "Error in signature validation at line" 194)
        (bson_error "Unable to add user to group after multiple attempts" 247)

  unfoldable pub add_user_to_group : Bytes → Bytes → Action P.World (Unit {0})
  add_user_to_group group_name user_name =
      reencrypt_user_key P user_name >>= λ key. add_user_with_key group_name user_name key

  unfoldable pub remove_user_from_group : Bytes → Bytes → Action P.World (Unit {0})
  remove_user_from_group group_name user_name =
      let hashed_group_name = hash_name P group_name none in
      let hashed_user_name = hash_name P user_name (some group_name) in
      attempt P 10
        (equals (codes "name") hashed_group_name
          ∷ equals (codes "users.name") hashed_user_name
          ∷ [])
        (record {
          additional_user_name = some hashed_user_name;
          additional_user_key = none;
          additional_is_add = false;
        })
        (pull hashed_user_name) (bson_error "Error in signature validation" 274)
        (bson_error "Unable to remove user from group after multiple attempts" 322)

  -- A group of that name that is there already gets the user instead.
  unfoldable pub inserted : Bytes → Bytes → Bytes → Status → Action P.World (Unit {0})
  inserted group_name user_name key success = return tt
  inserted group_name user_name key (failure e) = elim (e.code == duplicate_key) [
    | true ↦ add_user_with_key group_name user_name key
    | false ↦ throw_potential_error e
  ]

  unfoldable pub create_group : Bytes → Bytes → Action P.World (Unit {0})
  create_group group_name user_name = reencrypt_user_key P user_name >>= λ user_key_reencrypted.
      let hashed_group_name = hash_name P group_name none in
      encrypt_data P group_name >>= λ encrypted_group_name.
      let hashed_user_name = hash_name P user_name (some group_name) in
      let document =
        group_fields hashed_group_name encrypted_group_name
          (user_entry hashed_user_name user_key_reencrypted) in
      pure_run (compute_group_signature P document nothing_more) >>= λ signature.
      call (
        P.insert_one groups_collection
          (document ++ (codes "signature", scalar (binary signature)) ∷ []))
      >>= inserted group_name user_name user_key_reencrypted
