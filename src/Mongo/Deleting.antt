-- ===== src/Mongo/Deleting.antt =====
-- `delete_user` and `remove_user_from_all_groups`.
use mongo_sgx_client.Base.{true, false, Bytes, List, [], ◌∷◌, none, some, codes}
use mongo_sgx_client.Mongo.Bson.{Document, find_binary}
use mongo_sgx_client.Mongo.Platform.{
  Platform, bson_error, users_collection, groups_collection, pull, Update, Cursor, Action, ◌>>=◌,
  ◌>>◌, return, throw, call, pure_run, check,
}
use mongo_sgx_client.Mongo.Hashing.{hash_name, decrypt_data}
use mongo_sgx_client.Mongo.Signature.{compute_group_signature, validate_group_signature}
use mongo_sgx_client.Mongo.Users.{by_name}

module _ (P : Platform) where
  -- The update that takes a user out of one group.
  unfoldable pub removal : Bytes → Document → Action P.World (Document × Update)
  removal user_name group_document =
      pure_run (find_binary (codes "encname") group_document) >>= λ encrypted_group_name.
      decrypt_data P encrypted_group_name >>= λ group_name.
      let hashed_user_name = hash_name P user_name (some group_name) in
      pure_run (validate_group_signature P group_document) >>= λ valid. elim valid [
        | false ↦ throw (bson_error "Error in signature validation" 349)
        | true ↦
            pure_run (
              compute_group_signature P group_document (record {
                additional_user_name = some hashed_user_name;
                additional_user_key = none;
                additional_is_add = false;
              }))
            >>= λ new_signature. return (
              group_document,
              record { change = pull hashed_user_name; signature = new_signature },
            )
      ]

  -- The loop over the cursor, which fills the bulk operation.
  unfoldable pub removals : Bytes → List Document → Action P.World (List (Document × Update))
  removals user_name [] = return []
  removals user_name (group_document ∷ rest) = removal user_name group_document >>= λ update.
      removals user_name rest >>= λ updates. return (update ∷ updates)

  -- The documents that a cursor gives, one after the other; its errors are not asked for.
  abbrev pub all_documents : Cursor → List Document
  all_documents c = elim c.initial_error [ some e ↦ [] | none ↦ c.documents ]

  unfoldable pub remove_user_from_all_groups : Bytes → Action P.World (Unit {0})
  remove_user_from_all_groups user_name = call (P.find_with_opts groups_collection []) >>= λ cursor.
      removals user_name (all_documents cursor) >>= λ bulk_operation.
      call (P.bulk_execute groups_collection bulk_operation) >>= check

  unfoldable pub delete_user : Bytes → Action P.World (Unit {0})
  delete_user user_name =
      remove_user_from_all_groups user_name
      >> call (P.delete_one users_collection (by_name (hash_name P user_name none)))
      >>= check
