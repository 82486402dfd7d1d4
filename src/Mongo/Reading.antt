-- ===== src/Mongo/Reading.antt =====
-- The methods that read a group: `is_user_part_of_group` and `get_keys_of_group`.
use mongo_sgx_client.Base.{
  ℕ, Bool, true, false, Bytes, List, [], ◌∷◌, Option, none, some, codes, length, ◌==◌,
}
use mongo_sgx_client.Mongo.Bson.{Entry, Document, seek, scalar_binary, value_array}
use mongo_sgx_client.Mongo.Platform.{
  Platform, BsonError, bson_error, groups_collection, equals, Action, ◌>>=◌, return, throw, call,
  pure_run, throw_potential_error, undefined,
}
use mongo_sgx_client.Mongo.Hashing.{hash_name, decrypt_data}
use mongo_sgx_client.Mongo.Signature.{validate_group_signature}
use mongo_sgx_client.Mongo.Users.{first_document, error_behind, by_name}

abbrev pub key_size : ℕ
key_size = 32

abbrev pub is_some {ℓ} : {A : Type ℓ} → Option A → Bool
is_some none = false
is_some (some a) = true

-- `mongoc_cursor_error` before the first document, and `throw_potential_error`.
abbrev pub throw_early : {W : Type 0} → Option BsonError → Action W (Unit {0})
throw_early none = return tt
throw_early (some e) = throw_potential_error e

module _ (P : Platform) where
  unfoldable pub part_of : Bool → Option BsonError → Action P.World Bool
  part_of document_exists none = return document_exists
  part_of document_exists (some e) = throw_potential_error e >>= λ _. return document_exists

  unfoldable pub is_user_part_of_group : Bytes → Bytes → Action P.World Bool
  is_user_part_of_group group_name user_name =
      let hashed_group_name = hash_name P group_name none in
      let hashed_user_name = hash_name P user_name (some group_name) in
      call (
        P.find_with_opts groups_collection (
          equals (codes "name") hashed_group_name
          ∷ equals (codes "users.name") hashed_user_name
          ∷ []))
      >>= λ cursor. part_of (is_some (first_document cursor)) (error_behind cursor)

  -- The key of one user of a group.
  unfoldable pub entry_key : Entry → Action P.World Bytes
  entry_key user = elim (seek (codes "key") user) [
    | none ↦ λ w. (w, undefined)
    | some (v, rest) ↦ pure_run (scalar_binary v) >>= λ key_binary.
        decrypt_data P key_binary >>= λ decrypted_key. elim (length decrypted_key == key_size) [
          | false ↦ throw (bson_error "Key size is wrong" 513)
          | true ↦ return decrypted_key
        ]
  ]

  unfoldable pub entry_keys : List Entry → Action P.World (List Bytes)
  entry_keys [] = return []
  entry_keys (user ∷ rest) =
      entry_key user >>= λ key. entry_keys rest >>= λ list. return (key ∷ list)

  -- What is done with the group's document.
  unfoldable pub document_keys : Document → Action P.World (List Bytes)
  document_keys group_document = pure_run (validate_group_signature P group_document) >>= λ valid.
      elim valid [
        | false ↦ throw (bson_error "Error in signature validation" 491)
        | true ↦ elim (seek (codes "users") group_document) [
          | none ↦ λ w. (w, undefined)
          | some (v, rest) ↦ pure_run (value_array v) >>= entry_keys
        ]
      ]

  unfoldable pub keys_on : Option Document → Action P.World (List Bytes)
  keys_on none = throw (bson_error "No matching group to validate" 487)
  keys_on (some group_document) = document_keys group_document

  unfoldable pub get_keys_of_group : Bytes → Action P.World (List Bytes)
  get_keys_of_group group_name =
      call (P.find_with_opts groups_collection (by_name (hash_name P group_name none)))
      >>= λ cursor. throw_early cursor.initial_error >>= λ _. keys_on (first_document cursor)
