-- ===== src/Mongo/Users.antt =====
-- Users: `create_user` and `reencrypt_user_key`.
use mongo_sgx_client.Base.{Bool, true, false, Bytes, [], ◌∷◌, Option, none, some, codes}
use mongo_sgx_client.Mongo.Bson.{binary, scalar, Document, find_binary}
use mongo_sgx_client.Mongo.Platform.{
  Platform, BsonError, bson_error, users_collection, Selector, equals, Cursor, Action, ◌>>=◌, throw,
  call, pure_run, check,
}
use mongo_sgx_client.Mongo.Hashing.{
  hash_name, encrypt_data, decrypt_data, compute_hmac_2, compute_user_signature,
}
use mongo_sgx_client.Mongo.Signature.{same_hash}

-- The first `mongoc_cursor_next`.
unfoldable pub first_document : Cursor → Option Document
first_document c = elim c.initial_error [
  | some e ↦ none
  | none ↦ elim c.documents [ [] ↦ none | d ∷ rest ↦ some d ]
]

-- `mongoc_cursor_error` behind it.
unfoldable pub error_behind : Cursor → Option BsonError
error_behind c = elim c.initial_error [
  | some e ↦ some e
  | none ↦ elim c.documents [ [] ↦ c.final_error | d ∷ rest ↦ none ]
]

abbrev pub by_name : Bytes → Selector
by_name name = equals (codes "name") name ∷ []

abbrev pub user_document : Bytes → Bytes → Bytes → Document
user_document name key signature =
    (codes "name", scalar (binary name))
    ∷ (codes "key", scalar (binary key))
    ∷ (codes "signature", scalar (binary signature))
    ∷ []

module _ (P : Platform) where
  unfoldable pub create_user : Bytes → Bytes → Action P.World (Unit {0})
  create_user user_name key =
      let hashed_user_name = hash_name P user_name none in
      encrypt_data P key >>= λ encrypted_key.
      let signature = compute_user_signature P hashed_user_name encrypted_key in
      call (P.insert_one users_collection (user_document hashed_user_name encrypted_key signature))
      >>= check

  unfoldable pub reencrypt_checked : Bool → Bytes → Action P.World Bytes
  reencrypt_checked false encrypted_key = throw (bson_error "Error in signature validation" 569)
  reencrypt_checked true encrypted_key = decrypt_data P encrypted_key >>= λ key. encrypt_data P key

  -- What is done with the user's document.
  unfoldable pub reencrypt_document : Document → Action P.World Bytes
  reencrypt_document document = pure_run (find_binary (codes "name") document) >>= λ hashed_name.
      pure_run (find_binary (codes "key") document) >>= λ encrypted_key.
      pure_run (find_binary (codes "signature") document) >>= λ signature.
      reencrypt_checked (same_hash (compute_hmac_2 P hashed_name encrypted_key) signature)
        encrypted_key

  unfoldable pub reencrypt_on : Option Document → Action P.World Bytes
  reencrypt_on none = throw (bson_error "User does not exist" 539)
  reencrypt_on (some document) = reencrypt_document document

  -- A cursor that has given a document has no error.
  unfoldable pub reencrypt_user_key : Bytes → Action P.World Bytes
  reencrypt_user_key user_name =
      call (P.find_with_opts users_collection (by_name (hash_name P user_name none))) >>= λ cursor.
      reencrypt_on (first_document cursor)
