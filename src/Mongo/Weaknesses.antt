-- ===== src/Mongo/Weaknesses.antt =====
-- What the signature of a group's document does not tell apart.
use mongo_sgx_client.Base.{◌≡◌, sym, ◌∙◌, ap, Bytes, List, [], ◌∷◌, ◌++◌, append_assoc, done}
use mongo_sgx_client.Mongo.Platform.{Platform}
use mongo_sgx_client.Mongo.Hashing.{hmac_key}
use mongo_sgx_client.Mongo.Signature.{validate_group_signature, same_hash}
use mongo_sgx_client.Mongo.Spec.{Member, Group, signed_document, fields_of, validate-signed}

abbrev pub concat : List Bytes → Bytes
concat [] = []
concat (b ∷ bs) = b ++ concat bs

-- An HMAC that is fed in pieces is that of the pieces in a row.
abbrev pub IsStreaming : Platform → Type 0
IsStreaming P =
    (k : Bytes) (us vs : List Bytes) → concat us ≡ concat vs → P.hmac256 k us ≡ P.hmac256 k vs

-- A group whose first two members have these names and encrypted keys.
abbrev pub pair_group : Bytes → Bytes → Bytes → Bytes → Bytes → Bytes → Bytes → List Member → Group
pair_group id name encname name1 key1 name2 key2 rest = record {
  id = id;
  name = name;
  encname = encname;
  members = record { name = name1; key = key1 } ∷ record { name = name2; key = key2 } ∷ rest;
}

module _ (P : Platform) (streaming : IsStreaming P) where
  -- If the hash takes its pieces in a row: where bytes are moved from the end of the first member's
  -- encrypted key to the beginning of the second member's name, the document with the old signature
  -- is valid exactly if it was before. The fields are signed with nothing between them.
  pub validate_group_signature-boundary :
      (id name encname name1 key1 middle name2 key2 signature : Bytes) (rest : List Member)
      → validate_group_signature P (
          signed_document
            (pair_group id name encname name1 (key1 ++ middle) name2 key2 rest)
            signature)
        ≡ validate_group_signature P (
            signed_document
              (pair_group id name encname name1 key1 (middle ++ name2) key2 rest)
              signature)
  validate_group_signature-boundary id name encname name1 key1 middle name2 key2 signature rest =
      let ms = fields_of rest in
      validate-signed P (pair_group id name encname name1 (key1 ++ middle) name2 key2 rest)
        signature
      ∙ ap (λ h. done (same_hash h signature))
          (streaming hmac_key (name ∷ encname ∷ name1 ∷ (key1 ++ middle) ∷ name2 ∷ key2 ∷ ms)
            (name ∷ encname ∷ name1 ∷ key1 ∷ (middle ++ name2) ∷ key2 ∷ ms) (simp append_assoc))
      ∙ sym (
          validate-signed P (pair_group id name encname name1 key1 (middle ++ name2) key2 rest)
            signature)
