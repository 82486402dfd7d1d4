-- ===== src/Mongo/Signature.antt =====
-- The signature of a group's document: an HMAC over the names and the entries of its users.
use mongo_sgx_client.Base.{
  Bool, true, false, ◌&&◌, ◌||◌, Bytes, List, [], ◌∷◌, ◌++◌, Option, none, some, codes, length,
  ◌==◌, Run, done, fault, ◌>>=◌,
}
use mongo_sgx_client.Mongo.Bson.{
  Entry, Value, Document, eqb, seek, scalar_binary, value_binary, value_array, find_binary,
}
use mongo_sgx_client.Mongo.Platform.{Platform}
use mongo_sgx_client.Mongo.Hashing.{hmac_key, hmac_result_length}

-- The optional arguments of `compute_group_signature`.
pub record Additional : Type 0 where
  pub additional_user_name : Option Bytes
  pub additional_user_key : Option Bytes
  pub additional_is_add : Bool

abbrev pub nothing_more : Additional
nothing_more = record {
  additional_user_name = none;
  additional_user_key = none;
  additional_is_add = true;
}

-- `!additional_is_add && additional_user_name != nullptr && ...`.
abbrev pub is_removed : Additional → Bytes → Bool
is_removed a content = elim a.additional_is_add [
  | true ↦ false
  | false ↦ elim a.additional_user_name [ none ↦ false | some name ↦ eqb name content ]
]

-- What one user's entry adds to the HMAC. The key is looked for behind the name.
unfoldable pub entry_updates : Additional → Entry → Run (List Bytes)
entry_updates a e = elim (seek (codes "name") e) [
  | none ↦ fault
  | some (v, rest) ↦ scalar_binary v >>= λ name. elim (is_removed a name) [
    | true ↦ done []
    | false ↦ elim (seek (codes "key") rest) [
      | none ↦ fault
      | some (u, behind) ↦ scalar_binary u >>= λ key. done (name ∷ key ∷ [])
    ]
  ]
]

unfoldable pub entries_updates : Additional → List Entry → Run (List Bytes)
entries_updates a [] = done []
entries_updates a (e ∷ es) =
    entry_updates a e >>= λ first. entries_updates a es >>= λ rest. done (first ++ rest)

-- What a field of the document adds.
unfoldable pub field_updates : Additional → Bytes → Value → Run (List Bytes)
field_updates a key v = elim (eqb key (codes "name") || eqb key (codes "encname")) [
  | true ↦ value_binary v >>= λ content. done (content ∷ [])
  | false ↦ elim (eqb key (codes "users")) [
    | true ↦ value_array v >>= λ es. entries_updates a es
    | false ↦ done []
  ]
]

unfoldable pub document_updates : Additional → Document → Run (List Bytes)
document_updates a [] = done []
document_updates a ((key, v) ∷ d) =
    field_updates a key v >>= λ first. document_updates a d >>= λ rest. done (first ++ rest)

-- The user who is added comes last.
abbrev pub added : Additional → List Bytes
added a = elim a.additional_is_add [
  | false ↦ []
  | true ↦ elim a.additional_user_name [
    | none ↦ []
    | some name ↦ elim a.additional_user_key [ none ↦ [] | some key ↦ name ∷ key ∷ [] ]
  ]
]

-- `existing_signature.size() == signature_length && memcmp(...) == 0`.
abbrev pub same_hash : Bytes → Bytes → Bool
same_hash hash signature = length signature == hmac_result_length && eqb hash signature

module _ (P : Platform) where
  unfoldable pub compute_group_signature : Document → Additional → Run Bytes
  compute_group_signature group_document a = document_updates a group_document >>= λ updates.
      done (P.hmac256 hmac_key (updates ++ added a))

  unfoldable pub validate_group_signature : Document → Run Bool
  validate_group_signature group_document =
      find_binary (codes "signature") group_document >>= λ signature.
      compute_group_signature group_document nothing_more >>= λ existing.
      done (same_hash existing signature)
