-- ===== src/Mongo/Keys.antt =====
-- `get_keys_of_group` on a quiet platform.
use mongo_sgx_client.Base.{
  ◌≡◌, refl, ◌∙◌, ap, ap₂, Bytes, List, [], ◌∷◌, none, some, map, length, arith,
}
use mongo_sgx_client.Mongo.Bson.{eqb, seek}
use mongo_sgx_client.Mongo.Platform.{
  Platform, bson_error, users_collection, groups_collection, Cursor, value, thrown, onward,
}
use mongo_sgx_client.Mongo.Hashing.{aes_key, hash_name, decrypt_data}
use mongo_sgx_client.Mongo.Reading.{
  key_size, entry_key, entry_keys, document_keys, keys_on, get_keys_of_group, throw_early,
}
use mongo_sgx_client.Mongo.First.{first}
use mongo_sgx_client.Mongo.Server.{IsQuiet}
use mongo_sgx_client.Mongo.Server.Groups.{named, is_named, selects-named}
use mongo_sgx_client.Mongo.Spec.{Member, Group, entry_of, group_document}
use mongo_sgx_client.Mongo.Quiet.{Holds, validate-group_document}
use mongo_sgx_client.Mongo.Methods.{Leaves, found_document}

module _ (P : Platform) where
  -- The members' keys decrypt to these, each of the size of a key.
  abbrev pub Open : List Member → List Bytes → Type 0
  Open [] [] = Unit
  Open [] (k ∷ ks) = ⊥
  Open (m ∷ ms) [] = ⊥
  Open (m ∷ ms) (k ∷ ks) =
      (P.decrypt_aesgcm aes_key m.key ≡ some k) × (length k ≡ key_size) × Open ms ks

  pub decrypt_data-some :
      (t k : Bytes) (w : P.World)
      → P.decrypt_aesgcm aes_key t ≡ some k
      → decrypt_data P t w ≡ (w, value k)
  unfolding decrypt_data
  decrypt_data-some t k w e = rw (decrypt_data, e) refl

  entry_key-opened :
      (m : Member) (k : Bytes) (w : P.World)
      → P.decrypt_aesgcm aes_key m.key ≡ some k
      → length k ≡ key_size
      → entry_key P (entry_of m) w ≡ (w, value k)
  unfolding entry_key seek eqb
  entry_key-opened m k w e h = rw (entry_key, decrypt_data-some m.key k w e) (ground (arith, h))

  entry_keys-Open :
      (ms : List Member) (ks : List Bytes) (w : P.World)
      → Open ms ks
      → entry_keys P (map entry_of ms) w ≡ (w, value ks)
  unfolding entry_keys
  entry_keys-Open [] [] w h = refl
  entry_keys-Open [] (k ∷ ks) w h = elim h [ ]
  entry_keys-Open (m ∷ ms) [] w h = elim h [ ]
  entry_keys-Open (m ∷ ms) (k ∷ ks) w h =
      rw (entry_key-opened m k w h.0 h.1, entry_keys-Open ms ks w h.2) refl

module _ (P : Platform) (Q : IsQuiet P) where
  document_keys-Open :
      (g : Group) (ks : List Bytes) (w : P.World)
      → Open P g.members ks
      → document_keys P (group_document P g) w ≡ (w, value ks)
  unfolding document_keys seek eqb
  document_keys-Open g ks w h =
      rw (document_keys, validate-group_document P Q g, entry_keys-Open P g.members ks w h) refl

module _ (P : Platform) (Q : IsQuiet P) (gs : List Group) (w : P.World) (docs : Holds P Q gs w)
    (group_name : Bytes) where
  asked : P.World
  asked = (P.find_with_opts groups_collection (named (hash_name P group_name none)) w).0

  keys-answer :
      get_keys_of_group P group_name w
      ≡ keys_on P
          (elim (first (is_named (hash_name P group_name none)) gs) [
            | none ↦ none
            | some g ↦ some (group_document P g)
          ])
          asked
  unfolding get_keys_of_group asked
  keys-answer =
      let h = hash_name P group_name none in
      let r = P.find_with_opts groups_collection (named h) w in
      let calm : r.1.initial_error ≡ none =
        ap (λ (c : Cursor). c.initial_error) (Q.find_answer groups_collection (named h) w) in
      ap₂ (λ e o. onward (throw_early e r.0) (λ x. keys_on P o)) calm
        (found_document P Q gs w docs (named h) (is_named h) (λ g s. selects-named g s h))

  -- On a platform that keeps the laws of `IsQuiet`, whose database holds these groups, each with
  -- the signature that belongs to it: where the first group of the hashed name has members whose
  -- keys decrypt to these, each of 32 bytes, get_keys_of_group returns them in the order of the
  -- members, and leaves groups and users as they were.
  pub get_keys_of_group-Holds :
      (g : Group) (ks : List Bytes)
      → first (is_named (hash_name P group_name none)) gs ≡ some g
      → Open P g.members ks
      → Leaves P Q (get_keys_of_group P group_name w) ks gs (Q.documents users_collection w)
  unfolding asked keys_on
  get_keys_of_group-Holds g ks e h =
      let c = named (hash_name P group_name none) in
      (
        asked,
        keys-answer
            ∙ ap
                (λ o. keys_on P (elim o [ none ↦ none | some x ↦ some (group_document P x) ]) asked)
                e
            ∙ document_keys-Open P Q g ks asked h,
        Q.documents-find groups_collection groups_collection c w ∙ docs,
        Q.documents-find groups_collection users_collection c w,
      )

  -- On a platform that keeps the laws of `IsQuiet`, whose database holds these groups, each with
  -- the signature that belongs to it: where no group has the hashed name, get_keys_of_group throws
  -- that there is no matching group, and leaves groups and users as they were.
  pub get_keys_of_group-none :
      first (is_named (hash_name P group_name none)) gs ≡ none
      → (v : P.World) × (get_keys_of_group P group_name w
          ≡ (v, thrown (bson_error "No matching group to validate" 487)))
        × Holds P Q gs v
        × (Q.documents users_collection v ≡ Q.documents users_collection w)
  unfolding asked keys_on
  get_keys_of_group-none e =
      let c = named (hash_name P group_name none) in
      (
        asked,
        keys-answer
            ∙ ap
                (λ o. keys_on P (elim o [ none ↦ none | some x ↦ some (group_document P x) ]) asked)
                e,
        Q.documents-find groups_collection groups_collection c w ∙ docs,
        Q.documents-find groups_collection users_collection c w,
      )
