-- ===== src/Mongo/Lifecycle.antt =====
-- What the methods of `MongoDatabase` come to one after the other, on a quiet platform.
use mongo_sgx_client.Base.{
  ◌≡◌, sym, ◌∙◌, ap, true, false, ◌&&◌, Bytes, List, [], ◌∷◌, ◌++◌, none, some, length, arith,
  subst,
}
use mongo_sgx_client.Mongo.Bson.{eqb, eqb_refl}
use mongo_sgx_client.Mongo.Platform.{Platform, Result, value, ◌>>◌, onward}
use mongo_sgx_client.Mongo.Hashing.{aes_key, hash_name}
use mongo_sgx_client.Mongo.Users.{create_user}
use mongo_sgx_client.Mongo.Groups.{add_user_to_group, remove_user_from_group, create_group}
use mongo_sgx_client.Mongo.Reading.{key_size, is_user_part_of_group, get_keys_of_group}
use mongo_sgx_client.Mongo.First.{first, any, first-append_one, any-append_one}
use mongo_sgx_client.Mongo.Server.{IsQuiet}
use mongo_sgx_client.Mongo.Server.Groups.{is_named, has_member}
use mongo_sgx_client.Mongo.Spec.{Member, Group, is_member, remove_member}
use mongo_sgx_client.Mongo.Quiet.{Holds}
use mongo_sgx_client.Mongo.Single.{Single, any-update_first, has_member-remove_member}
use mongo_sgx_client.Mongo.Methods.{
  with_member, without_member, remove_user_from_group-Holds, is_user_part_of_group-Holds,
}
use mongo_sgx_client.Mongo.Keys.{Open, get_keys_of_group-Holds}
use mongo_sgx_client.Mongo.Accounts.{User, is_user, HoldsUsers, create_user-Holds}
use mongo_sgx_client.Mongo.Inserting.{member_of}
use mongo_sgx_client.Mongo.Creating.{create_group-Holds, add_user_to_group-Holds}

-- The value that a method returns.
abbrev pub Returns {ℓ} : {W : Type 0} {A : Type ℓ} → W × Result A → A → Type ℓ
Returns {W = W} r a = (v : W) × (r ≡ (v, value a))

any-with_member :
    (h : Bytes) (m : Member) (gs : List Group)
    → any (is_named h) gs ≡ true
    → any (λ g. is_named h g && has_member m.name g) (with_member h m gs) ≡ true
any-with_member h m [] e = absurd (cc)
any-with_member h m (g ∷ gs) e = ground (
  arith,
  e,
  any-append_one (is_member m.name) g.members m (eqb_refl m.name),
  any-with_member h m gs,
)

any-without_member :
    (h u : Bytes) (gs : List Group)
    → Single h gs
    → any (λ g. is_named h g && has_member u g) (without_member h u gs) ≡ false
any-without_member h u gs s =
    any-update_first h (has_member u) (remove_member u) (has_member-remove_member u) gs s

module _ (P : Platform) (Q : IsQuiet P) (us : List User) (gs : List Group) (w : P.World)
    (user_docs : HoldsUsers P Q us w) (docs : Holds P Q gs w) (group_name user_name k : Bytes) where
  -- On a platform that keeps the laws of `IsQuiet`, whose database holds these users and groups,
  -- each with the signature that belongs to it: where no user and no group has the hashed names and
  -- the key has 32 bytes, create_user, then create_group, then get_keys_of_group return, the last
  -- with the user's key as the one key of the group.
  pub get_keys_of_group-create_group :
      any (is_user (hash_name P user_name none)) us ≡ false
      → any (is_named (hash_name P group_name none)) gs ≡ false
      → length k ≡ key_size
      → Returns
          ((create_user P user_name k
              >> create_group P group_name user_name
              >> get_keys_of_group P group_name)
            w)
          (k ∷ [])
  get_keys_of_group-create_group new_user new_group size =
      let hg = hash_name P group_name none in
      let (v1, r, run1, named, opens, users1, groups1) =
        create_user-Holds P Q us w user_docs user_name k new_user in
      let known : first (is_user (hash_name P user_name none)) (us ++ r ∷ []) ≡ some r =
        first-append_one (is_user (hash_name P user_name none)) us r new_user
          (ap (λ x. eqb x (hash_name P user_name none)) named ∙ eqb_refl _) in
      let (v2, g, t, run2, called, members, again, titled, unique, groups2, users2) =
        create_group-Holds P Q (us ++ r ∷ []) gs v1 users1 (groups1 ∙ docs) group_name user_name k r
          known opens new_group in
      let found : first (is_named hg) (gs ++ g ∷ []) ≡ some g =
        first-append_one (is_named hg) gs g new_group (ap (λ x. eqb x hg) called ∙ eqb_refl hg) in
      let (v3, run3, groups3, users3) =
        get_keys_of_group-Holds P Q (gs ++ g ∷ []) v2 groups2 group_name g (k ∷ []) found
          (subst (λ ms. Open P ms (k ∷ [])) (sym members) (again, size, tt)) in
      (
        v3,
        ap
              (λ x.
                onward (onward x (λ y. create_group P group_name user_name))
                  (λ y. get_keys_of_group P group_name))
              run1
            ∙ ap (λ x. onward x (λ y. get_keys_of_group P group_name)) run2
            ∙ run3,
      )

  -- On a platform that keeps the laws of `IsQuiet`, whose database holds these users and groups,
  -- each with the signature that belongs to it: for a user who is there and whose stored key
  -- decrypts to k, and where just one group has the hashed name, add_user_to_group and then
  -- is_user_part_of_group return, the latter with true.
  pub is_user_part_of_group-add_user_to_group :
      (r : User)
      → first (is_user (hash_name P user_name none)) us ≡ some r
      → P.decrypt_aesgcm aes_key r.key ≡ some k
      → any (is_named (hash_name P group_name none)) gs ≡ true
      → Single (hash_name P group_name none) gs
      → Returns
          ((add_user_to_group P group_name user_name
              >> is_user_part_of_group P group_name user_name)
            w)
          true
  is_user_part_of_group-add_user_to_group r known opens there single =
      let hg = hash_name P group_name none in
      let (v1, t, run1, again, groups1, users1) =
        add_user_to_group-Holds P Q us gs w user_docs docs group_name user_name k r known opens
          single in
      let m = member_of P group_name user_name t in
      let (v2, run2, groups2, users2) =
        is_user_part_of_group-Holds P Q (with_member hg m gs) v1 groups1 group_name user_name in
      (
        v2,
        ap (λ x. onward x (λ y. is_user_part_of_group P group_name user_name)) run1
            ∙ run2
            ∙ ap (λ b. (v2, value b)) (any-with_member hg m gs there),
      )

  -- On a platform that keeps the laws of `IsQuiet`, whose database holds these users and groups,
  -- each with the signature that belongs to it: where at most one group has the hashed name,
  -- remove_user_from_group and then is_user_part_of_group return, the latter with false.
  pub is_user_part_of_group-remove_user_from_group :
      Single (hash_name P group_name none) gs
      → Returns
          ((remove_user_from_group P group_name user_name
              >> is_user_part_of_group P group_name user_name)
            w)
          false
  is_user_part_of_group-remove_user_from_group single =
      let hg = hash_name P group_name none in
      let hu = hash_name P user_name (some group_name) in
      let (v1, run1, groups1, users1) =
        remove_user_from_group-Holds P Q gs w docs group_name user_name single in
      let (v2, run2, groups2, users2) =
        is_user_part_of_group-Holds P Q (without_member hg hu gs) v1 groups1 group_name user_name in
      (
        v2,
        ap (λ x. onward x (λ y. is_user_part_of_group P group_name user_name)) run1
            ∙ run2
            ∙ ap (λ b. (v2, value b)) (any-without_member hg hu gs single),
      )
