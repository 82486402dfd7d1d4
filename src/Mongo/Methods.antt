-- ===== src/Mongo/Methods.antt =====
-- The methods on groups, on a quiet platform, as operations on groups and their members.
use mongo_sgx_client.Base.{
  ◌≡◌, refl, ◌∙◌, ap, ap₂, Bool, ◌&&◌, not, Bytes, List, [], ◌∷◌, none, some, map, arith,
  Option-cases, inl, inr,
}
use mongo_sgx_client.Mongo.Bson.{Document, eqb_refl}
use mongo_sgx_client.Mongo.Platform.{
  Platform, bson_error, users_collection, groups_collection, Selector, Result, value, push, pull,
}
use mongo_sgx_client.Mongo.Hashing.{hash_name}
use mongo_sgx_client.Mongo.Users.{first_document, error_behind}
use mongo_sgx_client.Mongo.Groups.{user_entry, add_user_with_key, remove_user_from_group}
use mongo_sgx_client.Mongo.Reading.{is_some, part_of, is_user_part_of_group}
use mongo_sgx_client.Mongo.First.{
  filter, first, update_first, any, head, head-filter, first-map, any-first, any-none,
  any-append_one,
}
use mongo_sgx_client.Mongo.Server.{IsQuiet, cursor_on, selects}
use mongo_sgx_client.Mongo.Server.Groups.{
  named_without, named_with, has_member, is_named, selects-named_without, selects-named_with,
  apply_update-push, apply_update-pull,
}
use mongo_sgx_client.Mongo.Spec.{
  Member, Group, is_member, signed_document, group_document, signature_of, adding, removing,
  add_member, remove_member, signature-adding, signature-removing,
}
use mongo_sgx_client.Mongo.Quiet.{Holds, attempt-Holds, first_document-cursor_on}
use mongo_sgx_client.Mongo.Single.{Single, any-update_first, has_member-remove_member}

-- The groups when a member has been added to the first of that name that lacks it,
abbrev pub with_member : Bytes → Member → List Group → List Group
with_member h m gs = update_first (λ g. is_named h g && not (has_member m.name g)) (add_member m) gs

-- and when it has been taken from the first of that name that has it.
abbrev pub without_member : Bytes → Bytes → List Group → List Group
without_member h u gs = update_first (λ g. is_named h g && has_member u g) (remove_member u) gs

module _ (P : Platform) (Q : IsQuiet P) where
  -- A method that returns, with the groups and users that it leaves.
  abbrev pub Leaves {ℓ} :
      {A : Type ℓ} → P.World × Result A → A → List Group → List Document → Type ℓ
  Leaves r a gs us =
      (v : P.World) × (r ≡ (v, value a)) × Holds P Q gs v × (Q.documents users_collection v ≡ us)

module _ (P : Platform) (Q : IsQuiet P) (gs : List Group) (w : P.World)
    (docs : Holds P Q gs w) where
  -- On a platform that keeps the laws of `IsQuiet`, whose database holds these groups, each with
  -- the signature that belongs to it, and of which at most one has the hashed name: adding a user
  -- with an encrypted key returns, and leaves the groups with the user as last member of the first group of the hashed name that lacks the user,
  -- signed anew, and the users as they were.
  pub add_user_with_key-Holds :
      (group_name user_name key : Bytes)
      → Single (hash_name P group_name none) gs
      → let m : Member = record { name = hash_name P user_name (some group_name); key = key } in
        Leaves P Q
          (add_user_with_key P group_name user_name key w)
          tt
          (with_member (hash_name P group_name none) m gs)
          (Q.documents users_collection w)
  unfolding add_user_with_key
  add_user_with_key-Holds group_name user_name key single =
      let h = hash_name P group_name none in
      let u = hash_name P user_name (some group_name) in
      let m : Member = record { name = u; key = key } in
      attempt-Holds P Q (named_without h u) (adding u key) (push (user_entry u key))
        (bson_error "Error in signature validation at line" 194)
        (λ g. is_named h g && not (has_member u g)) (add_member m)
        (λ g s. selects-named_without g s h u) (λ g s. signature-adding P g s m)
        (λ g s t. apply_update-push g s t m) gs w docs 8
        (bson_error "Unable to add user to group after multiple attempts" 247)
        (any-update_first h (λ g. not (has_member u g)) (add_member m)
          (λ g. ap not (any-append_one (is_member u) g.members m (eqb_refl u))) gs single)

  -- On a platform that keeps the laws of `IsQuiet`, whose database holds these groups, each with
  -- the signature that belongs to it, and of which at most one has the hashed name:
  -- remove_user_from_group returns, and leaves the groups with
  -- the user taken out of the first group of the hashed name that has the user, signed anew, and
  -- the users as they were.
  pub remove_user_from_group-Holds :
      (group_name user_name : Bytes)
      → Single (hash_name P group_name none) gs
      → Leaves P Q
          (remove_user_from_group P group_name user_name w)
          tt
          (without_member
            (hash_name P group_name none)
            (hash_name P user_name (some group_name))
            gs)
          (Q.documents users_collection w)
  unfolding remove_user_from_group
  remove_user_from_group-Holds group_name user_name single =
      let h = hash_name P group_name none in
      let u = hash_name P user_name (some group_name) in
      attempt-Holds P Q (named_with h u) (removing u) (pull u)
        (bson_error "Error in signature validation" 274) (λ g. is_named h g && has_member u g)
        (remove_member u) (λ g s. selects-named_with g s h u) (λ g s. signature-removing P g s u)
        (λ g s t. apply_update-pull g s t u) gs w docs 8
        (bson_error "Unable to remove user from group after multiple attempts" 322)
        (any-update_first h (has_member u) (remove_member u) (has_member-remove_member u) gs single)

  -- What a search for one document gives.
  pub found_document :
      (c : Selector) (q : Group → Bool)
      → ((g : Group) (s : Bytes) → selects c (signed_document g s) ≡ q g)
      → first_document (P.find_with_opts groups_collection c w).1
        ≡ elim (first q gs) [ none ↦ none | some g ↦ some (group_document P g) ]
  found_document c q h =
      ap first_document (Q.find_answer groups_collection c w)
      ∙ first_document-cursor_on (filter (selects c) (Q.documents groups_collection w))
      ∙ ap (λ ds. head (filter (selects c) ds)) docs
      ∙ head-filter (selects c) (map (group_document P) gs)
      ∙ first-map (group_document P) (selects c) q gs (λ g. h g (signature_of P g))

  no_error : (ds : List Document) → error_behind (cursor_on ds) ≡ none
  unfolding error_behind
  no_error [] = refl
  no_error (d ∷ ds) = refl

  found_any :
      (q : Group → Bool)
      → is_some (elim (first q gs) [ none ↦ none | some g ↦ some (group_document P g) ]) ≡ any q gs
  found_any q = elim (Option-cases (first q gs)) [
    | inl e ↦ ground (arith, e, any-none q gs e)
    | inr (g, e) ↦ ground (arith, e, any-first q gs g e)
  ]

  -- On a platform that keeps the laws of `IsQuiet`, whose database holds these groups, each with
  -- the signature that belongs to it: is_user_part_of_group returns whether some group of the
  -- hashed name has the user's hashed name among its members, and leaves groups and users as they
  -- were.
  pub is_user_part_of_group-Holds :
      (group_name user_name : Bytes)
      → let h = hash_name P group_name none in
        let u = hash_name P user_name (some group_name) in
        Leaves P Q
          (is_user_part_of_group P group_name user_name w)
          (any (λ g. is_named h g && has_member u g) gs)
          gs
          (Q.documents users_collection w)
  unfolding is_user_part_of_group part_of
  is_user_part_of_group-Holds group_name user_name =
      let h = hash_name P group_name none in
      let u = hash_name P user_name (some group_name) in
      let q = λ (g : Group). is_named h g && has_member u g in
      let c = named_with h u in
      let r = P.find_with_opts groups_collection c w in
      let exists : is_some (first_document r.1) ≡ any q gs =
        ap is_some (found_document c q (λ g s. selects-named_with g s h u)) ∙ found_any q in
      let fine : error_behind r.1 ≡ none =
        ap error_behind (Q.find_answer groups_collection c w) ∙ no_error _ in
      (
        r.0,
        ap₂ (λ b e. part_of P b e r.0) exists fine,
        Q.documents-find groups_collection groups_collection c w ∙ docs,
        Q.documents-find groups_collection users_collection c w,
      )
