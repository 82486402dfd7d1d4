-- ===== src/Mongo/Cleaning.antt =====
-- `remove_user_from_all_groups` and `delete_user` on a quiet platform.
use mongo_sgx_client.Base.{◌≡◌, refl, ◌∙◌, ap, false, ◌==◌, Bytes, List, [], ◌∷◌, none, map, arith}
use mongo_sgx_client.Mongo.Bson.{eqb, seek}
use mongo_sgx_client.Mongo.Platform.{
  Platform, BsonError, users_collection, groups_collection, success, value, thrown, ◌>>=◌, onward,
  call, check,
}
use mongo_sgx_client.Mongo.Hashing.{hash_name}
use mongo_sgx_client.Mongo.Users.{by_name}
use mongo_sgx_client.Mongo.Deleting.{
  removals, all_documents, remove_user_from_all_groups, delete_user,
}
use mongo_sgx_client.Mongo.First.{remove_first, remove_first-map}
use mongo_sgx_client.Mongo.Server.{IsQuiet, invalid_argument, selects, apply_all, path_is}
use mongo_sgx_client.Mongo.Spec.{Group, group_document}
use mongo_sgx_client.Mongo.Distinct.{Distinct}
use mongo_sgx_client.Mongo.Quiet.{Holds}
use mongo_sgx_client.Mongo.Methods.{Leaves}
use mongo_sgx_client.Mongo.Accounts.{User, is_user, stored_user, HoldsUsers}
use mongo_sgx_client.Mongo.Removals.{
  filter-everything, Named, without_user, taken_out, bulk, removals-bulk, apply_all-bulk,
}

bulk_filled :
    (P : Platform) (Q : IsQuiet P) (user_name : Bytes) (g : Group) (gs : List Group)
    (ns : List Bytes) (w : P.World)
    → Named P (g ∷ gs) ns
    → (P.bulk_execute groups_collection (bulk P user_name (g ∷ gs) ns) w).1 ≡ success
bulk_filled P Q user_name g gs [] w h = elim h [ ]
bulk_filled P Q user_name g gs (n ∷ ns) w h =
    Q.bulk_success groups_collection (taken_out P user_name g n) (bulk P user_name gs ns) w

module _ (P : Platform) (Q : IsQuiet P) (group : Group) (others : List Group) (ns : List Bytes)
    (w : P.World) (docs : Holds P Q (group ∷ others) w) (named : Named P (group ∷ others) ns)
    (distinct : Distinct (group ∷ others)) (user_name : Bytes) where
  abbrev gs : List Group
  gs = group ∷ others

  asked : P.World
  asked = (P.find_with_opts groups_collection [] w).0

  executed : P.World
  executed = (P.bulk_execute groups_collection (bulk P user_name gs ns) asked).0

  every_document :
      all_documents P (P.find_with_opts groups_collection [] w).1 ≡ map (group_document P) gs
  every_document =
      ap (all_documents P) (Q.find_answer groups_collection [] w)
      ∙ filter-everything (Q.documents groups_collection w)
      ∙ docs

  run : remove_user_from_all_groups P user_name w ≡ (executed, value tt)
  unfolding remove_user_from_all_groups executed asked
  run =
      ap
        (λ ds.
          onward (removals P user_name ds asked)
            (λ ops. call (P.bulk_execute groups_collection ops) >>= check))
        every_document
      ∙ ap (λ x. onward x (λ ops. call (P.bulk_execute groups_collection ops) >>= check))
          (removals-bulk P Q user_name gs ns asked named)
      ∙ ap (λ status. onward (executed, value status) check)
          (bulk_filled P Q user_name group others ns asked named)

  -- On a platform that keeps the laws of `IsQuiet`, whose database holds these groups, one at least, each with
  -- the signature that belongs to it, with distinct ids and with encrypted names that decrypt to these:
  -- remove_user_from_all_groups returns, and leaves the groups without the user, whose name is hashed
  -- with each group's name, all signed anew, and the users as they were.
  pub remove_user_from_all_groups-Holds :
      Leaves P Q
        (remove_user_from_all_groups P user_name w)
        tt
        (without_user P user_name (group ∷ others) ns)
        (Q.documents users_collection w)
  unfolding executed asked
  remove_user_from_all_groups-Holds =
      let ops = bulk P user_name gs ns in
      (
        executed,
        run,
        Q.documents-bulk groups_collection groups_collection ops asked
            ∙ ap (apply_all ops) (Q.documents-find groups_collection groups_collection [] w ∙ docs)
            ∙ apply_all-bulk P Q user_name gs ns named distinct,
        Q.documents-bulk groups_collection users_collection ops asked
            ∙ Q.documents-find groups_collection users_collection [] w,
      )

selects-by_name :
    (P : Platform) (h : Bytes) (r : User) → selects (by_name h) (stored_user P r) ≡ is_user h r
unfolding path_is seek eqb
selects-by_name P h r = ground arith

module _ (P : Platform) (Q : IsQuiet P) (us : List User) (group : Group) (others : List Group)
    (ns : List Bytes) (w : P.World) (user_docs : HoldsUsers P Q us w)
    (docs : Holds P Q (group ∷ others) w) (named : Named P (group ∷ others) ns)
    (distinct : Distinct (group ∷ others)) where
  -- On a platform that keeps the laws of `IsQuiet`, whose database holds these users and groups, one
  -- group at least, each with the signature that belongs to it, the groups with distinct ids and with encrypted names that
  -- decrypt to these: delete_user returns, and leaves the users without the first of the hashed name,
  -- and the groups without the user, whose name is hashed with each group's name, all signed anew.
  pub delete_user-Holds :
      (user_name : Bytes)
      → (v : P.World) × (delete_user P user_name w ≡ (v, value tt))
        × HoldsUsers P Q (remove_first (is_user (hash_name P user_name none)) us) v
        × Holds P Q (without_user P user_name (group ∷ others) ns) v
  unfolding delete_user
  delete_user-Holds user_name =
      let (v, ran, groups, users) =
        remove_user_from_all_groups-Holds P Q group others ns w docs named distinct user_name in
      let h = hash_name P user_name none in
      let c = by_name h in
      let d = P.delete_one users_collection c v in
      (
        d.0,
        ap (λ x. onward (onward x (λ u. call (P.delete_one users_collection c))) check) ran
            ∙ ap (λ status. onward (d.0, value status) check)
                (Q.delete_success users_collection c v),
        Q.documents-delete users_collection users_collection c v
            ∙ ap (remove_first (selects c)) (users ∙ user_docs)
            ∙ remove_first-map (stored_user P) (selects c) (is_user h) us (selects-by_name P h),
        Q.documents-delete users_collection groups_collection c v ∙ groups,
      )

module _ (P : Platform) (Q : IsQuiet P) (us : List User) (w : P.World)
    (user_docs : HoldsUsers P Q us w) (docs : Holds P Q [] w) where
  -- On a platform that keeps the laws of `IsQuiet`, whose database holds these users, each with the
  -- signature that belongs to it, and no group: delete_user throws the driver's error for a bulk
  -- operation without operations, and the users stay as they were, the one to delete with them.
  pub delete_user-no_groups :
      (user_name : Bytes)
      → (v : P.World) × (e : BsonError) × (delete_user P user_name w ≡ (v, thrown e))
        × (e.code ≡ invalid_argument)
        × HoldsUsers P Q us v
        × Holds P Q [] v
  unfolding delete_user remove_user_from_all_groups removals
  delete_user-no_groups user_name =
      let r = P.find_with_opts groups_collection [] w in
      let (e, code, status) = Q.bulk_empty groups_collection r.0 in
      let b = P.bulk_execute groups_collection [] r.0 in
      let no_documents : all_documents P r.1 ≡ [] =
        ap (all_documents P) (Q.find_answer groups_collection [] w)
        ∙ filter-everything (Q.documents groups_collection w)
        ∙ docs in
      let real : (e.code == 0) ≡ false = ground (arith, code) in
      (
        b.0,
        e,
        rw (no_documents, status, real) refl,
        code,
        Q.documents-bulk groups_collection users_collection [] r.0
            ∙ Q.documents-find groups_collection users_collection [] w
            ∙ user_docs,
        Q.documents-bulk groups_collection groups_collection [] r.0
            ∙ Q.documents-find groups_collection groups_collection [] w
            ∙ docs,
      )
