-- ===== src/Mongo/Sample/Start.antt =====
-- What the sample does before it creates users.
use mongo_sgx_client.Base.{◌≡◌, ◌∙◌, ap, Bool, true, false, Bytes, [], arith, if◌then◌else◌}
use mongo_sgx_client.Mongo.Platform.{
  Platform, Collection, users_collection, groups_collection, Command, create_indexes, success,
  value, Action, onward, ◌>>◌,
}
use mongo_sgx_client.Mongo.Server.{IsQuiet, same}
use mongo_sgx_client.Mongo.Hashing.{hash_name}
use mongo_sgx_client.Mongo.Admin.{
  mongo_database, init, delete_all_data, init_indexes, users_indexes, groups_indexes,
}
use mongo_sgx_client.Mongo.Directory.Relates.{StandsFor}
use mongo_sgx_client.Mongo.Sample.{silently, mongo_url}
use mongo_sgx_client.Mongo.Sample.Teams.{nobody}

-- The URI parses and there is a client, an empty selector deletes everything, and the commands that make an index succeed.
pub record StartsOver (P : Platform) (Q : IsQuiet P) : Type 0 where
  pub parses : (uri : Bytes) (w : P.World) → (P.uri_new_with_error uri w).1 ≡ true
  pub connects : (uri : Bytes) (w : P.World) → (P.client_new_from_uri uri w).1 ≡ true
  pub delete_success : (c : Collection) (w : P.World) → (P.delete_many c [] w).1 ≡ success
  pub documents-delete :
      (c d : Collection) (w : P.World)
      → Q.documents d (P.delete_many c [] w).0 ≡ (if same c d then [] else Q.documents d w)
  pub command_success : (c : Command) (w : P.World) → (P.command_simple c w).1 ≡ success
  pub documents-command :
      (c : Command) (d : Collection) (w : P.World)
      → Q.documents d (P.command_simple c w).0 ≡ Q.documents d w

module _ (P : Platform) (Q : IsQuiet P) (S : StartsOver P Q) where
  init-opens : (url : Bytes) (w : P.World) → (v : P.World) × (init P url w ≡ (v, value true))
  unfolding init
  init-opens url w =
      let w1 = (P.uri_new_with_error url w).0 in
      ((P.client_new_from_uri url w1).0, ground (arith, S.parses url w, S.connects url w1))

  delete_all_data-empties :
      (w : P.World)
      → (v : P.World) × (delete_all_data P w ≡ (v, value tt))
        × (Q.documents users_collection v ≡ [])
        × (Q.documents groups_collection v ≡ [])
  unfolding delete_all_data
  delete_all_data-empties w =
      let w1 = (P.delete_many users_collection [] w).0 in
      let w2 = (P.delete_many groups_collection [] w1).0 in
      (
        w2,
        ground (arith, S.delete_success users_collection w, S.delete_success groups_collection w1),
        S.documents-delete groups_collection users_collection w1
            ∙ S.documents-delete users_collection users_collection w,
        S.documents-delete groups_collection groups_collection w1,
      )

  init_indexes-keeps :
      (w : P.World)
      → (v : P.World) × (b : Bool) × (init_indexes P w ≡ (v, value b))
        × ((c : Collection) → Q.documents c v ≡ Q.documents c w)
  unfolding init_indexes
  init_indexes-keeps w =
      let c1 = create_indexes users_collection (users_indexes P) in
      let c2 = create_indexes groups_collection (groups_indexes P) in
      let w1 = (P.command_simple c1 w).0 in
      (
        (P.command_simple c2 w1).0,
        true,
        ground (arith, S.command_success c1 w, S.command_success c2 w1),
        λ c. S.documents-command c2 c w1 ∙ S.documents-command c1 c w,
      )

  abbrev pub start : Action P.World Bool
  start =
      silently P (mongo_database P false) >> init P mongo_url >> delete_all_data P >> init_indexes P

  -- Whatever the database held, it stands for nobody then.
  pub start-StandsFor :
      (w : P.World)
      → (v : P.World) × (b : Bool) × (start w ≡ (v, value b))
        × StandsFor P Q v (nobody (hash_name P))
  start-StandsFor w =
      let w0 = mongo_database P false w in
      let (w1, run1) = init-opens mongo_url w0 in
      let (w2, run2, users, groups) = delete_all_data-empties w1 in
      let (w3, b3, run3, kept) = init_indexes-keeps w2 in
      (
        w3,
        b3,
        ap (λ r. onward (onward r (λ x. delete_all_data P)) (λ x. init_indexes P)) run1
            ∙ ap (λ r. onward r (λ x. init_indexes P)) run2
            ∙ run3,
        (
          [],
          [],
          kept users_collection ∙ users,
          kept groups_collection ∙ groups,
          tt,
          tt,
          (tt, λ h. tt),
          tt,
        ),
      )
