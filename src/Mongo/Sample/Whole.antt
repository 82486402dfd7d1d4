-- ===== src/Mongo/Sample/Whole.antt =====
-- The sample from its beginning to its end.
use mongo_sgx_client.Base.{◌≡◌, refl, ◌∙◌, ap, Bool, false, List, [], ◌∷◌, ◌++◌}
use mongo_sgx_client.Base.Integers.{ℤ, pos}
use mongo_sgx_client.Mongo.Platform.{
  Platform, BsonError, value, Action, onward, ◌>>=◌, ◌>>◌, return,
}
use mongo_sgx_client.Mongo.Hashing.{hash_name}
use mongo_sgx_client.Mongo.Users.{create_user}
use mongo_sgx_client.Mongo.Reading.{get_keys_of_group}
use mongo_sgx_client.Mongo.Admin.{mongo_database_end}
use mongo_sgx_client.Mongo.Server.{IsQuiet}
use mongo_sgx_client.Mongo.Directory.{Directory}
use mongo_sgx_client.Mongo.Directory.Relates.{StandsFor}
use mongo_sgx_client.Mongo.Sample.{
  Shown, memberships, all_keys, sample_key, try_catch, silently, then_memberships, create_users,
  create_groups, add_users, remove_users, ecall_mongoclient_sample,
}
use mongo_sgx_client.Mongo.Sample.Teams
use mongo_sgx_client.Mongo.Sample.Teams.{
  user1, user2, group1, group2, TellsApart, nobody, one_user, two_users, one_team, two_teams,
  joined_teams, user2_left,
}
use mongo_sgx_client.Mongo.Sample.Shows.{Shows, keys-Shows}
use mongo_sgx_client.Mongo.Sample.Start.{StartsOver, start-StandsFor}
use mongo_sgx_client.Mongo.Sample.Expected.{all_shown}
use mongo_sgx_client.Mongo.Sample.Refines.{
  users_part, create_groups-Shows, add_users-Shows, remove_users-Shows,
}

module _ (P : Platform) (Q : IsQuiet P) (S : StartsOver P Q) (T : TellsApart (hash_name P)) where
  create_users-StandsFor :
      (w : P.World)
      → (v : P.World) × (create_users P w ≡ (v, value (memberships false false false false ∷ [])))
        × StandsFor P Q v (two_users (hash_name P))
  unfolding create_users
  create_users-StandsFor w =
      let (w1, b, run, stands) = start-StandsFor P Q S w in
      let (w2, x, run', stands') = users_part P Q T w1 stands in
      let rest : Bool → Action P.World (List Shown) = λ x.
        then_memberships P
          (try_catch (create_user P user1 sample_key >> create_user P user2 sample_key)) in
      (w2, ap (λ r. onward r rest) run ∙ run', stands')

  -- The sample behind its first memberships.
  Ends {ℓ} : {A : Type ℓ} → Action P.World A → (BsonError → A) → Directory → Type ℓ
  Ends act f d =
      (w : P.World)
      → StandsFor P Q w d
      → (v : P.World) × (x : BsonError) × (act w ≡ (v, value (f x)))

  Ends-bind {ℓ κ} :
      {A : Type ℓ} {B : Type κ} (m : Action P.World A) (k : A → Action P.World B) (a : A)
      (f : BsonError → B) (d e : Directory)
      → Shows P Q m (λ x. a) d e
      → Ends (k a) f e
      → Ends (m >>= k) f d
  unfolding Ends
  Ends-bind m k a f d e h l w s =
      let (v, x, run, s1) = h w s in
      let (u, y, run1) = l v s1 in (u, y, ap (λ r. onward r k) run ∙ run1)

  Ends-after {ℓ κ} :
      {A : Type ℓ} {B : Type κ} (m : Action P.World A) (k : A → Action P.World B)
      (f : BsonError → A) (g : BsonError → B) (d e : Directory)
      → Shows P Q m f d e
      → ((x : BsonError) → Ends (k (f x)) (λ y. g x) e)
      → Ends (m >>= k) g d
  unfolding Ends
  Ends-after m k f g d e h l w s =
      let (v, x, run, s1) = h w s in
      let (u, y, run1) = l x v s1 in (u, x, ap (λ r. onward r k) run ∙ run1)

  Ends-silently :
      {A : Type 0} (f : P.World → P.World) (a : A) (d : Directory)
      → Ends (silently P f >> return a) (λ x. a) d
  unfolding Ends
  Ends-silently f a d w s = (f w, record { code = 0; message = [] }, refl)

  rest_of_sample : List Shown → Action P.World (ℤ × List Shown)
  rest_of_sample s1 = create_groups P >>= λ s2. add_users P >>= λ s3.
      get_keys_of_group P group1 >>= λ keys. remove_users P >>= λ s4.
      silently P (mongo_database_end P) >> return (pos 0, s1 ++ s2 ++ s3 ++ all_keys keys ∷ s4)

  rest_of_sample-Ends :
      Ends
        (rest_of_sample (memberships false false false false ∷ []))
        (λ x. (pos 0, all_shown x))
        (two_users (hash_name P))
  unfolding rest_of_sample
  rest_of_sample-Ends =
      let H = hash_name P in
      Ends-bind _ _ _ _ (two_users H) (two_teams H) (create_groups-Shows P Q T) (
        Ends-after _ _ _ (λ x. (pos 0, all_shown x)) (two_teams H) (joined_teams H)
          (add_users-Shows P Q T)
          (λ x.
            Ends-bind _ _ _ _ (joined_teams H) (joined_teams H)
              (keys-Shows P Q group1 (joined_teams H) (sample_key ∷ []) (Teams.keys H T))
              (Ends-bind _ _ _ _ (joined_teams H) (user2_left H) (remove_users-Shows P Q T)
                (Ends-silently (mongo_database_end P) (pos 0, all_shown x) (user2_left H)))))

-- On a platform that keeps the laws of `IsQuiet`, where the client can be opened, deleting everything and
-- making an index succeed, and whose hash tells the names of the sample apart: the sample ends with 0,
-- whatever the database held before, and shows, in this order, who is in which group behind each step,
-- one exception, for the user who is created again, and the one key of group1.
pub ecall_mongoclient_sample-all_shown :
    (P : Platform) (Q : IsQuiet P)
    → StartsOver P Q
    → TellsApart (hash_name P)
    → (w : P.World)
    → (v : P.World) × (x : BsonError) × (ecall_mongoclient_sample P w
        ≡ (v, value (pos 0, all_shown x)))
unfolding ecall_mongoclient_sample Ends rest_of_sample
ecall_mongoclient_sample-all_shown P Q S T w =
    let (w1, run, s1) = create_users-StandsFor P Q S T w in
    let (v, x, run') = rest_of_sample-Ends P Q S T w1 s1 in
    (v, x, ap (λ r. onward r (rest_of_sample P Q S T)) run ∙ run')
