-- ===== src/Mongo/Sample/Refines.antt =====
-- The sample on a platform that keeps the laws: it shows what a directory answers.
use mongo_sgx_client.Base.{refl, true, false, [], ◌∷◌, ◌++◌}
use mongo_sgx_client.Mongo.Platform.{Platform, ◌>>◌}
use mongo_sgx_client.Mongo.Hashing.{hash_name}
use mongo_sgx_client.Mongo.Users.{create_user}
use mongo_sgx_client.Mongo.Groups.{add_user_to_group, remove_user_from_group, create_group}
use mongo_sgx_client.Mongo.Deleting.{delete_user}
use mongo_sgx_client.Mongo.Server.{IsQuiet}
use mongo_sgx_client.Mongo.Directory.{creates_user, creates_group, adds, removes, deletes}
use mongo_sgx_client.Mongo.Sample.{
  memberships, exception, sample_key, try_catch, then_memberships, silent, create_groups, add_users,
  remove_users,
}
use mongo_sgx_client.Mongo.Sample.Teams
use mongo_sgx_client.Mongo.Sample.Teams.{
  user1, user2, group1, group2, TellsApart, nobody, one_user, two_users, one_team, two_teams,
  joined_teams, user2_left,
}
use mongo_sgx_client.Mongo.Sample.Shows.{
  Shows, Shows-bind, Shows-after, Shows-return, completed-Shows, refused-Shows, try_catch-Shows,
  then_memberships-Shows, silent-Shows,
}
use mongo_sgx_client.Mongo.Sample.Expected.{groups_shown, users_shown, removals_shown}

module _ (P : Platform) (Q : IsQuiet P) (T : TellsApart (hash_name P)) where
  two_users-Shows :
      Shows P Q
        (create_user P user1 sample_key >> create_user P user2 sample_key)
        (λ x. tt)
        (nobody (hash_name P))
        (two_users (hash_name P))
  two_users-Shows =
      let H = hash_name P in
      Shows-bind P Q (create_user P user1 sample_key) _ tt _ (nobody H) (one_user H) (two_users H)
        (completed-Shows P Q (creates_user user1 sample_key) (create_user P user1 sample_key)
          (nobody H) (one_user H) (λ w. refl) refl (Teams.first_user H T))
        (completed-Shows P Q (creates_user user2 sample_key) (create_user P user2 sample_key)
          (one_user H) (two_users H) (λ w. refl) refl (Teams.second_user H T))

  pub users_part :
      Shows P Q
        (then_memberships P
          (try_catch (create_user P user1 sample_key >> create_user P user2 sample_key)))
        (λ x. [] ++ memberships false false false false ∷ [])
        (nobody (hash_name P))
        (two_users (hash_name P))
  users_part =
      let H = hash_name P in
      (then_memberships-Shows P Q
        (try_catch (create_user P user1 sample_key >> create_user P user2 sample_key)) (λ x. [])
        (nobody H) (two_users H) false false false false
        (try_catch-Shows P Q (create_user P user1 sample_key >> create_user P user2 sample_key)
          (nobody H) (two_users H) two_users-Shows)
        (Teams.two_users-Parts H T))

  group1_part :
      Shows P Q
        (then_memberships P (silent P (create_group P group1 user1)))
        (λ x. [] ++ memberships true false false false ∷ [])
        (two_users (hash_name P))
        (one_team (hash_name P))
  group1_part =
      let H = hash_name P in
      (then_memberships-Shows P Q (silent P (create_group P group1 user1)) (λ x. []) (two_users H)
        (one_team H) true false false false
        (silent-Shows P Q (create_group P group1 user1) (two_users H) (one_team H) (
          completed-Shows P Q (creates_group group1 user1) (create_group P group1 user1)
            (two_users H) (one_team H) (λ w. refl) tt (Teams.first_group H T)))
        (Teams.one_team-Parts H T))

  again_part :
      Shows P Q
        (then_memberships P (try_catch (create_group P group1 user1)))
        (λ x. [] ++ memberships true false false false ∷ [])
        (one_team (hash_name P))
        (one_team (hash_name P))
  again_part =
      let H = hash_name P in
      (then_memberships-Shows P Q (try_catch (create_group P group1 user1)) (λ x. []) (one_team H)
        (one_team H) true false false false
        (try_catch-Shows P Q (create_group P group1 user1) (one_team H) (one_team H) (
          completed-Shows P Q (creates_group group1 user1) (create_group P group1 user1)
            (one_team H) (one_team H) (λ w. refl) tt (Teams.same_group H T)))
        (Teams.one_team-Parts H T))

  group2_part :
      Shows P Q
        (then_memberships P (silent P (create_group P group2 user2)))
        (λ x. [] ++ memberships true false false true ∷ [])
        (one_team (hash_name P))
        (two_teams (hash_name P))
  group2_part =
      let H = hash_name P in
      (then_memberships-Shows P Q (silent P (create_group P group2 user2)) (λ x. []) (one_team H)
        (two_teams H) true false false true
        (silent-Shows P Q (create_group P group2 user2) (one_team H) (two_teams H) (
          completed-Shows P Q (creates_group group2 user2) (create_group P group2 user2)
            (one_team H) (two_teams H) (λ w. refl) tt (Teams.second_group H T)))
        (Teams.two_teams-Parts H T))

  joining_part :
      Shows P Q
        (then_memberships P (silent P (add_user_to_group P group2 user1)))
        (λ x. [] ++ memberships true false true true ∷ [])
        (two_teams (hash_name P))
        (joined_teams (hash_name P))
  joining_part =
      let H = hash_name P in
      (then_memberships-Shows P Q (silent P (add_user_to_group P group2 user1)) (λ x. [])
        (two_teams H) (joined_teams H) true false true true
        (silent-Shows P Q (add_user_to_group P group2 user1) (two_teams H) (joined_teams H) (
          completed-Shows P Q (adds group2 user1) (add_user_to_group P group2 user1) (two_teams H)
            (joined_teams H) (λ w. refl) tt (Teams.joining H T)))
        (Teams.joined_teams-Parts H T))

  joined_part :
      Shows P Q
        (then_memberships P (silent P (add_user_to_group P group1 user1)))
        (λ x. [] ++ memberships true false true true ∷ [])
        (joined_teams (hash_name P))
        (joined_teams (hash_name P))
  joined_part =
      let H = hash_name P in
      (then_memberships-Shows P Q (silent P (add_user_to_group P group1 user1)) (λ x. [])
        (joined_teams H) (joined_teams H) true false true true
        (silent-Shows P Q (add_user_to_group P group1 user1) (joined_teams H) (joined_teams H) (
          completed-Shows P Q (adds group1 user1) (add_user_to_group P group1 user1)
            (joined_teams H) (joined_teams H) (λ w. refl) tt (Teams.joined_before H T)))
        (Teams.joined_teams-Parts H T))

  leaving_part :
      Shows P Q
        (then_memberships P (silent P (remove_user_from_group P group2 user1)))
        (λ x. [] ++ memberships true false false true ∷ [])
        (joined_teams (hash_name P))
        (two_teams (hash_name P))
  leaving_part =
      let H = hash_name P in
      (then_memberships-Shows P Q (silent P (remove_user_from_group P group2 user1)) (λ x. [])
        (joined_teams H) (two_teams H) true false false true
        (silent-Shows P Q (remove_user_from_group P group2 user1) (joined_teams H) (two_teams H) (
          completed-Shows P Q (removes group2 user1) (remove_user_from_group P group2 user1)
            (joined_teams H) (two_teams H) (λ w. refl) tt (Teams.leaving H T)))
        (Teams.two_teams-Parts H T))

  deletion_part :
      Shows P Q
        (then_memberships P (silent P (delete_user P user1)))
        (λ x. [] ++ memberships false false false true ∷ [])
        (joined_teams (hash_name P))
        (user2_left (hash_name P))
  deletion_part =
      let H = hash_name P in
      (then_memberships-Shows P Q (silent P (delete_user P user1)) (λ x. []) (joined_teams H)
        (user2_left H) false false false true
        (silent-Shows P Q (delete_user P user1) (joined_teams H) (user2_left H) (
          completed-Shows P Q (deletes user1) (delete_user P user1) (joined_teams H) (user2_left H)
            (λ w. refl) tt (Teams.deletion H T)))
        (Teams.user2_left-Parts H T))

  same_user_part :
      Shows P Q
        (then_memberships P (try_catch (create_user P user1 sample_key)))
        (λ x. exception x ∷ memberships true false true true ∷ [])
        (joined_teams (hash_name P))
        (joined_teams (hash_name P))
  same_user_part =
      let H = hash_name P in
      (then_memberships-Shows P Q (try_catch (create_user P user1 sample_key))
        (λ x. exception x ∷ []) (joined_teams H) (joined_teams H) true false true true
        (refused-Shows P Q (creates_user user1 sample_key) (create_user P user1 sample_key)
          (joined_teams H) (joined_teams H) (λ w. refl) refl (Teams.same_user H T))
        (Teams.joined_teams-Parts H T))

  pub create_groups-Shows :
      Shows P Q
        (create_groups P)
        (λ x. groups_shown)
        (two_users (hash_name P))
        (two_teams (hash_name P))
  unfolding create_groups
  create_groups-Shows =
      let H = hash_name P in
      Shows-bind P Q _ _ _ _ (two_users H) (one_team H) (two_teams H) group1_part (
        Shows-bind P Q _ _ _ _ (one_team H) (one_team H) (two_teams H) again_part (
          Shows-bind P Q _ _ _ _ (one_team H) (two_teams H) (two_teams H) group2_part
            (Shows-return P Q groups_shown (two_teams H))))

  pub add_users-Shows :
      Shows P Q (add_users P) users_shown (two_teams (hash_name P)) (joined_teams (hash_name P))
  unfolding add_users
  add_users-Shows =
      let H = hash_name P in
      Shows-bind P Q _ _ _ _ (two_teams H) (joined_teams H) (joined_teams H) joining_part (
        Shows-bind P Q _ _ _ _ (joined_teams H) (joined_teams H) (joined_teams H) joined_part (
          Shows-after P Q _ _ _ users_shown (joined_teams H) (joined_teams H) (joined_teams H)
            same_user_part (λ x. Shows-return P Q (users_shown x) (joined_teams H))))

  pub remove_users-Shows :
      Shows P Q
        (remove_users P)
        (λ x. removals_shown)
        (joined_teams (hash_name P))
        (user2_left (hash_name P))
  unfolding remove_users
  remove_users-Shows =
      let H = hash_name P in
      Shows-bind P Q _ _ _ _ (joined_teams H) (two_teams H) (user2_left H) leaving_part (
        Shows-bind P Q _ _ _ _ (two_teams H) (joined_teams H) (user2_left H) joining_part (
          Shows-bind P Q _ _ _ _ (joined_teams H) (user2_left H) (user2_left H) deletion_part
            (Shows-return P Q removals_shown (user2_left H))))
