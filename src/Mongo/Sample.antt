-- ===== src/Mongo/Sample.antt =====
-- The demonstration of trusted/mongoclient.cpp: the methods of `MongoDatabase` one after the other, with
-- what it shows of their results.
pub mod Teams
pub mod Shows
pub mod Start
pub mod Expected
pub mod Refines
pub mod Whole
use mongo_sgx_client.Base.{Bool, false, Bytes, List, [], ◌∷◌, ◌++◌, codes, replicate}
use mongo_sgx_client.Base.Integers.{ℤ, pos}
use mongo_sgx_client.Mongo.Platform.{
  Platform, BsonError, value, thrown, undefined, Action, ◌>>=◌, ◌>>◌, return,
}
use mongo_sgx_client.Mongo.Users.{create_user}
use mongo_sgx_client.Mongo.Groups.{add_user_to_group, remove_user_from_group, create_group}
use mongo_sgx_client.Mongo.Reading.{is_user_part_of_group, get_keys_of_group}
use mongo_sgx_client.Mongo.Deleting.{delete_user}
use mongo_sgx_client.Mongo.Admin.{
  mongo_database, mongo_database_end, init, delete_all_data, init_indexes,
}

-- What is printed, but for the lines that say what comes next.
pub data Shown : Type 0 where
  memberships : Bool → Bool → Bool → Bool → Shown
  exception : BsonError → Shown
  all_keys : List Bytes → Shown

-- `try { ... } catch (bson_error_t &error) { ... }`.
abbrev pub try_catch : {W : Type 0} → Action W (Unit {0}) → Action W (List Shown)
try_catch body w =
    let (v, r) = body w in
    elim r [
      | value a ↦ (v, value [])
      | thrown e ↦ (v, value (exception e ∷ []))
      | undefined ↦ (v, undefined)
    ]

-- "hunter2" in an array of KEY_SIZE bytes.
abbrev pub sample_key : Bytes
sample_key = codes "hunter2" ++ replicate 25 0

abbrev pub mongo_url : Bytes
mongo_url =
    codes
      "mongodb://sgx-3.maas:27017/?ssl=true&sslAllowInvalidCertificates=true&sslAllowInvalidHostnames=true"

module _ (P : Platform) where
  unfoldable pub print_memberships : Action P.World Shown
  print_memberships = is_user_part_of_group P (codes "group1") (codes "user1") >>= λ a.
      is_user_part_of_group P (codes "group1") (codes "user2") >>= λ b.
      is_user_part_of_group P (codes "group2") (codes "user1") >>= λ c.
      is_user_part_of_group P (codes "group2") (codes "user2") >>= λ d. return (memberships a b c d)

  -- A part of the sample with what it shows, and the memberships behind it.
  abbrev pub then_memberships : Action P.World (List Shown) → Action P.World (List Shown)
  then_memberships part = part >>= λ shown. print_memberships >>= λ m. return (shown ++ m ∷ [])

  abbrev pub silent : Action P.World (Unit {0}) → Action P.World (List Shown)
  silent body = body >>= λ _. return []

  abbrev pub silently : (P.World → P.World) → Action P.World (Unit {0})
  silently f w = (f w, value tt)

  -- From the set-up to the first memberships.
  unfoldable pub create_users : Action P.World (List Shown)
  create_users =
      silently (mongo_database P false)
      >> init P mongo_url
      >> delete_all_data P
      >> init_indexes P
      >> then_memberships (
          try_catch
            (create_user P (codes "user1") sample_key >> create_user P (codes "user2") sample_key))

  unfoldable pub create_groups : Action P.World (List Shown)
  create_groups =
      then_memberships (silent (create_group P (codes "group1") (codes "user1"))) >>= λ s1.
      then_memberships (try_catch (create_group P (codes "group1") (codes "user1"))) >>= λ s2.
      then_memberships (silent (create_group P (codes "group2") (codes "user2"))) >>= λ s3.
      return (s1 ++ s2 ++ s3)

  unfoldable pub add_users : Action P.World (List Shown)
  add_users =
      then_memberships (silent (add_user_to_group P (codes "group2") (codes "user1"))) >>= λ s1.
      then_memberships (silent (add_user_to_group P (codes "group1") (codes "user1"))) >>= λ s2.
      then_memberships (try_catch (create_user P (codes "user1") sample_key)) >>= λ s3.
      return (s1 ++ s2 ++ s3)

  unfoldable pub remove_users : Action P.World (List Shown)
  remove_users =
      then_memberships (silent (remove_user_from_group P (codes "group2") (codes "user1")))
      >>= λ s1.
          then_memberships (silent (add_user_to_group P (codes "group2") (codes "user1"))) >>= λ s2.
          then_memberships (silent (delete_user P (codes "user1"))) >>= λ s3.
          return (s1 ++ s2 ++ s3)

  unfoldable pub ecall_mongoclient_sample : Action P.World (ℤ × List Shown)
  ecall_mongoclient_sample = create_users >>= λ s1. create_groups >>= λ s2. add_users >>= λ s3.
      get_keys_of_group P (codes "group1") >>= λ keys. remove_users >>= λ s4.
      silently (mongo_database_end P) >> return (pos 0, s1 ++ s2 ++ s3 ++ all_keys keys ∷ s4)
