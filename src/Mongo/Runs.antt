-- ===== src/Mongo/Runs.antt =====
-- The sample of trusted/mongoclient.cpp and get_keys_of_group, run.
use mongo_sgx_client.Base.{
  Bytes, none, some, codes, replicate, ◌≡◌, refl, true, false, List, [], ◌∷◌,
}
use mongo_sgx_client.Base.Integers.{pos}
use mongo_sgx_client.Mongo.Platform.{BsonError, value, users_collection}
use mongo_sgx_client.Mongo.Bson.{Document, eqb, seek, find_binary}
use mongo_sgx_client.Mongo.Hashing.{
  encrypt_data, decrypt_data, compute_user_signature, compute_hmac_2, hash_name,
}
use mongo_sgx_client.Mongo.Signature.{
  compute_group_signature, document_updates, field_updates, entries_updates, entry_updates,
  validate_group_signature,
}
use mongo_sgx_client.Mongo.Users.{
  by_name, create_user, reencrypt_user_key, reencrypt_on, reencrypt_document, reencrypt_checked,
  first_document, error_behind, user_document,
}
use mongo_sgx_client.Mongo.Rounds.{attempt, round, round_on, update_found}
use mongo_sgx_client.Mongo.Groups.{
  create_group, inserted, add_user_with_key, add_user_to_group, remove_user_from_group,
}
use mongo_sgx_client.Mongo.Reading.{
  is_user_part_of_group, part_of, get_keys_of_group, keys_on, document_keys, entry_keys, entry_key,
}
use mongo_sgx_client.Mongo.Deleting.{delete_user, remove_user_from_all_groups, removals, removal}
use mongo_sgx_client.Mongo.Admin.{
  mongo_database, mongo_database_end, init, delete_all_data, init_indexes,
}
use mongo_sgx_client.Mongo.Server.{path_is, has_name, change_field, asks, id_of}
use mongo_sgx_client.Mongo.Server.Memory.{Memory, memory_platform, memory_laws, stored-replace}
use mongo_sgx_client.Mongo.Spec.{group_document}
use mongo_sgx_client.Mongo.Authentic.{Users}
use mongo_sgx_client.Mongo.Vouched.{VouchesFor, Encrypts, reencrypt_user_key-VouchesFor}
use mongo_sgx_client.Mongo.Sample.Teams.{TellsApart}
use mongo_sgx_client.Mongo.Sample.Start.{StartsOver}
use mongo_sgx_client.Mongo.Sample.Expected.{all_shown}
use mongo_sgx_client.Mongo.Sample.Whole.{ecall_mongoclient_sample-all_shown}
use mongo_sgx_client.Mongo.Sample.{
  Shown, memberships, exception, all_keys, sample_key, ecall_mongoclient_sample, create_users,
  create_groups, add_users, remove_users, print_memberships,
}

-- The sample against a database in memory: it ends with 0, and shows who is in which group and the keys
-- of group1.
abbrev shown : List Shown
shown =
    memberships false false false false
    ∷ memberships true false false false
    ∷ memberships true false false false
    ∷ memberships true false false true
    ∷ memberships true false true true
    ∷ memberships true false true true
    ∷ exception (record { code = 11000; message = [] })
    ∷ memberships true false true true
    ∷ all_keys (sample_key ∷ [])
    ∷ memberships true false false true
    ∷ memberships true false true true
    ∷ memberships false false false true
    ∷ []

sample_shown :
    (ecall_mongoclient_sample memory_platform (record { users = []; groups = [] })).1
    ≡ value (pos 0, shown)
unfolding ecall_mongoclient_sample create_users create_groups add_users remove_users
    print_memberships mongo_database mongo_database_end init delete_all_data init_indexes
    create_user encrypt_data compute_user_signature compute_hmac_2 hash_name eqb seek find_binary
    path_is has_name change_field asks create_group reencrypt_user_key reencrypt_on
    reencrypt_document reencrypt_checked decrypt_data first_document compute_group_signature
    document_updates field_updates entries_updates entry_updates inserted add_user_with_key attempt
    round round_on update_found validate_group_signature add_user_to_group remove_user_from_group
    is_user_part_of_group part_of error_behind get_keys_of_group keys_on document_keys entry_keys
    entry_key delete_user remove_user_from_all_groups removals removal id_of
sample_shown = refl

-- A database in memory with the group g, whose one member has a key of 32 bytes.
abbrev g_world : Memory
g_world = record {
  users = [];
  groups =
      group_document memory_platform (record {
        id = 1 ∷ [];
        name = hash_name memory_platform (codes "g") none;
        encname = 0 ∷ codes "g";
        members = record { name = codes "u"; key = 0 ∷ replicate 32 7 } ∷ [];
      })
      ∷ [];
}

-- A database in memory with the user u.
abbrev u_name : Bytes
u_name = hash_name memory_platform (codes "u") none

abbrev u_document : Document
u_document =
    user_document u_name (0 ∷ 7 ∷ []) (compute_user_signature memory_platform u_name (0 ∷ 7 ∷ []))

abbrev u_world : Memory
u_world = record { users = u_document ∷ []; groups = [] }

u_key : reencrypt_user_key memory_platform (codes "u") u_world ≡ (u_world, value (0 ∷ 7 ∷ []))
unfolding hash_name eqb seek find_binary path_is first_document compute_user_signature
    compute_hmac_2 encrypt_data decrypt_data reencrypt_user_key reencrypt_on reencrypt_document
    reencrypt_checked
u_key = refl

reencrypt_user_key-VouchesFor_example :
    (d : Document) × (k : Bytes) × (first_document
        (memory_platform.find_with_opts users_collection
          (by_name (hash_name memory_platform (codes "u") none))
          u_world).1
      ≡ some d)
    × VouchesFor memory_platform d k
    × Encrypts memory_platform k u_world (0 ∷ 7 ∷ [])
reencrypt_user_key-VouchesFor_example =
    reencrypt_user_key-VouchesFor memory_platform (codes "u") u_world u_world (0 ∷ 7 ∷ []) u_key

abbrev memory-StartsOver : StartsOver memory_platform memory_laws
unfolding memory_laws
memory-StartsOver = record {
  parses = λ uri w. refl;
  connects = λ uri w. refl;
  delete_success = λ c w. refl;
  documents-delete = λ c d w. stored-replace c d [] w;
  command_success = λ c w. refl;
  documents-command = λ c d w. refl;
}

abbrev names : TellsApart (hash_name memory_platform)
unfolding hash_name eqb
names = record { users = refl; groups = refl; in_group1 = refl; in_group2 = refl }

-- A database with a group from before.
ecall_mongoclient_sample-all_shown_example :
    (v : Memory) × (x : BsonError) × (ecall_mongoclient_sample memory_platform g_world
      ≡ (v, value (pos 0, all_shown x)))
ecall_mongoclient_sample-all_shown_example =
    ecall_mongoclient_sample-all_shown memory_platform memory_laws memory-StartsOver names g_world
