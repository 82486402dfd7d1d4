-- ===== src/Mongo/Admin.antt =====
-- The methods of `MongoDatabase` that open the database and look after it as a whole.
use mongo_sgx_client.Base.{Bool, true, false, ◌&&◌, Bytes, List, [], ◌∷◌, codes}
use mongo_sgx_client.Mongo.Platform.{
  Platform, users_collection, groups_collection, Index, create_indexes, ping_command, Status,
  success, failure, Action, ◌>>=◌, ◌>>◌, return, call, check,
}

-- `retval` of a call with a status.
abbrev pub succeeded : Status → Bool
succeeded success = true
succeeded (failure e) = false

module _ (P : Platform) where
  -- The constructor.
  unfoldable pub mongo_database : Bool → P.World → P.World
  mongo_database true w = P.mongoc_init w
  mongo_database false w = P.mongoc_log_trace_disable (P.mongoc_init w)

  -- The destructor, `~MongoDatabase`.
  unfoldable pub mongo_database_end : P.World → P.World
  mongo_database_end w = P.mongoc_cleanup (
      P.client_destroy
        (P.collection_destroy groups_collection (P.collection_destroy users_collection w)))

  -- False for a URI that does not parse, and if there is no client.
  unfoldable pub init : Bytes → Action P.World Bool
  init connection_url = call (P.uri_new_with_error connection_url) >>= λ uri. elim uri [
    | false ↦ return false
    | true ↦ call (P.client_new_from_uri connection_url)
  ]

  abbrev pub users_indexes : List Index
  users_indexes =
      record { keys = codes "name" ∷ []; index_name = codes "user_name_unique"; unique = true } ∷ []

  abbrev pub groups_indexes : List Index
  groups_indexes =
      record { keys = codes "name" ∷ []; index_name = codes "group_name_unique"; unique = true }
      ∷ record {
        keys = codes "name" ∷ codes "users.name" ∷ [];
        index_name = codes "groups_users";
        unique = false;
      }
      ∷ []

  unfoldable pub init_indexes : Action P.World Bool
  init_indexes =
      call (P.command_simple (create_indexes users_collection users_indexes)) >>= λ status1.
      check status1
      >> call (P.command_simple (create_indexes groups_collection groups_indexes))
      >>= λ status2. check status2 >> return (succeeded status1 && succeeded status2)

  unfoldable pub ping : Action P.World Bool
  ping =
      call (P.command_simple ping_command) >>= λ status. check status >> return (succeeded status)

  unfoldable pub delete_all_data : Action P.World (Unit {0})
  delete_all_data =
      call (P.delete_many users_collection [])
      >>= check
      >> call (P.delete_many groups_collection [])
      >>= check
