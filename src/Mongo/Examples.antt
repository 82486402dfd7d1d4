-- ===== src/Mongo/Examples.antt =====
-- The theorems on `MongoDatabase` with the platform that keeps its documents in memory: a user al with
-- a key of 32 bytes, and a group st with the user as its member.
use mongo_sgx_client.Base.{
  take, ap, sym, ◌∙◌, ◌≡◌, refl, true, false, Bytes, List, [], ◌∷◌, ◌++◌, none, some, codes, map,
  replicate,
}
use mongo_sgx_client.Mongo.Bson.{eqb}
use mongo_sgx_client.Mongo.Platform.{
  BsonError, bson_error, users_collection, groups_collection, value, thrown, ◌>>◌,
}
use mongo_sgx_client.Mongo.Hashing.{aes_key, hash_name}
use mongo_sgx_client.Mongo.Signature.{validate_group_signature}
use mongo_sgx_client.Mongo.Users.{create_user}
use mongo_sgx_client.Mongo.Groups.{add_user_to_group, remove_user_from_group, create_group}
use mongo_sgx_client.Mongo.Reading.{is_user_part_of_group, get_keys_of_group}
use mongo_sgx_client.Mongo.Server.Memory.{Memory, joined, memory_platform, memory_laws}
use mongo_sgx_client.Mongo.First.{remove_first}
use mongo_sgx_client.Mongo.Spec.{Member, Group, group_document, signed_document}
use mongo_sgx_client.Mongo.Distinct.{Elsewhere}
use mongo_sgx_client.Mongo.Quiet.{Holds}
use mongo_sgx_client.Mongo.Methods.{
  Leaves, without_member, with_member, remove_user_from_group-Holds,
}
use mongo_sgx_client.Mongo.Keys.{get_keys_of_group-Holds, get_keys_of_group-none}
use mongo_sgx_client.Mongo.Accounts.{is_user, User, stored_user, HoldsUsers, create_user-Holds}
use mongo_sgx_client.Mongo.Inserting.{member_of}
use mongo_sgx_client.Mongo.Creating.{create_group-Holds, add_user_to_group-Holds}
use mongo_sgx_client.Mongo.Lifecycle.{
  Returns, get_keys_of_group-create_group, is_user_part_of_group-add_user_to_group,
  is_user_part_of_group-remove_user_from_group,
}
use mongo_sgx_client.Mongo.Deleting.{delete_user}
use mongo_sgx_client.Mongo.Removals.{without_user}
use mongo_sgx_client.Mongo.Server.{invalid_argument}
use mongo_sgx_client.Mongo.Cleaning.{delete_user-no_groups, delete_user-Holds}
use mongo_sgx_client.Mongo.Directory.{
  Request, creates_user, creates_group, asks_part, asks_keys, deletes, serve_all, respond_all,
}
use mongo_sgx_client.Mongo.Directory.Relates.{StandsFor}
use mongo_sgx_client.Mongo.Directory.Refines.{serve_all-respond_all}
use mongo_sgx_client.Mongo.Weaknesses.{
  concat, IsStreaming, pair_group, validate_group_signature-boundary,
}

abbrev al : Bytes
al = codes "al"

abbrev st : Bytes
st = codes "st"

abbrev user_key : Bytes
user_key = replicate 32 7

abbrev empty : Memory
empty = record { users = []; groups = [] }

abbrev al_user : User
al_user = record { id = 0 ∷ []; name = hash_name memory_platform al none; key = 0 ∷ user_key }

abbrev al_member : Member
al_member = record { name = hash_name memory_platform al (some st); key = 0 ∷ user_key }

abbrev st_group : Group
st_group = record {
  id = 1 ∷ [];
  name = hash_name memory_platform st none;
  encname = 0 ∷ st;
  members = al_member ∷ [];
}

-- A database with the user, and one with the group as well.
abbrev user_world : Memory
user_world = record { users = map (stored_user memory_platform) (al_user ∷ []); groups = [] }

abbrev group_world : Memory
group_world = record {
  users = map (stored_user memory_platform) (al_user ∷ []);
  groups = map (group_document memory_platform) (st_group ∷ []);
}

get_keys_of_group-create_group_example :
    Returns
      ((create_user memory_platform al user_key
          >> create_group memory_platform st al
          >> get_keys_of_group memory_platform st)
        empty)
      (user_key ∷ [])
unfolding memory_laws
get_keys_of_group-create_group_example =
    get_keys_of_group-create_group memory_platform memory_laws [] [] empty refl refl st al user_key
      refl refl refl

is_user_part_of_group-add_user_to_group_example :
    Returns
      ((add_user_to_group memory_platform st al >> is_user_part_of_group memory_platform st al)
        group_world)
      true
unfolding memory_laws hash_name eqb
is_user_part_of_group-add_user_to_group_example =
    is_user_part_of_group-add_user_to_group memory_platform memory_laws (al_user ∷ [])
      (st_group ∷ []) group_world refl refl st al user_key al_user refl refl refl (refl, tt)

is_user_part_of_group-remove_user_from_group_example :
    Returns
      ((remove_user_from_group memory_platform st al >> is_user_part_of_group memory_platform st al)
        group_world)
      false
unfolding memory_laws eqb hash_name
is_user_part_of_group-remove_user_from_group_example =
    is_user_part_of_group-remove_user_from_group memory_platform memory_laws (al_user ∷ [])
      (st_group ∷ []) group_world refl refl st al user_key (refl, tt)

create_group-Holds_example :
    (v : Memory) × (g : Group) × (t : Bytes) × (create_group memory_platform st al user_world
      ≡ (v, value tt))
    × (g.name ≡ hash_name memory_platform st none)
    × (g.members ≡ member_of memory_platform st al t ∷ [])
    × (memory_platform.decrypt_aesgcm aes_key t ≡ some user_key)
    × (memory_platform.decrypt_aesgcm aes_key g.encname ≡ some st)
    × Elsewhere g.id []
    × Holds memory_platform memory_laws ([] ++ g ∷ []) v
    × HoldsUsers memory_platform memory_laws (al_user ∷ []) v
unfolding memory_laws hash_name eqb
create_group-Holds_example =
    create_group-Holds memory_platform memory_laws (al_user ∷ []) [] user_world refl refl st al
      user_key al_user refl refl refl

add_user_to_group-Holds_example :
    (v : Memory) × (t : Bytes) × (add_user_to_group memory_platform st al group_world
      ≡ (v, value tt))
    × (memory_platform.decrypt_aesgcm aes_key t ≡ some user_key)
    × Holds memory_platform memory_laws
        (with_member
          (hash_name memory_platform st none)
          (member_of memory_platform st al t)
          (st_group ∷ []))
        v
    × HoldsUsers memory_platform memory_laws (al_user ∷ []) v
unfolding memory_laws hash_name eqb
add_user_to_group-Holds_example =
    add_user_to_group-Holds memory_platform memory_laws (al_user ∷ []) (st_group ∷ []) group_world
      refl refl st al user_key al_user refl refl (refl, tt)

remove_user_from_group-Holds_example :
    Leaves memory_platform memory_laws
      (remove_user_from_group memory_platform st al group_world)
      tt
      (without_member
        (hash_name memory_platform st none)
        (hash_name memory_platform al (some st))
        (st_group ∷ []))
      group_world.users
unfolding memory_laws eqb hash_name
remove_user_from_group-Holds_example =
    remove_user_from_group-Holds memory_platform memory_laws (st_group ∷ []) group_world refl st al
      (refl, tt)

get_keys_of_group-Holds_example :
    Leaves memory_platform memory_laws
      (get_keys_of_group memory_platform st group_world)
      (user_key ∷ [])
      (st_group ∷ [])
      group_world.users
unfolding memory_laws hash_name eqb
get_keys_of_group-Holds_example =
    get_keys_of_group-Holds memory_platform memory_laws (st_group ∷ []) group_world refl st st_group
      (user_key ∷ []) refl (refl, refl, tt)

no_group_al :
    (v : Memory) × (get_keys_of_group memory_platform al group_world
      ≡ (v, thrown (bson_error "No matching group to validate" 487)))
    × Holds memory_platform memory_laws (st_group ∷ []) v
    × (memory_laws.documents users_collection v
        ≡ memory_laws.documents users_collection group_world)
unfolding memory_laws hash_name eqb
no_group_al =
    get_keys_of_group-none memory_platform memory_laws (st_group ∷ []) group_world refl al refl

create_user-Holds_example :
    (v : Memory) × (r : User) × (create_user memory_platform st user_key user_world ≡ (v, value tt))
    × (r.name ≡ hash_name memory_platform st none)
    × (memory_platform.decrypt_aesgcm aes_key r.key ≡ some user_key)
    × HoldsUsers memory_platform memory_laws (al_user ∷ r ∷ []) v
    × (memory_laws.documents groups_collection v
        ≡ memory_laws.documents groups_collection user_world)
unfolding memory_laws hash_name eqb
create_user-Holds_example =
    create_user-Holds memory_platform memory_laws (al_user ∷ []) user_world refl st user_key refl

-- The hash of the platform in memory takes its pieces in a row.
concat-joined : (us : List Bytes) → joined us ≡ concat us
concat-joined [] = refl
concat-joined (u ∷ us) = ap (λ t. u ++ t) (concat-joined us)

memory_platform-IsStreaming : IsStreaming memory_platform
memory_platform-IsStreaming k us vs e =
    ap (λ x. take 32 (x ++ replicate 32 0)) (concat-joined us ∙ e ∙ sym (concat-joined vs))

validate_group_signature-boundary_example :
    validate_group_signature memory_platform
      (signed_document (pair_group [] al [] al (1 ∷ 2 ∷ []) st [] []) [])
    ≡ validate_group_signature memory_platform
        (signed_document (pair_group [] al [] al (1 ∷ []) (2 ∷ st) [] []) [])
validate_group_signature-boundary_example =
    validate_group_signature-boundary memory_platform memory_platform-IsStreaming [] al [] al
      (1 ∷ []) (2 ∷ []) st [] [] []

delete_user-Holds_example :
    (v : Memory) × (delete_user memory_platform al group_world ≡ (v, value tt))
    × HoldsUsers memory_platform memory_laws
        (remove_first (is_user (hash_name memory_platform al none)) (al_user ∷ []))
        v
    × Holds memory_platform memory_laws
        (without_user memory_platform al (st_group ∷ []) (st ∷ []))
        v
unfolding memory_laws
delete_user-Holds_example =
    delete_user-Holds memory_platform memory_laws (al_user ∷ []) st_group [] (st ∷ []) group_world
      refl refl (refl, tt) (tt, tt) al

delete_user-no_groups_example :
    (v : Memory) × (e : BsonError) × (delete_user memory_platform al user_world ≡ (v, thrown e))
    × (e.code ≡ invalid_argument)
    × HoldsUsers memory_platform memory_laws (al_user ∷ []) v
    × Holds memory_platform memory_laws [] v
unfolding memory_laws
delete_user-no_groups_example =
    delete_user-no_groups memory_platform memory_laws (al_user ∷ []) user_world refl refl al

-- Five requests to an empty database.
abbrev requests : List Request
requests =
    creates_user al user_key
    ∷ creates_group st al
    ∷ asks_part st al
    ∷ deletes al
    ∷ asks_keys st
    ∷ []

serve_all-respond_all_example :
    let (v, answers) = serve_all memory_platform requests empty in
    let (e, expected) =
      respond_all (hash_name memory_platform) requests (record { accounts = []; teams = [] }) in
    (answers ≡ expected) × StandsFor memory_platform memory_laws v e
unfolding memory_laws
serve_all-respond_all_example =
    serve_all-respond_all memory_platform memory_laws requests empty
      (record { accounts = []; teams = [] }) (refl, (tt, (tt, (tt, (tt, tt)))))
      ([], [], refl, refl, tt, tt, (tt, λ h. tt), tt)
