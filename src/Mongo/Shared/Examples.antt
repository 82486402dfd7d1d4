-- ===== src/Mongo/Shared/Examples.antt =====
-- The methods on a collection that another client changes in between.
use mongo_sgx_client.Base.{◌≡◌, refl, sym, ◌∙◌, ap, true, false, Bytes, List, [], ◌∷◌, codes}
use mongo_sgx_client.Mongo.Bson.{eqb, seek, find_binary}
use mongo_sgx_client.Mongo.Platform.{value, bson_error}
use mongo_sgx_client.Mongo.Hashing.{hash_name}
use mongo_sgx_client.Mongo.Signature.{
  compute_group_signature, document_updates, field_updates, entries_updates, entry_updates,
  validate_group_signature,
}
use mongo_sgx_client.Mongo.Users.{first_document}
use mongo_sgx_client.Mongo.Rounds.{attempt, round, round_on, update_found}
use mongo_sgx_client.Mongo.First.{any}
use mongo_sgx_client.Mongo.Groups.{add_user_with_key, remove_user_from_group}
use mongo_sgx_client.Mongo.Server.Groups.{named_without, named_with}
use mongo_sgx_client.Mongo.Server.{path_is, has_name, change_field}
use mongo_sgx_client.Mongo.Spec.{Group, add_member, remove_member}
use mongo_sgx_client.Mongo.Shared.{Contains, Settles, Settles-any}
use mongo_sgx_client.Mongo.Shared.Methods.{
  group_hash, user_hash, lacks_user, has_user, new_member, add_user_with_key-Settles,
  remove_user_from_group-Settles,
}
use mongo_sgx_client.Mongo.Shared.Memory.{
  Turns, untouched, theirs, ours, both, member, name_hash, group_at, document_at, shared_platform,
  InUse, shared_laws, shared-TellsFields,
}

abbrev g_name : Bytes
g_name = codes "g"

abbrev u_name : Bytes
u_name = codes "u"

adding_stays :
    (g : Group)
    → InUse g
    → lacks_user shared_platform g_name u_name g ≡ true
    → InUse (add_member (new_member shared_platform g_name u_name u_name) g)
unfolding hash_name eqb
adding_stays g (untouched, e) h = (ours, ap (add_member (member u_name)) e)
adding_stays g (theirs, e) h = (both, ap (add_member (member u_name)) e)
adding_stays g (ours, e) h = absurd (cc (sym (ap (lacks_user shared_platform g_name u_name) e) ∙ h))
adding_stays g (both, e) h = absurd (cc (sym (ap (lacks_user shared_platform g_name u_name) e) ∙ h))

removing_stays :
    (g : Group)
    → InUse g
    → has_user shared_platform g_name u_name g ≡ true
    → InUse (remove_member (user_hash shared_platform g_name u_name) g)
unfolding hash_name eqb
removing_stays g (untouched, e) h =
    absurd (cc (sym (ap (has_user shared_platform g_name u_name) e) ∙ h))
removing_stays g (theirs, e) h =
    absurd (cc (sym (ap (has_user shared_platform g_name u_name) e) ∙ h))
removing_stays g (ours, e) h = (untouched, ap (remove_member (name_hash u_name)) e)
removing_stays g (both, e) h = (theirs, ap (remove_member (name_hash u_name)) e)

-- The other client comes between the first search and the first update.
abbrev two_clients : Turns
two_clients = record { groups = document_at untouched ∷ []; turns = false ∷ true ∷ [] }

add_user_with_key-Settles_example :
    Settles shared_platform InUse shared_laws
      (named_without
        (group_hash shared_platform g_name u_name)
        (user_hash shared_platform g_name u_name))
      (lacks_user shared_platform g_name u_name)
      (add_member (new_member shared_platform g_name u_name u_name))
      (bson_error "Unable to add user to group after multiple attempts" 247)
      10
      two_clients
      (add_user_with_key shared_platform g_name u_name u_name two_clients)
add_user_with_key-Settles_example =
    add_user_with_key-Settles shared_platform InUse shared_laws shared-TellsFields g_name u_name
      u_name adding_stays (group_at untouched ∷ []) two_clients (refl, ((untouched, refl), tt))

-- The first update misses, the second comes behind the other client's, the third search finds nothing.
second_attempt :
    add_user_with_key shared_platform g_name u_name u_name two_clients
    ≡ (record { groups = document_at both ∷ []; turns = [] }, value tt)
unfolding add_user_with_key attempt round round_on update_found hash_name eqb seek find_binary
    path_is has_name change_field first_document compute_group_signature document_updates
    field_updates entries_updates entry_updates validate_group_signature
second_attempt = refl

remove_user_from_group-Settles_example :
    Settles shared_platform InUse shared_laws
      (named_with
        (group_hash shared_platform g_name u_name)
        (user_hash shared_platform g_name u_name))
      (has_user shared_platform g_name u_name)
      (remove_member (user_hash shared_platform g_name u_name))
      (bson_error "Unable to remove user from group after multiple attempts" 322)
      10
      (record { groups = document_at ours ∷ []; turns = [] })
      (remove_user_from_group shared_platform g_name u_name
        (record { groups = document_at ours ∷ []; turns = [] }))
remove_user_from_group-Settles_example =
    remove_user_from_group-Settles shared_platform InUse shared_laws shared-TellsFields g_name
      u_name removing_stays (group_at ours ∷ [])
      (record { groups = document_at ours ∷ []; turns = [] }) (refl, ((ours, refl), tt))

-- What the ten rounds come to: the groups that are left when the first method returns.
added_to_all :
    (gs : List Group) × Contains shared_platform InUse shared_laws gs
      (record { groups = document_at both ∷ []; turns = [] })
    × (any (lacks_user shared_platform g_name u_name) gs ≡ false)
added_to_all =
    Settles-any shared_platform InUse shared_laws
      (named_without (group_hash shared_platform g_name u_name)
        (user_hash shared_platform g_name u_name))
      (lacks_user shared_platform g_name u_name)
      (add_member (new_member shared_platform g_name u_name u_name))
      (bson_error "Unable to add user to group after multiple attempts" 247) 10 two_clients
      (record { groups = document_at both ∷ []; turns = [] }) _
      (add_user_with_key-Settles shared_platform InUse shared_laws shared-TellsFields g_name u_name
        u_name adding_stays (group_at untouched ∷ []) two_clients (refl, ((untouched, refl), tt)))
      second_attempt
