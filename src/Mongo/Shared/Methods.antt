-- ===== src/Mongo/Shared/Methods.antt =====
-- The methods that change one group, on a collection that others change too.
use mongo_sgx_client.Base.{
  ◌≡◌, ap, ap₂, Bool, true, ◌&&◌, not, Bytes, List, [], ◌∷◌, ◌++◌, none, some,
}
use mongo_sgx_client.Mongo.Platform.{Platform, bson_error, push, pull}
use mongo_sgx_client.Mongo.Hashing.{hash_name, hmac_key}
use mongo_sgx_client.Mongo.Groups.{user_entry, add_user_with_key, remove_user_from_group}
use mongo_sgx_client.Mongo.First.{filter}
use mongo_sgx_client.Mongo.Server.Groups.{
  named_without, named_with, has_member, is_named, selects-named_without, selects-named_with,
  apply_update-push, apply_update-pull,
}
use mongo_sgx_client.Mongo.Spec.{
  Member, Group, signature_of, fields_of, is_other, adding, removing, add_member, remove_member,
  signature-adding, signature-removing,
}
use mongo_sgx_client.Mongo.Shared.{IsShared, TellsFields, Contains, Settles}
use mongo_sgx_client.Mongo.Shared.Rounds.{attempt-Settles}

-- The signed fields give the signature.
signature_of-same :
    (P : Platform) (g g' : Group) (ms ms' : List Member)
    → g.name ≡ g'.name
    → g.encname ≡ g'.encname
    → ms ≡ ms'
    → signature_of P (record g { members = ms }) ≡ signature_of P (record g' { members = ms' })
signature_of-same P g g' ms ms' n e m =
    ap (P.hmac256 hmac_key) (ap₂ (λ a b. a ∷ b) n (ap₂ (λ a b. a ∷ b) e (ap fields_of m)))

module _ (P : Platform) (group_name user_name : Bytes) where
  abbrev pub group_hash : Bytes
  group_hash = hash_name P group_name none

  abbrev pub user_hash : Bytes
  user_hash = hash_name P user_name (some group_name)

  -- A group of the name without the user, and with the user.
  abbrev pub lacks_user : Group → Bool
  lacks_user g = is_named group_hash g && not (has_member user_hash g)

  abbrev pub has_user : Group → Bool
  has_user g = is_named group_hash g && has_member user_hash g

  -- The member that is added.
  abbrev pub new_member : Bytes → Member
  new_member key = record { name = user_hash; key = key }

module _ (P : Platform) (InUse : Group → Type 0) (S : IsShared P InUse)
    (tells : TellsFields P InUse) (group_name user_name : Bytes) where
  -- With other clients that write to the groups between any two calls and leave them signed, and signatures
  -- that tell the groups in use apart, where the groups with the user added are in use too: adding a
  -- user with an encrypted key makes up to ten rounds. In each, the search sees the groups as others have
  -- left them. If none of the name lacks the user, it returns. Otherwise, for the first that does: if,
  -- behind what others do until the update, a group has its signature still, the first such one
  -- gets the user in one step, and if none has, nothing is changed; either way the next round follows.
  -- Behind ten rounds that did not return it throws that it is unable. Every group is signed all along.
  pub add_user_with_key-Settles :
      (key : Bytes)
      → ((g : Group)
          → InUse g
          → lacks_user P group_name user_name g ≡ true
          → InUse (add_member (new_member P group_name user_name key) g))
      → (gs : List Group) (w : P.World) → Contains P InUse S gs w
      → Settles P InUse S
          (named_without (group_hash P group_name user_name) (user_hash P group_name user_name))
          (lacks_user P group_name user_name)
          (add_member (new_member P group_name user_name key))
          (bson_error "Unable to add user to group after multiple attempts" 247)
          10
          w
          (add_user_with_key P group_name user_name key w)
  unfolding add_user_with_key
  add_user_with_key-Settles key stays gs w held =
      let m = new_member P group_name user_name key in
      attempt-Settles P InUse S tells
        (named_without (group_hash P group_name user_name) (user_hash P group_name user_name))
        (adding (user_hash P group_name user_name) key)
        (push (user_entry (user_hash P group_name user_name) key))
        (bson_error "Error in signature validation at line" 194) (lacks_user P group_name user_name)
        (add_member m)
        (λ g s.
          selects-named_without g s (group_hash P group_name user_name)
            (user_hash P group_name user_name))
        (λ g s. signature-adding P g s m) (λ g s t. apply_update-push g s t m)
        (λ g g' n e ms. signature_of-same P g g' _ _ n e (ap (λ x. x ++ m ∷ []) ms)) stays 10
        (bson_error "Unable to add user to group after multiple attempts" 247) gs w held

  -- With other clients that write to the groups between any two calls and leave them signed, and signatures
  -- that tell the groups in use apart, where the groups with the user removed are in use too:
  -- remove_user_from_group makes up to ten rounds. In each, the search sees the groups as others have
  -- left them. If none of the name has the user, it returns. Otherwise, for the first that does: if,
  -- behind what others do until the update, a group has its signature still, the first such one
  -- loses the user in one step, and if none has, nothing is changed; either way the next round follows.
  -- Behind ten rounds that did not return it throws that it is unable. Every group is signed all along.
  pub remove_user_from_group-Settles :
      ((g : Group)
        → InUse g
        → has_user P group_name user_name g ≡ true
        → InUse (remove_member (user_hash P group_name user_name) g))
      → (gs : List Group) (w : P.World) → Contains P InUse S gs w
      → Settles P InUse S
          (named_with (group_hash P group_name user_name) (user_hash P group_name user_name))
          (has_user P group_name user_name)
          (remove_member (user_hash P group_name user_name))
          (bson_error "Unable to remove user from group after multiple attempts" 322)
          10
          w
          (remove_user_from_group P group_name user_name w)
  unfolding remove_user_from_group
  remove_user_from_group-Settles stays gs w held =
      attempt-Settles P InUse S tells
        (named_with (group_hash P group_name user_name) (user_hash P group_name user_name))
        (removing (user_hash P group_name user_name)) (pull (user_hash P group_name user_name))
        (bson_error "Error in signature validation" 274) (has_user P group_name user_name)
        (remove_member (user_hash P group_name user_name))
        (λ g s.
          selects-named_with g s (group_hash P group_name user_name)
            (user_hash P group_name user_name))
        (λ g s. signature-removing P g s (user_hash P group_name user_name))
        (λ g s t. apply_update-pull g s t (user_hash P group_name user_name))
        (λ g g' n e ms.
          signature_of-same P g g' _ _ n e
            (ap (filter (is_other (user_hash P group_name user_name))) ms))
        stays 10 (bson_error "Unable to remove user from group after multiple attempts" 322) gs w
        held
