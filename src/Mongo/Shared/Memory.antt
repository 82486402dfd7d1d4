-- ===== src/Mongo/Shared/Memory.antt =====
-- A collection in memory with one group, to which another client adds a member in between.
use mongo_sgx_client.Base.{
  ℕ, ◌+◌, ◌%◌, ◌≡◌, refl, sym, ◌∙◌, ap, Bool, true, false, Bytes, List, [], ◌∷◌, some, codes, map,
  length, replicate, if◌then◌else◌, All,
}
use mongo_sgx_client.Mongo.Bson.{Document, eqb}
use mongo_sgx_client.Mongo.Platform.{Platform, Count, int32, int64, success, matched}
use mongo_sgx_client.Mongo.First.{filter, update_first, any}
use mongo_sgx_client.Mongo.Server.{cursor_on, selects, apply_update, matched_count}
use mongo_sgx_client.Mongo.Spec.{
  Member, Group, fields_of, signed_document, group_document, signature_of,
}
use mongo_sgx_client.Mongo.Shared.{IsShared, TellsFields}

abbrev pub total : Bytes → ℕ
total [] = 0
total (b ∷ bs) = b + total bs

abbrev pub total_of : List Bytes → ℕ
total_of [] = 0
total_of (b ∷ bs) = total b + total_of bs

-- The number of the pieces and the sum of their bytes.
abbrev pub checksum : List Bytes → Bytes
checksum us = length us % 256 ∷ total_of us % 256 ∷ replicate 30 0

-- A turn for each call: the other client adds its member where it is true.
pub record Turns : Type 0 where
  pub groups : List Document
  pub turns : List Bool

-- The four states that the group can be in.
pub data Stage : Type 0 where
  untouched theirs ours both : Stage

abbrev pub name_hash : Bytes → Bytes
name_hash u = checksum (u ∷ codes "g" ∷ [])

abbrev pub member : Bytes → Member
member u = record { name = name_hash u; key = u }

abbrev pub members_at : Stage → List Member
members_at untouched = []
members_at theirs = member (codes "v") ∷ []
members_at ours = member (codes "u") ∷ []
members_at both = member (codes "v") ∷ member (codes "u") ∷ []

abbrev pub group_at : Stage → Group
group_at stage = record {
  id = 1 ∷ [];
  name = checksum (codes "g" ∷ []);
  encname = codes "g";
  members = members_at stage;
}

abbrev pub signature_at : Stage → Bytes
signature_at stage = checksum (checksum (codes "g" ∷ []) ∷ codes "g" ∷ fields_of (members_at stage))

abbrev pub document_at : Stage → Document
document_at stage = signed_document (group_at stage) (signature_at stage)

abbrev pub others : Turns → Turns
others w = elim w.turns [
  | [] ↦ w
  | false ∷ ts ↦ record { groups = w.groups; turns = ts }
  | true ∷ ts ↦ record { groups = document_at theirs ∷ []; turns = ts }
]

abbrev read_int64 : Count → ℕ
read_int64 (int32 n) = 0
read_int64 (int64 n) = n

abbrev pub shared_platform : Platform
shared_platform = record {
  World = Turns;
  hmac256 = λ k us. checksum us;
  encrypt_aesgcm = λ k t w. (w, t);
  decrypt_aesgcm = λ k t. some t;
  find_with_opts = λ c s w. let w' = others w in (w', cursor_on (filter (selects s) w'.groups));
  update_one = λ c s u w.
      let w' = others w in
      (
        record w' { groups = update_first (selects s) (apply_update u) w'.groups },
        matched (int32 (matched_count (any (selects s) w'.groups))),
      );
  iter_int64 = read_int64;
  insert_one = λ c d w. (w, success);
  delete_one = λ c s w. (w, success);
  delete_many = λ c s w. (w, success);
  bulk_execute = λ c us w. (w, success);
  uri_new_with_error = λ uri w. (w, true);
  client_new_from_uri = λ uri w. (w, true);
  command_simple = λ command w. (w, success);
  mongoc_init = λ w. w;
  mongoc_log_trace_disable = λ w. w;
  collection_destroy = λ c w. w;
  client_destroy = λ w. w;
  mongoc_cleanup = λ w. w;
}

abbrev pub InUse : Group → Type 0
InUse g = (stage : Stage) × (g ≡ group_at stage)

pub others_keep :
    (w : Turns) (gs : List Group)
    → w.groups ≡ map (group_document shared_platform) gs
    → All InUse gs
    → (gs' : List Group) × ((others w).groups ≡ map (group_document shared_platform) gs')
      × All InUse gs'
others_keep w gs docs used = go w.turns refl
  where
    go :
        (ts : List Bool)
        → w.turns ≡ ts
        → (gs' : List Group) × ((others w).groups ≡ map (group_document shared_platform) gs')
          × All InUse gs'
    go [] e = rw e (gs, docs, used)
    go (false ∷ ts) e = rw e (gs, docs, used)
    go (true ∷ ts) e = rw e (group_at theirs ∷ [], refl, ((theirs, refl), tt))

abbrev pub shared_laws : IsShared shared_platform InUse
shared_laws = record {
  documents = λ w. w.groups;
  others = others;
  others_keep = others_keep;
  length-hmac256 = λ k us. refl;
  find_answer = λ s w. refl;
  documents-find = λ s w. refl;
  update_answer = λ s u w. refl;
  iter_int64_int32 = λ n. refl;
  documents-update = λ s u w. refl;
}

-- The members that a signature stands for.
abbrev pub members_of : Bytes → List Member
members_of s =
    if eqb s (signature_at untouched)
    then []
    else if eqb s (signature_at theirs)
    then members_at theirs
    else if eqb s (signature_at ours)
    then members_at ours
    else members_at both

members_of-signature_at : (stage : Stage) → members_of (signature_at stage) ≡ members_at stage
unfolding eqb
members_of-signature_at untouched = refl
members_of-signature_at theirs = refl
members_of-signature_at ours = refl
members_of-signature_at both = refl

pub shared-TellsFields : TellsFields shared_platform InUse
shared-TellsFields g g' (stage, e) (stage', e') h =
    let at : g.members ≡ members_of (signature_of shared_platform g) =
      ap (λ x. x.members) e
      ∙ sym (members_of-signature_at stage)
      ∙ ap (λ x. members_of (signature_of shared_platform x)) (sym e) in
    let at' : members_of (signature_of shared_platform g') ≡ g'.members =
      ap (λ x. members_of (signature_of shared_platform x)) e'
      ∙ members_of-signature_at stage'
      ∙ ap (λ x. x.members) (sym e') in
    (
      ap (λ x. x.name) e ∙ ap (λ x. x.name) (sym e'),
      ap (λ x. x.encname) e ∙ ap (λ x. x.encname) (sym e'),
      at ∙ ap members_of h ∙ at',
    )
