-- ===== src/Mongo/Spec.antt =====
-- Groups and users as the methods mean them, and their documents.
use mongo_sgx_client.Base.{
  ◌≡◌, refl, sym, ap, Bool, true, false, not, Bytes, List, [], ◌∷◌, ◌++◌, append-nil, Option, none,
  some, codes, map, done, arith,
}
use mongo_sgx_client.Mongo.Bson.{
  binary, Entry, scalar, array, Document, eqb, seek, find_binary, eqb-sym,
}
use mongo_sgx_client.Mongo.Platform.{Platform}
use mongo_sgx_client.Mongo.Hashing.{hmac_key}
use mongo_sgx_client.Mongo.Signature.{
  Additional, nothing_more, entry_updates, entries_updates, field_updates, document_updates,
  same_hash, compute_group_signature, validate_group_signature,
}
use mongo_sgx_client.Mongo.Groups.{user_entry}
use mongo_sgx_client.Mongo.First.{filter}
use mongo_sgx_client.Mongo.Server.{with_id}

-- A hashed name with an encrypted key.
pub record Member : Type 0 where
  pub name : Bytes
  pub key : Bytes

pub record Group : Type 0 where
  pub id : Bytes
  pub name : Bytes
  pub encname : Bytes
  pub members : List Member

abbrev pub entry_of : Member → Entry
entry_of m = user_entry m.name m.key

abbrev pub fields_of : List Member → List Bytes
fields_of [] = []
fields_of (m ∷ ms) = m.name ∷ m.key ∷ fields_of ms

abbrev pub is_member : Bytes → Member → Bool
is_member u m = eqb m.name u

abbrev pub is_other : Bytes → Member → Bool
is_other u m = not (is_member u m)

-- The document of a group with some signature.
abbrev pub document_with : Group → List Entry → Bytes → Document
document_with g es signature = with_id g.id (
    (codes "name", scalar (binary g.name))
    ∷ (codes "encname", scalar (binary g.encname))
    ∷ (codes "users", array es)
    ∷ (codes "signature", scalar (binary signature))
    ∷ [])

abbrev pub signed_document : Group → Bytes → Document
signed_document g signature = document_with g (map entry_of g.members) signature

-- The options of adding and of removing a user.
abbrev pub adding : Bytes → Bytes → Additional
adding u k = record {
  additional_user_name = some u;
  additional_user_key = some k;
  additional_is_add = true;
}

abbrev pub removing : Bytes → Additional
removing u = record {
  additional_user_name = some u;
  additional_user_key = none;
  additional_is_add = false;
}

abbrev pub add_member : Member → Group → Group
add_member m g = record g { members = g.members ++ m ∷ [] }

abbrev pub remove_member : Bytes → Group → Group
remove_member u g = record g { members = filter (is_other u) g.members }

entries_updates-adding :
    (ms : List Member) (name key : Option Bytes)
    → entries_updates
        (record {
          additional_user_name = name;
          additional_user_key = key;
          additional_is_add = true;
        })
        (map entry_of ms)
      ≡ done (fields_of ms)
unfolding entries_updates entry_updates seek eqb
entries_updates-adding [] name key = refl
entries_updates-adding (m ∷ ms) name key = rw (entries_updates-adding ms name key) refl

entry_updates-removing :
    (u : Bytes) (m : Member)
    → entry_updates (removing u) (entry_of m)
      ≡ elim (eqb u m.name) [ true ↦ done [] | false ↦ done (m.name ∷ m.key ∷ []) ]
unfolding entry_updates seek eqb
entry_updates-removing u m = refl

entries_updates-removing :
    (u : Bytes) (ms : List Member)
    → entries_updates (removing u) (map entry_of ms) ≡ done (fields_of (filter (is_other u) ms))
unfolding entries_updates
entries_updates-removing u [] = refl
entries_updates-removing u (m ∷ ms) =
    ground (arith, entry_updates-removing u m, eqb-sym u m.name, entries_updates-removing u ms)

fields_of-append :
    (ms : List Member) (m : Member) → fields_of (ms ++ m ∷ []) ≡ fields_of ms ++ m.name ∷ m.key ∷ []
fields_of-append [] m = refl
fields_of-append (x ∷ ms) m = ap (λ t. x.name ∷ x.key ∷ t) (fields_of-append ms m)

-- The updates of the HMAC for a document of a group, from those of its users.
document_updates-signed :
    (a : Additional) (g : Group) (s : Bytes) (us : List Bytes)
    → entries_updates a (map entry_of g.members) ≡ done us
    → document_updates a (signed_document g s) ≡ done (g.name ∷ g.encname ∷ us)
unfolding document_updates field_updates eqb
document_updates-signed a g s us e = rw e (ap (λ t. done (g.name ∷ g.encname ∷ t)) (append-nil us))

module _ (P : Platform) where
  -- The signature that belongs to a group.
  abbrev pub signature_of : Group → Bytes
  signature_of g = P.hmac256 hmac_key (g.name ∷ g.encname ∷ fields_of g.members)

  abbrev pub group_document : Group → Document
  group_document g = signed_document g (signature_of g)

  pub signature-nothing_more :
      (g : Group) (s : Bytes)
      → compute_group_signature P (signed_document g s) nothing_more ≡ done (signature_of g)
  unfolding compute_group_signature
  signature-nothing_more g s =
      rw (document_updates-signed nothing_more g s _ (entries_updates-adding g.members none none))
        (ap (λ t. done (P.hmac256 hmac_key t)) (append-nil _))

  -- The signature that compute_group_signature gives for a group's document, whatever signature
  -- stands in it, with the name and key of a user to add is the one that belongs to the group with
  -- the user as its last member.
  pub signature-adding :
      (g : Group) (s : Bytes) (m : Member)
      → compute_group_signature P (signed_document g s) (adding m.name m.key)
        ≡ done (signature_of (add_member m g))
  unfolding compute_group_signature
  signature-adding g s m =
      rw
        (document_updates-signed (adding m.name m.key) g s _
          (entries_updates-adding g.members (some m.name) (some m.key)))
        (ap (λ t. done (P.hmac256 hmac_key (g.name ∷ g.encname ∷ t)))
          (sym (fields_of-append g.members m)))

  -- The signature that compute_group_signature gives for a group's document, whatever signature
  -- stands in it, with the name of a user to remove is the one that belongs to the group without
  -- the members of that name.
  pub signature-removing :
      (g : Group) (s u : Bytes)
      → compute_group_signature P (signed_document g s) (removing u)
        ≡ done (signature_of (remove_member u g))
  unfolding compute_group_signature
  signature-removing g s u =
      rw (document_updates-signed (removing u) g s _ (entries_updates-removing u g.members))
        (ap (λ t. done (P.hmac256 hmac_key t)) (append-nil _))

pub signature_found :
    (g : Group) (s : Bytes) → find_binary (codes "signature") (signed_document g s) ≡ done s
unfolding find_binary seek eqb
signature_found g s = refl

pub validate-signed :
    (P : Platform) (g : Group) (s : Bytes)
    → validate_group_signature P (signed_document g s) ≡ done (same_hash (signature_of P g) s)
unfolding validate_group_signature
validate-signed P g s = rw (signature_found g s, signature-nothing_more P g s) refl
