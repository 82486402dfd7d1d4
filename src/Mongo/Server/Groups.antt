-- ===== src/Mongo/Server/Groups.antt =====
-- What the server's selectors and updates mean for the document of a group.
use mongo_sgx_client.Base.{
  ◌≡◌, refl, sym, ap, Bool, ◌&&◌, not, Bytes, List, [], ◌∷◌, ◌++◌, codes, map, arith,
}
use mongo_sgx_client.Mongo.Bson.{Document, eqb, seek}
use mongo_sgx_client.Mongo.Platform.{Condition, Selector, equals, differs, push, pull}
use mongo_sgx_client.Mongo.First.{filter, any}
use mongo_sgx_client.Mongo.Spec.{
  Member, Group, entry_of, is_member, is_other, document_with, signed_document, add_member,
  remove_member,
}
use mongo_sgx_client.Mongo.Server.{
  has_name, path_is, satisfies, selects, change_field, apply_update,
}

has_name-entry_of : (u : Bytes) (m : Member) → has_name u (entry_of m) ≡ is_member u m
unfolding has_name seek eqb
has_name-entry_of u m = refl

any-map : (u : Bytes) (ms : List Member) → any (has_name u) (map entry_of ms) ≡ any (is_member u) ms
any-map u [] = refl
any-map u (m ∷ ms) = ground (arith, has_name-entry_of u m, any-map u ms)

filter-map :
    (u : Bytes) (ms : List Member)
    → filter (λ e. not (has_name u e)) (map entry_of ms) ≡ map entry_of (filter (is_other u) ms)
filter-map u [] = refl
filter-map u (m ∷ ms) = ground (arith, has_name-entry_of u m, filter-map u ms)

map-snoc :
    (ms : List Member) (m : Member)
    → map entry_of (ms ++ m ∷ []) ≡ map entry_of ms ++ entry_of m ∷ []
map-snoc [] m = refl
map-snoc (x ∷ ms) m = ap (λ t. entry_of x ∷ t) (map-snoc ms m)

-- The selectors of the methods.
abbrev pub named : Bytes → Selector
named h = equals (codes "name") h ∷ []

abbrev pub named_without : Bytes → Bytes → Selector
named_without h u = equals (codes "name") h ∷ differs (codes "users.name") u ∷ []

abbrev pub named_with : Bytes → Bytes → Selector
named_with h u = equals (codes "name") h ∷ equals (codes "users.name") u ∷ []

abbrev pub has_member : Bytes → Group → Bool
has_member u g = any (is_member u) g.members

abbrev pub is_named : Bytes → Group → Bool
is_named h g = eqb g.name h

path_is-users :
    (g : Group) (s u : Bytes)
    → path_is (codes "users.name") u (signed_document g s) ≡ has_member u g
unfolding path_is seek eqb
path_is-users g s u = any-map u g.members

path_is-name :
    (g : Group) (s h : Bytes) → path_is (codes "name") h (signed_document g s) ≡ is_named h g
unfolding path_is seek eqb
path_is-name g s h = refl

pub path_is-signature :
    (g : Group) (s x : Bytes) → path_is (codes "signature") x (signed_document g s) ≡ eqb s x
unfolding path_is seek eqb
path_is-signature g s x = refl

pub selects-named :
    (g : Group) (s h : Bytes) → selects (named h) (signed_document g s) ≡ is_named h g
selects-named g s h = ground (arith, path_is-name g s h)

pub selects-named_without :
    (g : Group) (s h u : Bytes)
    → selects (named_without h u) (signed_document g s) ≡ (is_named h g && not (has_member u g))
selects-named_without g s h u = ground (arith, path_is-name g s h, path_is-users g s u)

pub selects-named_with :
    (g : Group) (s h u : Bytes)
    → selects (named_with h u) (signed_document g s) ≡ (is_named h g && has_member u g)
selects-named_with g s h u = ground (arith, path_is-name g s h, path_is-users g s u)

-- A condition that is put behind those of a selector.
pub selects-snoc :
    (c : Selector) (x : Condition) (d : Document)
    → selects (c ++ x ∷ []) d ≡ (selects c d && satisfies x d)
selects-snoc [] x d = ground arith
selects-snoc (y ∷ c) x d = ground (arith, selects-snoc c x d)

pub apply_update-push :
    (g : Group) (s t : Bytes) (m : Member)
    → apply_update (record { change = push (entry_of m); signature = t }) (signed_document g s)
      ≡ signed_document (add_member m g) t
unfolding change_field eqb
apply_update-push g s t m = ap (λ es. document_with g es t) (sym (map-snoc g.members m))

pub apply_update-pull :
    (g : Group) (s t u : Bytes)
    → apply_update (record { change = pull u; signature = t }) (signed_document g s)
      ≡ signed_document (remove_member u g) t
unfolding change_field eqb
apply_update-pull g s t u = ap (λ es. document_with g es t) (filter-map u g.members)
