-- ===== src/Mongo/Signed.antt =====
-- What the signature of a group's document covers, described without the code that computes it, and
-- that `validate_group_signature` checks it.
use mongo_sgx_client.Base.{
  ◌≡◌, refl, sym, ◌∙◌, ap, Bool, true, false, ◌||◌, ◌⊎◌, inl, inr, Bytes, List, [], ◌∷◌, ◌++◌,
  append-nil, some, codes, ◌>>=◌, Run, done, fault, Bool-cases, Option-cases, arith,
}
use mongo_sgx_client.Mongo.Bson.{
  Scalar, Entry, Value, scalar, array, Document, eqb, eqb→eq, seek, scalar_bytes, value_bytes,
  value_array, find_binary,
}
use mongo_sgx_client.Mongo.Platform.{Platform}
use mongo_sgx_client.Mongo.Hashing.{hmac_key}
use mongo_sgx_client.Mongo.Signature.{
  nothing_more, entry_updates, entries_updates, field_updates, document_updates,
  compute_group_signature, validate_group_signature, same_hash,
}

-- A user's entry with a name and, somewhere behind it, a key, which stand for their bytes.
abbrev pub IsMember : Entry → List Bytes → Type 0
IsMember e us =
    (name : Scalar) × (key : Scalar) × (rest : Entry) × (behind : Entry) × (seek (codes "name") e
      ≡ some (name, rest))
    × (seek (codes "key") rest ≡ some (key, behind))
    × (us ≡ scalar_bytes name ∷ scalar_bytes key ∷ [])

-- The names and keys of these entries in their order.
abbrev pub AreMembers : List Entry → List Bytes → Type 0
AreMembers [] us = us ≡ []
AreMembers (e ∷ es) us =
    (a : List Bytes) × (b : List Bytes) × IsMember e a × AreMembers es b × (us ≡ a ++ b)

abbrev pub is_title : Bytes → Bool
is_title key = eqb key (codes "name") || eqb key (codes "encname")

-- What a field is signed as: a name or an encrypted name as its bytes, the users as their names and
-- keys, and any other field not at all.
abbrev pub IsSignedAs : Bytes → Value → List Bytes → Type 0
IsSignedAs key v us =
    ((is_title key ≡ true) × (us ≡ value_bytes v ∷ []))
    ⊎ (((is_title key ≡ false)
          × (eqb key (codes "users") ≡ true)
          × (es : List Entry) × (v ≡ array es)
          × AreMembers es us)
        ⊎ ((is_title key ≡ false) × (eqb key (codes "users") ≡ false) × (us ≡ [])))

-- The bytes that the fields are signed as, in the order of the fields.
abbrev pub Covers : Document → List Bytes → Type 0
Covers [] us = us ≡ []
Covers ((key, v) ∷ d) us =
    (a : List Bytes) × (b : List Bytes) × IsSignedAs key v a × Covers d b × (us ≡ a ++ b)

pub bind_done {ℓ κ} :
    {A : Type ℓ} {B : Type κ} (r : Run A) (f : A → Run B) (b : B)
    → (r >>= f) ≡ done b
    → (a : A) × (r ≡ done a) × (f a ≡ done b)
bind_done (done a) f b e = (a, refl, e)
bind_done fault f b e = absurd (cc)

pub value_array_done : (u : Value) (es : List Entry) → value_array u ≡ done es → u ≡ array es
value_array_done (scalar s) es h = absurd (cc)
value_array_done (array fs) es h = cc

done_same {ℓ} : {A : Type ℓ} (a b : A) → done a ≡ done b → b ≡ a
done_same a b h = cc

entry_updates-IsMember :
    (e : Entry) (us : List Bytes) → entry_updates nothing_more e ≡ done us → IsMember e us
unfolding entry_updates
entry_updates-IsMember e us h = elim (Option-cases (seek (codes "name") e)) [
  | inl missing ↦ let read = rw (entry_updates, missing) at h in absurd (cc)
  | inr ((s, rest), found) ↦
      let more = rw (entry_updates, found) at h in
      elim (Option-cases (seek (codes "key") rest)) [
        | inl missing ↦ let read = rw missing at more in absurd (cc)
        | inr ((t, behind), there) ↦
            (s, t, rest, behind, found, there, done_same _ us (rw there at more))
      ]
]

entries_updates-AreMembers :
    (es : List Entry) (us : List Bytes)
    → entries_updates nothing_more es ≡ done us
    → AreMembers es us
unfolding entries_updates
entries_updates-AreMembers [] us h = done_same [] us h
entries_updates-AreMembers (e ∷ es) us h =
    let (a, first, more) = bind_done (entry_updates nothing_more e) _ us h in
    let (b, rest, last) = bind_done (entries_updates nothing_more es) _ us more in
    (
      a,
      b,
      entry_updates-IsMember e a first,
      entries_updates-AreMembers es b rest,
      done_same (a ++ b) us last,
    )

field_updates-IsSignedAs :
    (key : Bytes) (v : Value) (us : List Bytes)
    → field_updates nothing_more key v ≡ done us
    → IsSignedAs key v us
unfolding field_updates
field_updates-IsSignedAs key v us h = elim (Bool-cases (is_title key)) [
  | inl title ↦ inl (title, done_same (value_bytes v ∷ []) us (rw (field_updates, title) at h))
  | inr no_title ↦
      let read = rw (field_updates, no_title) at h in
      elim (Bool-cases (eqb key (codes "users"))) [
        | inl users ↦
            let (es, entries, last) = bind_done (value_array v) _ us (rw users at read) in
            inr (
              inl (
                no_title,
                users,
                es,
                value_array_done v es entries,
                entries_updates-AreMembers es us last,
              ))
        | inr aside ↦ inr (inr (no_title, aside, done_same [] us (rw aside at read)))
      ]
]

document_updates-Covers :
    (d : Document) (us : List Bytes) → document_updates nothing_more d ≡ done us → Covers d us
unfolding document_updates
document_updates-Covers [] us h = done_same [] us h
document_updates-Covers ((key, v) ∷ d) us h =
    let (a, first, more) = bind_done (field_updates nothing_more key v) _ us h in
    let (b, rest, last) = bind_done (document_updates nothing_more d) _ us more in
    (
      a,
      b,
      field_updates-IsSignedAs key v a first,
      document_updates-Covers d b rest,
      done_same (a ++ b) us last,
    )

pub same_hash-true : (x y : Bytes) → same_hash x y ≡ true → x ≡ y
same_hash-true x y h = let equal : eqb x y ≡ true = ground (arith, h) in eqb→eq x y equal

module _ (P : Platform) where
  -- The signature in the document is the HMAC, under the enclave's key, of what its fields are
  -- signed as.
  abbrev pub IsSigned : Document → Type 0
  IsSigned d =
      (us : List Bytes) × Covers d us
      × (find_binary (codes "signature") d ≡ done (P.hmac256 hmac_key us))

  pub validate_group_signature-IsSigned :
      (d : Document) → validate_group_signature P d ≡ done true → IsSigned d
  unfolding validate_group_signature compute_group_signature
  validate_group_signature-IsSigned d h =
      let (s, found, more) = bind_done (find_binary (codes "signature") d) _ true h in
      let (x, computed, equal) = bind_done (compute_group_signature P d nothing_more) _ true more in
      let (us, updates, hashed) = bind_done (document_updates nothing_more d) _ x computed in
      let made : P.hmac256 hmac_key (us ++ []) ≡ x = cc in
      let same : same_hash x s ≡ true = cc in
      let whole : P.hmac256 hmac_key us ≡ s =
        ap (P.hmac256 hmac_key) (sym (append-nil us)) ∙ made ∙ same_hash-true x s same in
      (us, document_updates-Covers d us updates, found ∙ ap done (sym whole))
