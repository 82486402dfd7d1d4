-- ===== src/Mongo/Removals.antt =====
-- The bulk operation of `remove_user_from_all_groups`: its updates, and what they make of the groups.
use mongo_sgx_client.Base.{
  ◌≡◌, refl, ◌∙◌, ap, true, false, Bytes, List, [], ◌∷◌, some, codes, map, arith, done,
}
use mongo_sgx_client.Mongo.Bson.{Document, eqb, eqb_refl, seek, find_binary}
use mongo_sgx_client.Mongo.Platform.{Platform, Update, pull, value}
use mongo_sgx_client.Mongo.Hashing.{aes_key, hash_name}
use mongo_sgx_client.Mongo.Deleting.{removal, removals}
use mongo_sgx_client.Mongo.First.{filter, update_first}
use mongo_sgx_client.Mongo.Server.{IsQuiet, selects, eq_entries, asks, apply_all, apply_update}
use mongo_sgx_client.Mongo.Server.Groups.{apply_update-pull}
use mongo_sgx_client.Mongo.Spec.{
  Member, Group, entry_of, signed_document, group_document, signature_of, remove_member,
  signature-removing,
}
use mongo_sgx_client.Mongo.Distinct.{Elsewhere, Distinct}
use mongo_sgx_client.Mongo.Quiet.{validate-group_document}
use mongo_sgx_client.Mongo.Keys.{decrypt_data-some}

pub filter-everything : (ds : List Document) → filter (selects []) ds ≡ ds
filter-everything [] = refl
filter-everything (d ∷ ds) = ap (λ t. d ∷ t) (filter-everything ds)

eq_entries_refl : (ms : List Member) → eq_entries (map entry_of ms) (map entry_of ms) ≡ true
unfolding eqb
eq_entries_refl [] = refl
eq_entries_refl (m ∷ ms) = ground (arith, eqb_refl m.name, eqb_refl m.key, eq_entries_refl ms)

module _ (P : Platform) where
  asks-group_document : (g : Group) → asks (group_document P g) (group_document P g) ≡ true
  unfolding asks seek eqb
  asks-group_document g = ground (
    arith,
    eqb_refl g.id,
    eqb_refl g.name,
    eqb_refl g.encname,
    eq_entries_refl g.members,
    eqb_refl (signature_of P g),
  )

  -- A document with another `_id`.
  asks-Elsewhere :
      (x g : Group) (s : Bytes)
      → eqb x.id g.id ≡ false
      → asks (group_document P x) (signed_document g s) ≡ false
  unfolding asks seek eqb
  asks-Elsewhere x g s e = ground (arith, e)

  -- The groups' encrypted names decrypt to these.
  abbrev pub Named : List Group → List Bytes → Type 0
  Named [] [] = Unit
  Named [] (n ∷ ns) = ⊥
  Named (g ∷ gs) [] = ⊥
  Named (g ∷ gs) (n ∷ ns) = (P.decrypt_aesgcm aes_key g.encname ≡ some n) × Named gs ns

  -- The groups of these names without the user.
  abbrev pub without_user : Bytes → List Group → List Bytes → List Group
  without_user user_name (g ∷ gs) (n ∷ ns) =
      remove_member (hash_name P user_name (some n)) g ∷ without_user user_name gs ns
  without_user user_name _ _ = []

  -- The update for one group.
  abbrev pub taken_out : Bytes → Group → Bytes → Document × Update
  taken_out user_name g n =
      let u = hash_name P user_name (some n) in
      (
        group_document P g,
        record { change = pull u; signature = signature_of P (remove_member u g) },
      )

  abbrev pub bulk : Bytes → List Group → List Bytes → List (Document × Update)
  bulk user_name (g ∷ gs) (n ∷ ns) = taken_out user_name g n ∷ bulk user_name gs ns
  bulk user_name _ _ = []

module _ (P : Platform) (Q : IsQuiet P) where
  encname_found : (g : Group) → find_binary (codes "encname") (group_document P g) ≡ done g.encname
  unfolding find_binary seek eqb
  encname_found g = refl

  removal-taken_out :
      (user_name n : Bytes) (g : Group) (w : P.World)
      → P.decrypt_aesgcm aes_key g.encname ≡ some n
      → removal P user_name (group_document P g) w ≡ (w, value (taken_out P user_name g n))
  unfolding removal taken_out
  removal-taken_out user_name n g w e =
      rw
        (
          removal,
          encname_found g,
          decrypt_data-some P g.encname n w e,
          validate-group_document P Q g,
          signature-removing P g (signature_of P g) (hash_name P user_name (some n)),
        )
        refl

  pub removals-bulk :
      (user_name : Bytes) (gs : List Group) (ns : List Bytes) (w : P.World)
      → Named P gs ns
      → removals P user_name (map (group_document P) gs) w ≡ (w, value (bulk P user_name gs ns))
  unfolding removals
  removals-bulk user_name [] [] w h = refl
  removals-bulk user_name [] (n ∷ ns) w h = elim h [ ]
  removals-bulk user_name (g ∷ gs) [] w h = elim h [ ]
  removals-bulk user_name (g ∷ gs) (n ∷ ns) w h =
      rw (removal-taken_out user_name n g w h.0, removals-bulk user_name gs ns w h.1) refl

  apply_all-Elsewhere :
      (user_name : Bytes) (gs : List Group) (ns : List Bytes) (g : Group) (s : Bytes)
      (ds : List Document)
      → Elsewhere g.id gs
      → apply_all (bulk P user_name gs ns) (signed_document g s ∷ ds)
        ≡ signed_document g s ∷ apply_all (bulk P user_name gs ns) ds
  unfolding taken_out
  apply_all-Elsewhere user_name [] ns g s ds h = refl
  apply_all-Elsewhere user_name (x ∷ gs) [] g s ds h = refl
  apply_all-Elsewhere user_name (x ∷ gs) (n ∷ ns) g s ds h =
      let o = taken_out P user_name x n in
      let later = update_first (asks o.0) (apply_update o.1) ds in
      ap
        (λ b. apply_all (bulk P user_name gs ns) (elim b [
          | true ↦ apply_update o.1 (signed_document g s) ∷ ds
          | false ↦ signed_document g s ∷ later
        ]))
        (asks-Elsewhere P x g s h.0)
      ∙ apply_all-Elsewhere user_name gs ns g s later h.1

  pub apply_all-bulk :
      (user_name : Bytes) (gs : List Group) (ns : List Bytes)
      → Named P gs ns
      → Distinct gs
      → apply_all (bulk P user_name gs ns) (map (group_document P) gs)
        ≡ map (group_document P) (without_user P user_name gs ns)
  unfolding taken_out
  apply_all-bulk user_name [] [] h d = refl
  apply_all-bulk user_name [] (n ∷ ns) h d = elim h [ ]
  apply_all-bulk user_name (g ∷ gs) [] h d = elim h [ ]
  apply_all-bulk user_name (g ∷ gs) (n ∷ ns) h d =
      let u = hash_name P user_name (some n) in
      let s = signature_of P (remove_member u g) in
      let o = taken_out P user_name g n in
      let ds = map (group_document P) gs in
      ap
        (λ b. apply_all (bulk P user_name gs ns) (elim b [
          | true ↦ apply_update o.1 (group_document P g) ∷ ds
          | false ↦ group_document P g ∷ update_first (asks o.0) (apply_update o.1) ds
        ]))
        (asks-group_document P g)
      ∙ ap (λ x. apply_all (bulk P user_name gs ns) (x ∷ ds))
          (apply_update-pull g (signature_of P g) s u)
      ∙ apply_all-Elsewhere user_name gs ns (remove_member u g) s ds d.0
      ∙ ap (λ ds. group_document P (remove_member u g) ∷ ds)
          (apply_all-bulk user_name gs ns h.1 d.1)
