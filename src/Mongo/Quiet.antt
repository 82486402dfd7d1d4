-- ===== src/Mongo/Quiet.antt =====
-- The loops of `add_user_to_group` and `remove_user_from_group` on a quiet platform: the first round does
-- what there is to do, and the second one finds nothing more.
use mongo_sgx_client.Base.{
  ℕ, suc, ◌≡◌, refl, sym, ◌∙◌, ap, Bool, true, false, Bytes, List, [], ◌∷◌, ◌++◌, none, some, codes,
  map, length, arith, done, Option-cases, inl, inr,
}
use mongo_sgx_client.Mongo.Bson.{Document, eqb_refl}
use mongo_sgx_client.Mongo.Platform.{
  Platform, BsonError, users_collection, groups_collection, Selector, equals, Change, Update, value,
  int32, matched,
}
use mongo_sgx_client.Mongo.Signature.{
  Additional, same_hash, compute_group_signature, validate_group_signature,
}
use mongo_sgx_client.Mongo.Users.{first_document}
use mongo_sgx_client.Mongo.Rounds.{nothing_to_do, missed, update_found, round_on, round, attempt}
use mongo_sgx_client.Mongo.First.{
  filter, first, update_first, any, head, head-filter, first-map, update_first-narrow,
  update_first-map, first-none, update_first-none, first_holds,
}
use mongo_sgx_client.Mongo.Server.{IsQuiet, cursor_on, selects, apply_update}
use mongo_sgx_client.Mongo.Server.Groups.{selects-snoc, path_is-signature}
use mongo_sgx_client.Mongo.Spec.{
  Group, signed_document, group_document, signature_of, validate-signed, signature_found,
}

pub first_document-cursor_on : (ds : List Document) → first_document (cursor_on ds) ≡ head ds
unfolding first_document
first_document-cursor_on [] = refl
first_document-cursor_on (d ∷ ds) = refl

pub same_hash_refl : (h : Bytes) → length h ≡ 32 → same_hash h h ≡ true
same_hash_refl h e = ground (arith, e, eqb_refl h)

narrow :
    (c : Selector) (s : Bytes) (d : Document)
    → selects c d ≡ false
    → selects (c ++ equals (codes "signature") s ∷ []) d ≡ false
narrow c s d h = ground (arith, h, selects-snoc c (equals (codes "signature") s) d)

module _ (P : Platform) (Q : IsQuiet P) where
  -- The database holds these groups, each with its signature.
  abbrev pub Holds : List Group → P.World → Type 0
  Holds gs w = Q.documents groups_collection w ≡ map (group_document P) gs

  pub validate-group_document :
      (g : Group) → validate_group_signature P (group_document P g) ≡ done true
  validate-group_document g =
      validate-signed P g (signature_of P g)
      ∙ ap done (same_hash_refl (signature_of P g) (Q.length-hmac256 _ _))

module _ (P : Platform) (Q : IsQuiet P) (c : Selector) (a : Additional) (change : Change)
    (wrong : BsonError) (q : Group → Bool) (f : Group → Group)
    (selected : (g : Group) (s : Bytes) → selects c (signed_document g s) ≡ q g)
    (signed : (g : Group) (s : Bytes)
      → compute_group_signature P (signed_document g s) a ≡ done (signature_of P (f g)))
    (changed : (g : Group) (s t : Bytes)
      → apply_update (record { change = change; signature = t }) (signed_document g s)
        ≡ signed_document (f g) t) where
  -- The update that is sent for a group.
  sent : Group → Update
  sent g = record { change = change; signature = signature_of P (f g) }

  -- The selector that it is sent with.
  abbrev strict : Group → Selector
  strict g = c ++ equals (codes "signature") (signature_of P g) ∷ []

  -- The count that the driver gives is not read as one.
  update_found-sent :
      (g : Group) (n : ℕ) (w : P.World)
      → let r = P.update_one groups_collection (strict g) (sent g) w in
        r.1 ≡ matched (int32 n)
        → update_found P c a change wrong (group_document P g) w ≡ (r.0, value missed)
  unfolding update_found sent
  update_found-sent g n w e =
      rw
        (
          update_found,
          validate-group_document P Q g,
          signature_found g (signature_of P g),
          signed g (signature_of P g),
          e,
          Q.iter_int64_int32 n,
        )
        refl

  picture :
      (gs : List Group)
      → first (selects c) (map (group_document P) gs)
        ≡ elim (first q gs) [ none ↦ none | some g ↦ some (group_document P g) ]
  picture gs = first-map (group_document P) (selects c) q gs (λ g. selected g (signature_of P g))

  strict_found :
      (g : Group)
      → selects c (group_document P g) ≡ true
      → selects (strict g) (group_document P g) ≡ true
  strict_found g h =
      let s = signature_of P g in
      ground (
        arith,
        h,
        selects-snoc c (equals (codes "signature") s) (group_document P g),
        path_is-signature g s s,
        eqb_refl s,
      )

  module _ (gs : List Group) (w : P.World) (docs : Holds P Q gs w) where
    found : P.World
    found = (P.find_with_opts groups_collection c w).0

    found-Holds : Holds P Q gs found
    unfolding found
    found-Holds = Q.documents-find groups_collection groups_collection c w ∙ docs

    answer :
        first_document (P.find_with_opts groups_collection c w).1
        ≡ elim (first q gs) [ none ↦ none | some g ↦ some (group_document P g) ]
    answer =
        ap first_document (Q.find_answer groups_collection c w)
        ∙ first_document-cursor_on (filter (selects c) (Q.documents groups_collection w))
        ∙ ap (λ ds. head (filter (selects c) ds)) docs
        ∙ head-filter (selects c) (map (group_document P) gs)
        ∙ picture gs

    round-none : first q gs ≡ none → round P c a change wrong w ≡ (found, value nothing_to_do)
    unfolding round round_on found
    round-none e =
        let h : first_document (P.find_with_opts groups_collection c w).1 ≡ none =
          answer ∙ rw e refl in
        ap (λ o. round_on P c a change wrong o found) h

    module _ (g : Group) (e : first q gs ≡ some g) where
      after : P.World
      unfolding found
      after = (P.update_one groups_collection (strict g) (sent g) found).0

      document_first : first (selects c) (map (group_document P) gs) ≡ some (group_document P g)
      document_first = picture gs ∙ rw e refl

      chosen : selects c (group_document P g) ≡ true
      chosen =
          first_holds (selects c) (map (group_document P) gs) (group_document P g) document_first

      round-some : round P c a change wrong w ≡ (after, value missed)
      unfolding round round_on after found
      round-some =
          let h : first_document (P.find_with_opts groups_collection c w).1
              ≡ some (group_document P g) =
            answer ∙ rw e refl in
          ap (λ o. round_on P c a change wrong o found) h
          ∙ update_found-sent g _ found
              (Q.update_answer groups_collection (strict g) (sent g) found)

      after-Holds : Holds P Q (update_first q f gs) after
      unfolding after sent
      after-Holds =
          Q.documents-update groups_collection groups_collection (strict g) (sent g) found
          ∙ ap (update_first (selects (strict g)) (apply_update (sent g))) found-Holds
          ∙ update_first-narrow (selects c) (selects (strict g)) (apply_update (sent g))
              (map (group_document P) gs) (group_document P g) (narrow c (signature_of P g))
              document_first (strict_found g chosen)
          ∙ update_first-map (group_document P) (selects c) q (apply_update (sent g)) f gs g
              (λ y. selected y (signature_of P y)) e
              (changed g (signature_of P g) (signature_of P (f g)))

      after-users : Q.documents users_collection after ≡ Q.documents users_collection w
      unfolding after found
      after-users =
          Q.documents-update groups_collection users_collection (strict g) (sent g) found
          ∙ Q.documents-find groups_collection users_collection c w

    found-users : Q.documents users_collection found ≡ Q.documents users_collection w
    unfolding found
    found-users = Q.documents-find groups_collection users_collection c w

  -- A loop that finds no group ends in its first round,
  attempt-none :
      (n : ℕ) (unable : BsonError) (gs : List Group) (w : P.World) (docs : Holds P Q gs w)
      → first q gs ≡ none
      → attempt P (suc n) c a change wrong unable w ≡ (found gs w docs, value tt)
  unfolding attempt
  attempt-none n unable gs w docs e = rw (round-none gs w docs e) refl

  module _ (gs : List Group) (w : P.World) (docs : Holds P Q gs w) where
    -- and the whole loop, with two attempts left or more, in its second one at the latest, if it is one
    -- group at most that there is to change.
    pub attempt-Holds :
        (n : ℕ) (unable : BsonError)
        → any q (update_first q f gs) ≡ false
        → (v : P.World) × (attempt P (suc (suc n)) c a change wrong unable w ≡ (v, value tt))
          × Holds P Q (update_first q f gs) v
          × (Q.documents users_collection v ≡ Q.documents users_collection w)
    unfolding attempt
    attempt-Holds n unable single = elim (Option-cases (first q gs)) [
      | inl e ↦ (
        found gs w docs,
        attempt-none (suc n) unable gs w docs e,
        found-Holds gs w docs ∙ ap (map (group_document P)) (sym (update_first-none q f gs e)),
        found-users gs w docs,
      )
      | inr (g, e) ↦
          let gs' = update_first q f gs in
          let w' = after gs w docs g e in
          let docs' : Holds P Q gs' w' = after-Holds gs w docs g e in
          (
            found gs' w' docs',
            rw (round-some gs w docs g e)
                (attempt-none n unable gs' w' docs' (first-none q gs' single)),
            found-Holds gs' w' docs',
            found-users gs' w' docs' ∙ after-users gs w docs g e,
          )
    ]
