-- ===== src/Mongo/Shared/Rounds.antt =====
-- The loops of `add_user_to_group` and `remove_user_from_group` on a collection that others change too.
use mongo_sgx_client.Base.{
  ℕ, zero, suc, ◌≡◌, refl, sym, ◌∙◌, ap, subst, Bool, true, Bytes, List, [], ◌∷◌, ◌++◌, none, some,
  codes, map, arith, done, Option-cases, inl, inr, All,
}
use mongo_sgx_client.Mongo.Bson.{eqb, eqb→eq}
use mongo_sgx_client.Mongo.Platform.{
  Platform, BsonError, groups_collection, Selector, equals, Change, Update, Result, value, int32,
  matched,
}
use mongo_sgx_client.Mongo.Signature.{Additional, compute_group_signature, validate_group_signature}
use mongo_sgx_client.Mongo.Users.{first_document}
use mongo_sgx_client.Mongo.Rounds.{nothing_to_do, missed, update_found, round_on, round, attempt}
use mongo_sgx_client.Mongo.First.{
  filter, first, update_first, head, head-filter, first-map, any-none, update_first-map,
  update_first-none, first_holds,
}
use mongo_sgx_client.Mongo.Server.{selects, apply_update}
use mongo_sgx_client.Mongo.Server.Groups.{selects-snoc, path_is-signature}
use mongo_sgx_client.Mongo.Spec.{
  Group, signed_document, group_document, signature_of, validate-signed, signature_found,
}
use mongo_sgx_client.Mongo.Quiet.{first_document-cursor_on, same_hash_refl}
use mongo_sgx_client.Mongo.Shared.Firsts.{first-split, All-update_first, All-first}
use mongo_sgx_client.Mongo.Shared.{
  IsShared, TellsFields, Contains, found, has_still, Settles, gave_up, none_left, one_changed,
  missed_all,
}

module _ (P : Platform) (InUse : Group → Type 0) (S : IsShared P InUse)
    (tells : TellsFields P InUse) (c : Selector) (a : Additional) (change : Change)
    (wrong : BsonError) (q : Group → Bool) (f : Group → Group)
    (selected : (g : Group) (s : Bytes) → selects c (signed_document g s) ≡ q g)
    (signed : (g : Group) (s : Bytes)
      → compute_group_signature P (signed_document g s) a ≡ done (signature_of P (f g)))
    (changed : (g : Group) (s t : Bytes)
      → apply_update (record { change = change; signature = t }) (signed_document g s)
        ≡ signed_document (f g) t)
    (same_fields : (g g' : Group)
      → g.name ≡ g'.name
      → g.encname ≡ g'.encname
      → g.members ≡ g'.members
      → signature_of P (f g) ≡ signature_of P (f g'))
    (stays : (g : Group) → InUse g → q g ≡ true → InUse (f g)) where
  -- The update that is sent for a group, and its selector.
  sent : Group → Update
  sent g = record { change = change; signature = signature_of P (f g) }

  abbrev strict : Group → Selector
  strict g = c ++ equals (codes "signature") (signature_of P g) ∷ []

  -- The groups that it selects.
  abbrev strictly : Group → Group → Bool
  strictly g g' = has_still P InUse S q g g'

  strictly-q : (g g' : Group) → strictly g g' ≡ true → q g' ≡ true
  strictly-q g g' h = ground (arith, h)

  selects-strict : (g g' : Group) → selects (strict g) (group_document P g') ≡ strictly g g'
  selects-strict g g' =
      let s = signature_of P g in
      ground (
        arith,
        selected g' (signature_of P g'),
        selects-snoc c (equals (codes "signature") s) (group_document P g'),
        path_is-signature g' (signature_of P g') s,
      )

  validate-group_document :
      (g : Group) → validate_group_signature P (group_document P g) ≡ done true
  validate-group_document g =
      validate-signed P g (signature_of P g)
      ∙ ap done (same_hash_refl (signature_of P g) (S.length-hmac256 _ _))

  -- A group that the update finds has the fields of the one that was read, and gets the signature that
  -- belongs to it.
  update-signs :
      (g g' : Group)
      → InUse g
      → InUse g'
      → strictly g g' ≡ true
      → apply_update (sent g) (group_document P g') ≡ group_document P (f g')
  unfolding sent
  update-signs g g' used used' h =
      let same : eqb (signature_of P g') (signature_of P g) ≡ true = ground (arith, h) in
      let (name, encname, members) = tells g g' used used' (sym (eqb→eq _ _ same)) in
      changed g' (signature_of P g') (signature_of P (f g))
      ∙ ap (signed_document (f g')) (same_fields g g' name encname members)

  update_found-sent :
      (g : Group) (w : P.World) (n : ℕ)
      → let r = P.update_one groups_collection (strict g) (sent g) w in
        r.1 ≡ matched (int32 n)
        → update_found P c a change wrong (group_document P g) w ≡ (r.0, value missed)
  unfolding update_found sent
  update_found-sent g w n e =
      rw
        (
          update_found,
          validate-group_document g,
          signature_found g (signature_of P g),
          signed g (signature_of P g),
          e,
          S.iter_int64_int32 n,
        )
        refl

  -- What the search gives, on the groups that others have left.
  answer :
      (gs : List Group) (w : P.World)
      → S.documents (S.others w) ≡ map (group_document P) gs
      → first_document (P.find_with_opts groups_collection c w).1
        ≡ elim (first q gs) [ none ↦ none | some g ↦ some (group_document P g) ]
  answer gs w docs =
      ap first_document (S.find_answer c w)
      ∙ first_document-cursor_on (filter (selects c) (S.documents (S.others w)))
      ∙ ap (λ ds. head (filter (selects c) ds)) docs
      ∙ head-filter (selects c) (map (group_document P) gs)
      ∙ first-map (group_document P) (selects c) q gs (λ g. selected g (signature_of P g))

  module _ (w : P.World) where
    sent_to : Group → P.World
    sent_to g = (P.update_one groups_collection (strict g) (sent g) (found P InUse S c w)).0

    round-none :
        first_document (P.find_with_opts groups_collection c w).1 ≡ none
        → round P c a change wrong w ≡ ((found P InUse S c w), value nothing_to_do)
    unfolding round round_on
    round-none e = ap (λ o. round_on P c a change wrong o (found P InUse S c w)) e

    round-some :
        (g : Group)
        → first_document (P.find_with_opts groups_collection c w).1 ≡ some (group_document P g)
        → round P c a change wrong w ≡ (sent_to g, value missed)
    unfolding round round_on sent_to
    round-some g e =
        ap (λ o. round_on P c a change wrong o (found P InUse S c w)) e
        ∙ update_found-sent g _ _ (S.update_answer (strict g) (sent g) (found P InUse S c w))

    -- Nobody's group has the signature still: nothing changes.
    sent_to-none :
        (g : Group) (gs : List Group)
        → S.documents (S.others (found P InUse S c w)) ≡ map (group_document P) gs
        → first (strictly g) gs ≡ none
        → S.documents (sent_to g) ≡ map (group_document P) gs
    unfolding sent_to
    sent_to-none g gs docs e =
        S.documents-update (strict g) (sent g) (found P InUse S c w)
        ∙ ap (update_first (selects (strict g)) (apply_update (sent g))) docs
        ∙ update_first-none (selects (strict g)) (apply_update (sent g)) (map (group_document P) gs)
            (first-map (group_document P) (selects (strict g)) (strictly g) gs (selects-strict g)
              ∙ rw e refl)

    sent_to-some :
        (g g' : Group) (gs : List Group)
        → S.documents (S.others (found P InUse S c w)) ≡ map (group_document P) gs
        → first (strictly g) gs ≡ some g'
        → InUse g
        → InUse g'
        → S.documents (sent_to g) ≡ map (group_document P) (update_first (strictly g) f gs)
    unfolding sent_to
    sent_to-some g g' gs docs e used used' =
        S.documents-update (strict g) (sent g) (found P InUse S c w)
        ∙ ap (update_first (selects (strict g)) (apply_update (sent g))) docs
        ∙ update_first-map (group_document P) (selects (strict g)) (strictly g)
            (apply_update (sent g)) f gs g' (selects-strict g) e
            (update-signs g g' used used' (first_holds (strictly g) gs g' e))

  -- The loop, with any number of attempts left.
  pub attempt-Settles :
      (n : ℕ) (unable : BsonError) (gs : List Group) (w : P.World)
      → Contains P InUse S gs w
      → Settles P InUse S c q f unable n w (attempt P n c a change wrong unable w)
  unfolding attempt sent_to
  attempt-Settles zero unable gs w held = gave_up w
  attempt-Settles (suc n) unable gs w held =
      let (gs1, docs1, used1) = S.others_keep w gs held.0 held.1 in
      let u = found P InUse S c w in
      let now : S.documents u ≡ map (group_document P) gs1 = S.documents-find c w ∙ docs1 in
      let gave = answer gs1 w docs1 in
      let whole : P.World × Result (Unit {0}) → Type 0 =
        λ r. Settles P InUse S c q f unable (suc n) w r in
      elim (Option-cases (first q gs1)) [
        | inl e ↦
            subst whole (sym (rw (round-none w (gave ∙ rw e refl)) refl))
              (none_left n w gs1 (docs1, used1) (now, used1) (any-none q gs1 e))
        | inr (g, e) ↦
            let used : InUse g = All-first InUse q gs1 g used1 e in
            let (gs2, docs2, used2) = S.others_keep u gs1 now used1 in
            let v = sent_to w g in
            let rest = attempt P n c a change wrong unable v in
            let same : attempt P (suc n) c a change wrong unable w ≡ rest =
              rw (round-some w g (gave ∙ rw e refl)) refl in
            subst whole (sym same) (elim (Option-cases (first (strictly g) gs2)) [
              | inl none_there ↦
                  let after : Contains P InUse S gs2 v =
                    (sent_to-none w g gs2 docs2 none_there, used2) in
                  missed_all n w gs1 gs2 g (strict g) (sent g) rest (docs1, used1) e (docs2, used2)
                    (any-none (strictly g) gs2 none_there) after
                    (attempt-Settles n unable gs2 v after)
              | inr (g', there) ↦
                  let used' : InUse g' = All-first InUse (strictly g) gs2 g' used2 there in
                  let (front, behind, before, changed_so, first_one) =
                    first-split (strictly g) f gs2 g' there in
                  let after : Contains P InUse S (front ++ f g' ∷ behind) v = (
                    sent_to-some w g g' gs2 docs2 there used used'
                        ∙ ap (map (group_document P)) changed_so,
                    subst (All InUse) changed_so (
                        All-update_first InUse (strictly g) f gs2
                          (λ x used_x h. stays x used_x (strictly-q g x h)) used2),
                  ) in
                  one_changed n w gs1 front behind g g' (strict g) (sent g) rest (docs1, used1) e
                    (docs2 ∙ ap (map (group_document P)) before, subst (All InUse) before used2)
                    (first_holds (strictly g) gs2 g' there) first_one after
                    (attempt-Settles n unable (front ++ f g' ∷ behind) v after)
            ])
      ]
