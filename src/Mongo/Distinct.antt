-- ===== src/Mongo/Distinct.antt =====
-- The `_id` of groups.
use mongo_sgx_client.Base.{
  ◌≡◌, refl, sym, ◌∙◌, ap, Bool, false, Bytes, List, [], ◌∷◌, ◌++◌, arith, Bool-cases, inl, inr,
}
use mongo_sgx_client.Mongo.Bson.{eqb, eqb-sym, seek}
use mongo_sgx_client.Mongo.Platform.{Platform, groups_collection}
use mongo_sgx_client.Mongo.First.{any, any-map, update_first}
use mongo_sgx_client.Mongo.Server.{IsQuiet, id_of, has_id}
use mongo_sgx_client.Mongo.Spec.{Group, group_document}
use mongo_sgx_client.Mongo.Quiet.{Holds}

-- No group has this `_id`.
abbrev pub Elsewhere : Bytes → List Group → Type 0
Elsewhere id [] = Unit
Elsewhere id (g ∷ gs) = (eqb g.id id ≡ false) × Elsewhere id gs

-- No two groups have the same `_id`.
abbrev pub Distinct : List Group → Type 0
Distinct [] = Unit
Distinct (g ∷ gs) = Elsewhere g.id gs × Distinct gs

Elsewhere-any : (id : Bytes) (gs : List Group) → any (λ g. eqb g.id id) gs ≡ false → Elsewhere id gs
Elsewhere-any id [] h = tt
Elsewhere-any id (g ∷ gs) h = (ground (arith, h), Elsewhere-any id gs (ground (arith, h)))

-- The next `_id` is that of no group.
pub Elsewhere-new_id :
    (P : Platform) (Q : IsQuiet P) (gs : List Group) (w : P.World)
    → Holds P Q gs w
    → Elsewhere (Q.new_id w) gs
unfolding id_of seek eqb
Elsewhere-new_id P Q gs w docs =
    let i = Q.new_id w in
    Elsewhere-any i gs (
      sym (any-map (group_document P) (has_id i) (λ g. eqb g.id i) gs (λ g. refl))
      ∙ ap (any (has_id i)) (sym docs)
      ∙ Q.new_id_fresh groups_collection w)

pub Distinct-append_one :
    (gs : List Group) (g : Group) → Distinct gs → Elsewhere g.id gs → Distinct (gs ++ g ∷ [])
Distinct-append_one [] g d e = (tt, tt)
Distinct-append_one (x ∷ gs) g d e = (Elsewhere-append_one gs d.0, Distinct-append_one gs g d.1 e.1)
  where
    Elsewhere-append_one : (xs : List Group) → Elsewhere x.id xs → Elsewhere x.id (xs ++ g ∷ [])
    Elsewhere-append_one [] h = (eqb-sym g.id x.id ∙ e.0, tt)
    Elsewhere-append_one (y ∷ xs) h = (h.0, Elsewhere-append_one xs h.1)

-- A change that keeps the `_id`.
module _ (q : Group → Bool) (f : Group → Group) (keeps : (g : Group) → (f g).id ≡ g.id) where
  Elsewhere-update_first :
      (id : Bytes) (gs : List Group) → Elsewhere id gs → Elsewhere id (update_first q f gs)
  Elsewhere-update_first id [] e = tt
  Elsewhere-update_first id (g ∷ gs) e = elim (Bool-cases (q g)) [
    | inl first ↦ rw (Elsewhere, first) (ap (λ x. eqb x id) (keeps g) ∙ e.0, e.1)
    | inr later ↦ rw (Elsewhere, later) (e.0, Elsewhere-update_first id gs e.1)
  ]

  pub Distinct-update_first : (gs : List Group) → Distinct gs → Distinct (update_first q f gs)
  Distinct-update_first [] d = tt
  Distinct-update_first (g ∷ gs) d = elim (Bool-cases (q g)) [
    | inl first ↦ rw (Distinct, first) (rw (keeps g) d.0, d.1)
    | inr later ↦
        rw (Distinct, later) (Elsewhere-update_first g.id gs d.0, Distinct-update_first gs d.1)
  ]
