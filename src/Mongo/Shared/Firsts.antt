-- ===== src/Mongo/Shared/Firsts.antt =====
-- The first group of a list that passes a test, among groups that all have a property.
use mongo_sgx_client.Base.{
  ◌≡◌, refl, ap, subst, Bool, true, false, List, [], ◌∷◌, ◌++◌, some, arith, Bool-cases, inl, inr,
  All,
}
use mongo_sgx_client.Mongo.First.{first, update_first, any}
use mongo_sgx_client.Mongo.Spec.{Group}

-- The first entry that passes stands between others, and a change there leaves them.
pub first-split :
    (q : Group → Bool) (f : Group → Group) (xs : List Group) (x : Group)
    → first q xs ≡ some x
    → (front : List Group) × (behind : List Group) × (xs ≡ front ++ x ∷ behind)
      × (update_first q f xs ≡ front ++ f x ∷ behind)
      × (any q front ≡ false)
first-split q f [] x e = absurd (cc e)
first-split q f (y ∷ xs) x e = elim (Bool-cases (q y)) [
  | inl passes ↦
      let same : y ≡ x = ground (arith, passes, e) in
      ([], xs, ap (λ z. z ∷ xs) same, ground (arith, passes, ap (λ z. f z ∷ xs) same), refl)
  | inr fails ↦
      let (front, behind, there, changed, before) =
        first-split q f xs x (ground (arith, fails, e)) in
      (
        y ∷ front,
        behind,
        ap (λ z. y ∷ z) there,
        ground (arith, fails, ap (λ z. y ∷ z) changed),
        ground (arith, fails, before),
      )
]

pub All-update_first :
    (InUse : Group → Type 0) (q : Group → Bool) (f : Group → Group) (xs : List Group)
    → ((g : Group) → InUse g → q g ≡ true → InUse (f g))
    → All InUse xs
    → All InUse (update_first q f xs)
All-update_first InUse q f [] h k = tt
All-update_first InUse q f (x ∷ xs) h k = elim (Bool-cases (q x)) [
  | inl passes ↦ rw (update_first, passes) (h x k.0 passes, k.1)
  | inr fails ↦ rw (update_first, fails) (k.0, All-update_first InUse q f xs h k.1)
]

pub All-first :
    (InUse : Group → Type 0) (q : Group → Bool) (xs : List Group) (x : Group)
    → All InUse xs
    → first q xs ≡ some x
    → InUse x
All-first InUse q [] x h e = absurd (cc e)
All-first InUse q (y ∷ xs) x h e = elim (Bool-cases (q y)) [
  | inl passes ↦ subst InUse (ground (arith, passes, e)) h.0
  | inr fails ↦ All-first InUse q xs x h.1 (ground (arith, fails, e))
]
