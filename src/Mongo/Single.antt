-- ===== src/Mongo/Single.antt =====
-- Groups of which no two have the same name, as the unique index of `init_indexes` asks for.
use mongo_sgx_client.Base.{
  ◌≡◌, refl, sym, ◌∙◌, ap, Bool, false, ◌&&◌, Bytes, List, [], ◌∷◌, ◌++◌, arith, Bool-cases, inl,
  inr,
}
use mongo_sgx_client.Mongo.Bson.{eqb, eqb→eq}
use mongo_sgx_client.Mongo.First.{update_first, any, any-filter}
use mongo_sgx_client.Mongo.Server.Groups.{is_named, has_member}
use mongo_sgx_client.Mongo.Distinct.{
  Elsewhere, Distinct, Distinct-append_one, Distinct-update_first,
}
use mongo_sgx_client.Mongo.Spec.{Group, is_member, is_other, remove_member}

-- No two groups have this name.
abbrev pub Single : Bytes → List Group → Type 0
Single h [] = Unit
Single h (g ∷ gs) = ((is_named h g && any (is_named h) gs) ≡ false) × Single h gs

-- No two groups have the same name.
abbrev pub NamesApart : List Group → Type 0
NamesApart gs = (h : Bytes) → Single h gs

any-weaker :
    (h : Bytes) (p : Group → Bool) (gs : List Group)
    → any (is_named h) gs ≡ false
    → any (λ g. is_named h g && p g) gs ≡ false
any-weaker h p [] e = refl
any-weaker h p (g ∷ gs) e = ground (arith, e, any-weaker h p gs)

-- Where the first group of the name that has a property loses it, none of the name has it.
pub any-update_first :
    (h : Bytes) (p : Group → Bool) (f : Group → Group)
    → ((g : Group) → p (f g) ≡ false)
    → (gs : List Group) → Single h gs
    → any (λ g. is_named h g && p g) (update_first (λ g. is_named h g && p g) f gs) ≡ false
any-update_first h p f gone [] s = refl
any-update_first h p f gone (g ∷ gs) s =
    ground (arith, s.0, any-weaker h p gs, gone g, any-update_first h p f gone gs s.1)

pub has_member-remove_member : (u : Bytes) (g : Group) → has_member u (remove_member u g) ≡ false
has_member-remove_member u g =
    any-filter (is_member u) (is_other u) g.members (λ m h. ground (arith, h))

any-update_first_named :
    (h : Bytes) (q : Group → Bool) (f : Group → Group)
    → ((g : Group) → (f g).name ≡ g.name)
    → (gs : List Group) → any (is_named h) (update_first q f gs) ≡ any (is_named h) gs
any-update_first_named h q f keeps [] = refl
any-update_first_named h q f keeps (g ∷ gs) = elim (Bool-cases (q g)) [
  | inl here ↦ rw (update_first, here, keeps g) refl
  | inr later ↦ ground (arith, later, any-update_first_named h q f keeps gs)
]

Single-update_first :
    (h : Bytes) (q : Group → Bool) (f : Group → Group)
    → ((g : Group) → (f g).name ≡ g.name)
    → (gs : List Group) → Single h gs
    → Single h (update_first q f gs)
Single-update_first h q f keeps [] s = tt
Single-update_first h q f keeps (g ∷ gs) s = elim (Bool-cases (q g)) [
  | inl here ↦
      rw (update_first, here) (ap (λ n. eqb n h && any (is_named h) gs) (keeps g) ∙ s.0, s.1)
  | inr later ↦
      rw (update_first, later)
        (
          ap (λ b. is_named h g && b) (any-update_first_named h q f keeps gs) ∙ s.0,
          Single-update_first h q f keeps gs s.1,
        )
]

any-append_other :
    (h : Bytes) (gs : List Group) (x : Group)
    → is_named h x ≡ false
    → any (is_named h) (gs ++ x ∷ []) ≡ any (is_named h) gs
any-append_other h [] x e = ground (arith, e)
any-append_other h (g ∷ gs) x e = ground (arith, any-append_other h gs x e)

Single-absent :
    (h : Bytes) (gs : List Group) (x : Group)
    → any (is_named h) gs ≡ false
    → Single h (gs ++ x ∷ [])
Single-absent h [] x e = (ground (arith), tt)
Single-absent h (g ∷ gs) x e = (ground (arith, e), Single-absent h gs x (ground (arith, e)))

Single-append_other :
    (h : Bytes) (gs : List Group) (x : Group)
    → is_named h x ≡ false
    → Single h gs
    → Single h (gs ++ x ∷ [])
Single-append_other h [] x e s = (ground (arith), tt)
Single-append_other h (g ∷ gs) x e s = (
  ap (λ b. is_named h g && b) (any-append_other h gs x e) ∙ s.0,
  Single-append_other h gs x e s.1,
)

NamesApart-append_one :
    (gs : List Group) (x : Group)
    → any (is_named x.name) gs ≡ false
    → NamesApart gs
    → NamesApart (gs ++ x ∷ [])
NamesApart-append_one gs x absent apart h = elim (Bool-cases (is_named h x)) [
  | inl here ↦
      Single-absent h gs x (ap (λ n. any (is_named n) gs) (sym (eqb→eq x.name h here)) ∙ absent)
  | inr other ↦ Single-append_other h gs x other (apart h)
]

NamesApart-update_first :
    (q : Group → Bool) (f : Group → Group)
    → ((g : Group) → (f g).name ≡ g.name)
    → (gs : List Group) → NamesApart gs
    → NamesApart (update_first q f gs)
NamesApart-update_first q f keeps gs apart h = Single-update_first h q f keeps gs (apart h)

-- No two groups have the same `_id` or the same name.
abbrev pub Apart : List Group → Type 0
Apart gs = Distinct gs × NamesApart gs

pub Apart-append_one :
    (gs : List Group) (x : Group)
    → any (is_named x.name) gs ≡ false
    → Elsewhere x.id gs
    → Apart gs
    → Apart (gs ++ x ∷ [])
Apart-append_one gs x absent elsewhere apart =
    (Distinct-append_one gs x apart.0 elsewhere, NamesApart-append_one gs x absent apart.1)

pub Apart-update_first :
    (q : Group → Bool) (f : Group → Group)
    → ((g : Group) → (f g).id ≡ g.id)
    → ((g : Group) → (f g).name ≡ g.name)
    → (gs : List Group) → Apart gs
    → Apart (update_first q f gs)
Apart-update_first q f same_id same_name gs apart =
    (Distinct-update_first q f same_id gs apart.0, NamesApart-update_first q f same_name gs apart.1)
