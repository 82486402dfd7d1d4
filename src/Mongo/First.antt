-- ===== src/Mongo/First.antt =====
-- The first entry of a list that passes a test.
use mongo_sgx_client.Base.{
  ◌≡◌, refl, ap, Bool, true, false, List, [], ◌∷◌, ◌++◌, Option, none, some, arith, map, Bool-cases,
  inl, inr,
}

module _ {ℓ} {A : Type ℓ} where
  abbrev pub filter : (A → Bool) → List A → List A
  filter p [] = []
  filter p (x ∷ xs) = elim (p x) [ true ↦ x ∷ filter p xs | false ↦ filter p xs ]

  abbrev pub first : (A → Bool) → List A → Option A
  first p [] = none
  first p (x ∷ xs) = elim (p x) [ true ↦ some x | false ↦ first p xs ]

  abbrev pub update_first : (A → Bool) → (A → A) → List A → List A
  update_first p f [] = []
  update_first p f (x ∷ xs) = elim (p x) [ true ↦ f x ∷ xs | false ↦ x ∷ update_first p f xs ]

  abbrev pub remove_first : (A → Bool) → List A → List A
  remove_first p [] = []
  remove_first p (x ∷ xs) = elim (p x) [ true ↦ xs | false ↦ x ∷ remove_first p xs ]

  abbrev pub any : (A → Bool) → List A → Bool
  any p [] = false
  any p (x ∷ xs) = elim (p x) [ true ↦ true | false ↦ any p xs ]

  abbrev pub head : List A → Option A
  head [] = none
  head (x ∷ xs) = some x

module _ {ℓ} {A : Type ℓ} where
  pub head-filter : (p : A → Bool) (xs : List A) → head (filter p xs) ≡ first p xs
  head-filter p [] = refl
  head-filter p (x ∷ xs) = ground (arith, head-filter p xs)

  pub first_holds : (p : A → Bool) (xs : List A) (x : A) → first p xs ≡ some x → p x ≡ true
  first_holds p [] x e = absurd (cc)
  first_holds p (y ∷ xs) x e = elim (Bool-cases (p y)) [
    | inl yes_y ↦ ground (arith, yes_y, e)
    | inr no_y ↦ first_holds p xs x (ground (arith, no_y, e))
  ]

  pub any-first : (p : A → Bool) (xs : List A) (x : A) → first p xs ≡ some x → any p xs ≡ true
  any-first p [] x e = absurd (cc)
  any-first p (y ∷ xs) x e = ground (arith, e, any-first p xs x)

  pub any-none : (p : A → Bool) (xs : List A) → first p xs ≡ none → any p xs ≡ false
  any-none p [] e = refl
  any-none p (y ∷ xs) e = ground (arith, e, any-none p xs)

  pub first-none : (p : A → Bool) (xs : List A) → any p xs ≡ false → first p xs ≡ none
  first-none p [] e = refl
  first-none p (y ∷ xs) e = ground (arith, e, first-none p xs)

  pub update_first-none :
      (p : A → Bool) (f : A → A) (xs : List A) → first p xs ≡ none → update_first p f xs ≡ xs
  update_first-none p f [] e = refl
  update_first-none p f (y ∷ xs) e = ground (arith, e, update_first-none p f xs)

  pub first-append_one :
      (p : A → Bool) (xs : List A) (x : A)
      → any p xs ≡ false
      → p x ≡ true
      → first p (xs ++ x ∷ []) ≡ some x
  first-append_one p [] x h k = ground (arith, k)
  first-append_one p (y ∷ xs) x h k = ground (arith, h, first-append_one p xs x)

  -- What is taken out does not stay.
  pub any-filter :
      (p q : A → Bool) (xs : List A)
      → ((x : A) → q x ≡ true → p x ≡ false)
      → any p (filter q xs) ≡ false
  any-filter p q [] h = refl
  any-filter p q (x ∷ xs) h = ground (arith, h x, any-filter p q xs h)

  pub any-append_one :
      (p : A → Bool) (xs : List A) (x : A) → p x ≡ true → any p (xs ++ x ∷ []) ≡ true
  any-append_one p [] x h = ground (arith, h)
  any-append_one p (y ∷ xs) x h = ground (arith, any-append_one p xs x h)

  -- A narrower test that the first entry passes finds it too,
  pub first-narrow :
      (p q : A → Bool) (xs : List A) (x : A)
      → ((y : A) → p y ≡ false → q y ≡ false)
      → first p xs ≡ some x
      → q x ≡ true
      → first q xs ≡ some x
  first-narrow p q [] x h e k = absurd (cc)
  first-narrow p q (y ∷ xs) x h e k = elim (Bool-cases (p y)) [
    | inl yes_y ↦ ground (arith, yes_y, e, k)
    | inr no_y ↦ ground (arith, no_y, h y no_y, first-narrow p q xs x h (ground (arith, no_y, e)) k)
  ]

  -- and changes it.
  pub update_first-narrow :
      (p q : A → Bool) (f : A → A) (xs : List A) (x : A)
      → ((y : A) → p y ≡ false → q y ≡ false)
      → first p xs ≡ some x
      → q x ≡ true
      → update_first q f xs ≡ update_first p f xs
  update_first-narrow p q f [] x h e k = refl
  update_first-narrow p q f (y ∷ xs) x h e k = elim (Bool-cases (p y)) [
    | inl yes_y ↦ ground (arith, yes_y, e, k)
    | inr no_y ↦
        ground (arith, no_y, h y no_y, update_first-narrow p q f xs x h (ground (arith, no_y, e)) k)
  ]

module _ {ℓ κ} {A : Type ℓ} {B : Type κ} where
  pub first-map :
      (g : A → B) (p : B → Bool) (q : A → Bool) (xs : List A)
      → ((x : A) → p (g x) ≡ q x)
      → first p (map g xs) ≡ elim (first q xs) [ none ↦ none | some x ↦ some (g x) ]
  first-map g p q [] h = refl
  first-map g p q (x ∷ xs) h = ground (arith, h x, first-map g p q xs h)

  -- A change that is that of the pictures at the first entry.
  pub update_first-map :
      (g : A → B) (p : B → Bool) (q : A → Bool) (f : B → B) (f' : A → A) (xs : List A) (x : A)
      → ((y : A) → p (g y) ≡ q y)
      → first q xs ≡ some x
      → f (g x) ≡ g (f' x)
      → update_first p f (map g xs) ≡ map g (update_first q f' xs)
  update_first-map g p q f f' [] x h e k = refl
  update_first-map g p q f f' (y ∷ xs) x h e k = elim (Bool-cases (q y)) [
    | inl yes_y ↦
        let same : y ≡ x = ground (arith, yes_y, e) in
        ground (arith, yes_y, h y, k, same, ap (λ z. f (g z)) same, ap (λ z. g (f' z)) same)
    | inr no_y ↦
        ground (arith, no_y, h y, update_first-map g p q f f' xs x h (ground (arith, no_y, e)) k)
  ]

  pub any-map :
      (g : A → B) (p : B → Bool) (q : A → Bool) (xs : List A)
      → ((x : A) → p (g x) ≡ q x)
      → any p (map g xs) ≡ any q xs
  any-map g p q [] h = refl
  any-map g p q (x ∷ xs) h = ground (arith, h x, any-map g p q xs h)

  pub map-append_one :
      (g : A → B) (xs : List A) (x : A) → map g (xs ++ x ∷ []) ≡ map g xs ++ g x ∷ []
  map-append_one g [] x = refl
  map-append_one g (y ∷ xs) x = ap (λ t. g y ∷ t) (map-append_one g xs x)

  pub remove_first-map :
      (g : A → B) (p : B → Bool) (q : A → Bool) (xs : List A)
      → ((x : A) → p (g x) ≡ q x)
      → remove_first p (map g xs) ≡ map g (remove_first q xs)
  remove_first-map g p q [] h = refl
  remove_first-map g p q (x ∷ xs) h = ground (arith, h x, remove_first-map g p q xs h)
