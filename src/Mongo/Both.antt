-- ===== src/Mongo/Both.antt =====
-- Two lists whose entries are related one by one.
use mongo_sgx_client.Base.{
  ◌≡◌, refl, sym, ◌∙◌, Bool, true, false, List, [], ◌∷◌, ◌++◌, none, some, arith, Bool-cases, inl,
  inr, ◌⊎◌,
}
use mongo_sgx_client.Mongo.First.{filter, first, update_first, remove_first, any}

module _ {ℓ κ} {A : Type ℓ} {B : Type κ} where
  abbrev pub Both : (A → B → Type 0) → List A → List B → Type 0
  Both R [] [] = Unit
  Both R [] (y ∷ ys) = ⊥
  Both R (x ∷ xs) [] = ⊥
  Both R (x ∷ xs) (y ∷ ys) = R x y × Both R xs ys

module _ {ℓ κ} {A : Type ℓ} {B : Type κ} (R : A → B → Type 0) where
  pub Both-append_one :
      (xs : List A) (ys : List B) (x : A) (y : B)
      → Both R xs ys
      → R x y
      → Both R (xs ++ x ∷ []) (ys ++ y ∷ [])
  Both-append_one [] [] x y h r = (r, tt)
  Both-append_one [] (b ∷ ys) x y h r = elim h [ ]
  Both-append_one (a ∷ xs) [] x y h r = elim h [ ]
  Both-append_one (a ∷ xs) (b ∷ ys) x y h r = (h.0, Both-append_one xs ys x y h.1 r)

  -- Tests that agree on related entries.
  module _ (p : A → Bool) (q : B → Bool) (agree : (x : A) (y : B) → R x y → p x ≡ q y) where
    pub Both-any : (xs : List A) (ys : List B) → Both R xs ys → any p xs ≡ any q ys
    Both-any [] [] h = refl
    Both-any [] (y ∷ ys) h = elim h [ ]
    Both-any (x ∷ xs) [] h = elim h [ ]
    Both-any (x ∷ xs) (y ∷ ys) h = ground (arith, agree x y h.0, Both-any xs ys h.1)

    -- The first entries that pass are related.
    pub Both-first :
        (xs : List A) (ys : List B)
        → Both R xs ys
        → ((first p xs ≡ none) × (first q ys ≡ none))
          ⊎ ((x : A) × (y : B) × (first p xs ≡ some x) × (first q ys ≡ some y) × R x y)
    Both-first [] [] h = inl (refl, refl)
    Both-first [] (y ∷ ys) h = elim h [ ]
    Both-first (x ∷ xs) [] h = elim h [ ]
    Both-first (x ∷ xs) (y ∷ ys) h = elim (Bool-cases (p x)) [
      | inl passes ↦
          let passes' : q y ≡ true = sym (agree x y h.0) ∙ passes in
          inr (x, y, rw (first, passes) refl, rw (first, passes') refl, h.0)
      | inr fails ↦
          let fails' : q y ≡ false = sym (agree x y h.0) ∙ fails in
          rw (first, fails, fails') (Both-first xs ys h.1)
    ]

    pub Both-update_first :
        (f : A → A) (g : B → B)
        → ((x : A) (y : B) → R x y → R (f x) (g y))
        → (xs : List A) (ys : List B) → Both R xs ys
        → Both R (update_first p f xs) (update_first q g ys)
    Both-update_first f g keep [] [] h = tt
    Both-update_first f g keep [] (y ∷ ys) h = elim h [ ]
    Both-update_first f g keep (x ∷ xs) [] h = elim h [ ]
    Both-update_first f g keep (x ∷ xs) (y ∷ ys) h = elim (Bool-cases (p x)) [
      | inl passes ↦
          let passes' : q y ≡ true = sym (agree x y h.0) ∙ passes in
          rw (Both, passes, passes') (keep x y h.0, h.1)
      | inr fails ↦
          let fails' : q y ≡ false = sym (agree x y h.0) ∙ fails in
          rw (Both, fails, fails') (h.0, Both-update_first f g keep xs ys h.1)
    ]

    pub Both-remove_first :
        (xs : List A) (ys : List B) → Both R xs ys → Both R (remove_first p xs) (remove_first q ys)
    Both-remove_first [] [] h = tt
    Both-remove_first [] (y ∷ ys) h = elim h [ ]
    Both-remove_first (x ∷ xs) [] h = elim h [ ]
    Both-remove_first (x ∷ xs) (y ∷ ys) h = elim (Bool-cases (p x)) [
      | inl passes ↦
          let passes' : q y ≡ true = sym (agree x y h.0) ∙ passes in
          rw (remove_first, passes, passes') h.1
      | inr fails ↦
          let fails' : q y ≡ false = sym (agree x y h.0) ∙ fails in
          rw (Both, fails, fails') (h.0, Both-remove_first xs ys h.1)
    ]

    pub Both-filter :
        (xs : List A) (ys : List B) → Both R xs ys → Both R (filter p xs) (filter q ys)
    Both-filter [] [] h = tt
    Both-filter [] (y ∷ ys) h = elim h [ ]
    Both-filter (x ∷ xs) [] h = elim h [ ]
    Both-filter (x ∷ xs) (y ∷ ys) h = elim (Bool-cases (p x)) [
      | inl passes ↦
          let passes' : q y ≡ true = sym (agree x y h.0) ∙ passes in
          rw (Both, passes, passes') (h.0, Both-filter xs ys h.1)
      | inr fails ↦
          let fails' : q y ≡ false = sym (agree x y h.0) ∙ fails in
          rw (filter, fails, fails') (Both-filter xs ys h.1)
    ]
