-- ===== src/Mongo/Bson.antt =====
-- The documents that trusted/MongoDatabase.cpp reads and writes: fields in their order, each with a
-- key. A binary value and an array of documents are what the code looks into; any other value is kept
-- as its bytes. An entry of an array that is no document has no fields.
use mongo_sgx_client.Base.{
  ◌≡◌, refl, ap₂, Bool, true, false, ◌&&◌, Bytes, List, [], ◌∷◌, Option, none, some, arith, ◌==◌,
  Run, done, fault, Bool-cases, inl, inr,
}

pub data Scalar : Type 0 where
  binary : Bytes → Scalar
  other : Bytes → Scalar

abbrev pub Entry : Type 0
Entry = List (Bytes × Scalar)

pub data Value : Type 0 where
  scalar : Scalar → Value
  array : List Entry → Value

abbrev pub Document : Type 0
Document = List (Bytes × Value)

-- memcmp of two byte strings of one length, and false for different lengths.
unfoldable pub eqb : Bytes → Bytes → Bool
eqb [] [] = true
eqb [] (y ∷ ys) = false
eqb (x ∷ xs) [] = false
eqb (x ∷ xs) (y ∷ ys) = x == y && eqb xs ys

-- `bson_iter_find`: the value of the next field with the key, and the fields behind it.
unfoldable pub seek {ℓ} : {V : Type ℓ} → Bytes → List (Bytes × V) → Option (V × List (Bytes × V))
seek k [] = none
seek k ((j, v) ∷ fields) = elim (eqb j k) [ true ↦ some (v, fields) | false ↦ seek k fields ]

-- `bson_iter_binary`: a value of another type gives no bytes.
abbrev pub scalar_bytes : Scalar → Bytes
scalar_bytes (binary b) = b
scalar_bytes (other b) = []

abbrev pub value_bytes : Value → Bytes
value_bytes (scalar s) = scalar_bytes s
value_bytes (array es) = []

abbrev pub scalar_binary : Scalar → Run Bytes
scalar_binary s = done (scalar_bytes s)

abbrev pub value_binary : Value → Run Bytes
value_binary v = done (value_bytes v)

-- `bson_iter_recurse` into the array of users.
abbrev pub value_array : Value → Run (List Entry)
value_array (scalar s) = fault
value_array (array es) = done es

-- `bson_iter_init_find` and `bson_iter_binary`: the iterator of a missing field points nowhere.
unfoldable pub find_binary : Bytes → Document → Run Bytes
find_binary k d = elim (seek k d) [ none ↦ fault | some (v, rest) ↦ value_binary v ]

pub eqb_refl : (x : Bytes) → eqb x x ≡ true
unfolding eqb
eqb_refl [] = refl
eqb_refl (x ∷ xs) = ground (arith, eqb_refl xs)

pub eqb→eq : (x y : Bytes) → eqb x y ≡ true → x ≡ y
unfolding eqb
eqb→eq [] [] h = refl
eqb→eq [] (y ∷ ys) h = absurd (cc)
eqb→eq (x ∷ xs) [] h = absurd (cc)
eqb→eq (x ∷ xs) (y ∷ ys) h = elim (Bool-cases (x == y)) [
  | inl same ↦
      let head : x ≡ y = ground (arith, same) in
      let rest : eqb xs ys ≡ true = ground (arith, same, h) in
      ap₂ (λ a b. a ∷ b) head (eqb→eq xs ys rest)
  | inr distinct ↦ absurd (ground (arith, distinct, h))
]

pub eqb-sym : (x y : Bytes) → eqb x y ≡ eqb y x
unfolding eqb
eqb-sym [] [] = refl
eqb-sym [] (y ∷ ys) = refl
eqb-sym (x ∷ xs) [] = refl
eqb-sym (x ∷ xs) (y ∷ ys) = ground (arith, eqb-sym xs ys)
