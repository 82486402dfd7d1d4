-- ===== src/Mongo/Authentic.antt =====
-- `get_keys_of_group` whatever the server answers: what is behind the keys that it returns.
use mongo_sgx_client.Base.{
  ◌≡◌, refl, Bytes, List, [], ◌∷◌, some, codes, length, Run, done, fault, Option-cases, inl, inr,
}
use mongo_sgx_client.Mongo.Bson.{Scalar, Entry, array, Document, seek, scalar_bytes}
use mongo_sgx_client.Mongo.Platform.{
  Platform, Result, value, thrown, undefined, Action, onward, pure_run,
}
use mongo_sgx_client.Mongo.Hashing.{aes_key, decrypt_data}
use mongo_sgx_client.Mongo.Reading.{key_size}

-- An action that returns a value has passed through its parts.
pub onward_value {ℓ κ} :
    {W : Type 0} {A : Type ℓ} {B : Type κ} (x : W × Result A) (f : A → Action W B) (v : W) (b : B)
    → onward x f ≡ (v, value b)
    → (a : A) × (u : W) × (x ≡ (u, value a)) × (f a u ≡ (v, value b))
onward_value (u, value a) f v b e = (a, u, refl, e)
onward_value (u, thrown e') f v b e = absurd (cc)
onward_value (u, undefined) f v b e = absurd (cc)

pub pure_run_value {ℓ} :
    {W : Type 0} {A : Type ℓ} (r : Run A) (w v : W) (a : A)
    → pure_run r w ≡ (v, value a)
    → r ≡ done a
pure_run_value (done b) w v a e = cc
pure_run_value fault w v a e = absurd (cc)

module _ (P : Platform) where
  -- The entry's key is a text that decrypts to these bytes, which are as many as a key has.
  abbrev pub Opens : Entry → Bytes → Type 0
  Opens e k =
      (text : Scalar) × (rest : Entry) × (seek (codes "key") e ≡ some (text, rest))
      × (P.decrypt_aesgcm aes_key (scalar_bytes text) ≡ some k)
      × (length k ≡ key_size)

  abbrev pub AllOpen : List Entry → List Bytes → Type 0
  AllOpen [] [] = Unit
  AllOpen [] (k ∷ ks) = ⊥
  AllOpen (e ∷ es) [] = ⊥
  AllOpen (e ∷ es) (k ∷ ks) = Opens e k × AllOpen es ks

  pub decrypt_data_value :
      (c k : Bytes) (w v : P.World)
      → decrypt_data P c w ≡ (v, value k)
      → P.decrypt_aesgcm aes_key c ≡ some k
  unfolding decrypt_data
  decrypt_data_value c k w v h = elim (Option-cases (P.decrypt_aesgcm aes_key c)) [
    | inl e ↦ let read = rw (decrypt_data, e) at h in absurd (cc)
    | inr (x, e) ↦ let read = rw (decrypt_data, e) at h in cc
  ]

  -- The document has these entries as its users.
  abbrev pub Users : Document → List Entry → Type 0
  Users d es = (rest : Document) × (seek (codes "users") d ≡ some (array es, rest))
