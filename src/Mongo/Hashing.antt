-- ===== src/Mongo/Hashing.antt =====
-- The keys of trusted/MongoDatabase.cpp and what is computed with them.
use mongo_sgx_client.Base.{ℕ, Bytes, [], ◌∷◌, Option, none, some}
use mongo_sgx_client.Mongo.Platform.{Platform, Action, return, throw, call, bson_error}

-- The bytes of the two keys.
abbrev pub hmac_key : Bytes
hmac_key =
    0x3c ∷ 0x4f ∷ 0xd3 ∷ 0x55 ∷ 0x3b ∷ 0x89 ∷ 0xa1 ∷ 0xf8 ∷ 0xfa ∷ 0xcb ∷ 0x3b ∷ 0xb7 ∷ 0x68 ∷ 0x2c
    ∷ 0x8c ∷ 0x4f ∷ 0x0a ∷ 0x69 ∷ 0x03 ∷ 0xde ∷ 0x7b ∷ 0x45 ∷ 0x8c ∷ 0x6a ∷ 0xd8 ∷ 0x7b ∷ 0x6b
    ∷ 0xe1 ∷ 0x3d ∷ 0x1b ∷ 0x96 ∷ 0x67 ∷ 0xe0 ∷ 0xb6 ∷ 0x47 ∷ 0xa7 ∷ 0xe4 ∷ 0x59 ∷ 0x5d ∷ 0x56
    ∷ 0xc8 ∷ 0xf1 ∷ 0x3a ∷ 0x34 ∷ 0x02 ∷ 0x79 ∷ 0xb9 ∷ 0xeb ∷ 0x61 ∷ 0xa0 ∷ 0x13 ∷ 0x87 ∷ 0xc2
    ∷ 0x34 ∷ 0x88 ∷ 0x05 ∷ 0xc1 ∷ 0xe4 ∷ 0x43 ∷ 0x36 ∷ 0x26 ∷ 0xaf ∷ 0xb0 ∷ 0x52 ∷ []

abbrev pub aes_key : Bytes
aes_key =
    0x11 ∷ 0x7e ∷ 0x15 ∷ 0xeb ∷ 0x33 ∷ 0x18 ∷ 0xde ∷ 0x37 ∷ 0x55 ∷ 0xd2 ∷ 0x21 ∷ 0x3a ∷ 0x79 ∷ 0x3d
    ∷ 0xaf ∷ 0x7a ∷ 0x81 ∷ 0x18 ∷ 0xc9 ∷ 0x11 ∷ 0x5f ∷ 0x35 ∷ 0x1d ∷ 0x06 ∷ 0x67 ∷ 0x6f ∷ 0xaa
    ∷ 0x6c ∷ 0x72 ∷ 0xc8 ∷ 0xea ∷ 0xfd ∷ []

-- HMAC_RESULT_LENGTH, the size of `hashed_t`.
abbrev pub hmac_result_length : ℕ
hmac_result_length = 32

module _ (P : Platform) where
  unfoldable pub hash_name : Bytes → Option Bytes → Bytes
  hash_name name none = P.hmac256 hmac_key (name ∷ [])
  hash_name name (some salt) = P.hmac256 hmac_key (name ∷ salt ∷ [])

  unfoldable pub encrypt_data : Bytes → Action P.World Bytes
  encrypt_data text w = call (P.encrypt_aesgcm aes_key text) w

  unfoldable pub decrypt_data : Bytes → Action P.World Bytes
  decrypt_data text w = elim (P.decrypt_aesgcm aes_key text) [
    | some plain ↦ return plain w
    | none ↦ throw (bson_error "Error decrypting data" 603) w
  ]

  unfoldable pub compute_hmac_2 : Bytes → Bytes → Bytes
  compute_hmac_2 element_1 element_2 = P.hmac256 hmac_key (element_1 ∷ element_2 ∷ [])

  unfoldable pub compute_user_signature : Bytes → Bytes → Bytes
  unfolding compute_hmac_2
  compute_user_signature hashed_user_name encrypted_user_key =
      compute_hmac_2 hashed_user_name encrypted_user_key
