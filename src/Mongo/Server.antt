-- ===== src/Mongo/Server.antt =====
-- The documented behaviour of the server, the driver and the cryptographic functions, where nobody
-- else writes to the database and no call fails: what a selector selects, what an update changes, and
-- `IsQuiet`, the laws that the theorems assume of a platform.
pub mod Memory
pub mod Groups
use mongo_sgx_client.Base.{
  ℕ, ◌≡◌, refl, Bool, true, false, ◌&&◌, not, Bytes, List, [], ◌∷◌, ◌++◌, Option, none, some, codes,
  length, if◌then◌else◌, map,
}
use mongo_sgx_client.Mongo.Bson.{
  Scalar, binary, other, Entry, Value, scalar, array, Document, eqb, seek,
}
use mongo_sgx_client.Mongo.Platform.{
  Platform, BsonError, Collection, users_collection, groups_collection, Condition, Selector, equals,
  differs, Change, push, pull, Update, Cursor, Status, success, failure, UpdateStatus, matched,
  int32,
}
use mongo_sgx_client.Mongo.Hashing.{hmac_result_length}
use mongo_sgx_client.Mongo.Groups.{duplicate_key}
use mongo_sgx_client.Mongo.First.{filter, update_first, remove_first, any}

abbrev pub is_binary : Bytes → Scalar → Bool
is_binary x (binary b) = eqb b x
is_binary x (other b) = false

-- Is the entry's name this one?
unfoldable pub has_name : Bytes → Entry → Bool
has_name x e = elim (seek (codes "name") e) [ none ↦ false | some (v, rest) ↦ is_binary x v ]

abbrev pub value_is : Bytes → Value → Bool
value_is x (scalar s) = is_binary x s
value_is x (array es) = false

abbrev pub has_user : Bytes → Value → Bool
has_user x (scalar s) = false
has_user x (array es) = any (has_name x) es

-- Is the value at the path this one? A path into an array asks for one of its entries.
unfoldable pub path_is : Bytes → Bytes → Document → Bool
path_is path x d = elim (eqb path (codes "users.name")) [
  | true ↦ elim (seek (codes "users") d) [ none ↦ false | some (v, rest) ↦ has_user x v ]
  | false ↦ elim (seek path d) [ none ↦ false | some (v, rest) ↦ value_is x v ]
]

abbrev pub satisfies : Condition → Document → Bool
satisfies (equals path x) d = path_is path x d
satisfies (differs path x) d = not (path_is path x d)

abbrev pub selects : Selector → Document → Bool
selects [] d = true
selects (c ∷ s) d = satisfies c d && selects s d

-- A new value for the first field with the key; the fields that stand there if there is none.
unfoldable pub change_field : Bytes → (Value → Value) → Document → Document → Document
change_field k f missing [] = missing
change_field k f missing ((j, v) ∷ d) = elim (eqb j k) [
  | true ↦ (j, f v) ∷ d
  | false ↦ (j, v) ∷ change_field k f missing d
]

abbrev pub change_array : (List Entry → List Entry) → Value → Value
change_array f (scalar s) = scalar s
change_array f (array es) = array (f es)

abbrev pub apply_change : Change → Document → Document
apply_change (push e) d =
    change_field (codes "users") (change_array (λ es. es ++ e ∷ []))
      ((codes "users", array (e ∷ [])) ∷ []) d
apply_change (pull x) d =
    change_field (codes "users") (change_array (filter (λ e. not (has_name x e)))) [] d

abbrev pub apply_update : Update → Document → Document
apply_update u d =
    let signature = scalar (binary u.signature) in
    change_field (codes "signature") (λ v. signature) ((codes "signature", signature) ∷ [])
      (apply_change u.change d)

-- The value of "name", for the unique index.
abbrev pub name_of : Document → Option Bytes
name_of d = elim (seek (codes "name") d) [
  | none ↦ none
  | some (scalar (binary b), rest) ↦ some b
  | some (v, rest) ↦ none
]

abbrev pub clashes : Document → List Document → Bool
clashes d ds = elim (name_of d) [ none ↦ false | some b ↦ any (path_is (codes "name") b) ds ]

abbrev pub cursor_on : List Document → Cursor
cursor_on ds = record { initial_error = none; documents = ds; final_error = none }

abbrev pub same : Collection → Collection → Bool
same users_collection users_collection = true
same groups_collection groups_collection = true
same _ _ = false

abbrev pub matched_count : Bool → ℕ
matched_count b = if b then 1 else 0

-- The driver puts an `_id` of its own in front of a document that is inserted.
abbrev pub with_id : Bytes → Document → Document
with_id id d = (codes "_id", scalar (other id)) ∷ d

abbrev pub eq_scalar : Scalar → Scalar → Bool
eq_scalar (binary a) (binary b) = eqb a b
eq_scalar (other a) (other b) = eqb a b
eq_scalar _ _ = false

abbrev pub eq_entry : Entry → Entry → Bool
eq_entry [] [] = true
eq_entry ((j, a) ∷ e) ((k, b) ∷ f) = eqb j k && (eq_scalar a b && eq_entry e f)
eq_entry _ _ = false

abbrev pub eq_entries : List Entry → List Entry → Bool
eq_entries [] [] = true
eq_entries (e ∷ es) (f ∷ fs) = eq_entry e f && eq_entries es fs
eq_entries _ _ = false

abbrev pub eq_value : Value → Value → Bool
eq_value (scalar a) (scalar b) = eq_scalar a b
eq_value (array es) (array fs) = eq_entries es fs
eq_value _ _ = false

-- A whole document as the selector: each of its fields is asked for.
unfoldable pub asks : Document → Document → Bool
asks [] d = true
asks ((k, v) ∷ x) d = elim (seek k d) [ none ↦ false | some (u, rest) ↦ eq_value v u ] && asks x d

-- The updates of a bulk operation, one after the other.
abbrev pub apply_all : List (Document × Update) → List Document → List Document
apply_all [] ds = ds
apply_all ((x, u) ∷ us) ds = apply_all us (update_first (asks x) (apply_update u) ds)

unfoldable pub id_of : Document → Option Bytes
id_of d = elim (seek (codes "_id") d) [
  | none ↦ none
  | some (scalar (other b), rest) ↦ some b
  | some (v, rest) ↦ none
]

abbrev pub has_id : Bytes → Document → Bool
has_id id d = elim (id_of d) [ none ↦ false | some b ↦ eqb b id ]

-- `MONGOC_ERROR_COMMAND_INVALID_ARG`, of a bulk operation without operations.
abbrev pub invalid_argument : ℕ
invalid_argument = 22

-- The driver gives `matchedCount` as an int32, which `bson_iter_int64` reads as 0.
pub record IsQuiet (P : Platform) : Type 0 where
  pub documents : Collection → P.World → List Document
  pub new_id : P.World → Bytes
  pub new_id_fresh :
      (c : Collection) (w : P.World) → any (has_id (new_id w)) (documents c w) ≡ false
  pub length-hmac256 : (k : Bytes) (us : List Bytes) → length (P.hmac256 k us) ≡ hmac_result_length
  pub decrypt-encrypt :
      (k t : Bytes) (w : P.World) → P.decrypt_aesgcm k (P.encrypt_aesgcm k t w).1 ≡ some t
  pub documents-encrypt :
      (k t : Bytes) (w : P.World) (c : Collection)
      → documents c (P.encrypt_aesgcm k t w).0 ≡ documents c w
  pub find_answer :
      (c : Collection) (s : Selector) (w : P.World)
      → (P.find_with_opts c s w).1 ≡ cursor_on (filter (selects s) (documents c w))
  pub documents-find :
      (c d : Collection) (s : Selector) (w : P.World)
      → documents d (P.find_with_opts c s w).0 ≡ documents d w
  pub update_answer :
      (c : Collection) (s : Selector) (u : Update) (w : P.World)
      → (P.update_one c s u w).1 ≡ matched (int32 (matched_count (any (selects s) (documents c w))))
  pub iter_int64_int32 : (n : ℕ) → P.iter_int64 (int32 n) ≡ 0
  pub documents-update :
      (c d : Collection) (s : Selector) (u : Update) (w : P.World)
      → documents d (P.update_one c s u w).0 ≡ (
          if same c d
          then update_first (selects s) (apply_update u) (documents c w)
          else documents d w)
  pub insert_clash :
      (c : Collection) (x : Document) (w : P.World)
      → clashes x (documents c w) ≡ true
      → (e : BsonError) × (e.code ≡ duplicate_key)
        × ((P.insert_one c x w).1 ≡ failure e)
        × ((d : Collection) → documents d (P.insert_one c x w).0 ≡ documents d w)
  pub insert_fresh :
      (c : Collection) (x : Document) (w : P.World)
      → clashes x (documents c w) ≡ false
      → ((P.insert_one c x w).1 ≡ success)
        × ((d : Collection)
            → documents d (P.insert_one c x w).0
              ≡ (if same c d then documents c w ++ with_id (new_id w) x ∷ [] else documents d w))
  pub delete_success :
      (c : Collection) (s : Selector) (w : P.World) → (P.delete_one c s w).1 ≡ success
  pub documents-delete :
      (c d : Collection) (s : Selector) (w : P.World)
      → documents d (P.delete_one c s w).0
        ≡ (if same c d then remove_first (selects s) (documents c w) else documents d w)
  pub bulk_success :
      (c : Collection) (x : Document × Update) (us : List (Document × Update)) (w : P.World)
      → (P.bulk_execute c (x ∷ us) w).1 ≡ success
  pub bulk_empty :
      (c : Collection) (w : P.World)
      → (e : BsonError) × (e.code ≡ invalid_argument) × ((P.bulk_execute c [] w).1 ≡ failure e)
  pub documents-bulk :
      (c d : Collection) (us : List (Document × Update)) (w : P.World)
      → documents d (P.bulk_execute c us w).0
        ≡ (if same c d then apply_all us (documents c w) else documents d w)
