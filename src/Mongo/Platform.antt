-- ===== src/Mongo/Platform.antt =====
-- What trusted/MongoDatabase.cpp calls: the driver with the server behind it, and the cryptographic
-- functions, over an unknown state of the world. A method is a function on that state that returns a
-- value, throws, or does what C++ leaves undefined; the state stays as it is when it throws.
use Prim.Native.String.{String}
use mongo_sgx_client.Base.{
  ℕ, Bool, Bytes, List, ◌++◌, Option, codes, ◌==◌, if◌then◌else◌, Run, done, fault,
}
use mongo_sgx_client.Inet.Digits.{format}
use mongo_sgx_client.Mongo.Bson.{Entry, Document}

-- `bson_error_t`.
pub record BsonError : Type 0 where
  pub code : ℕ
  pub message : Bytes

-- The macro BSON_ERROR, used at a line of the file.
abbrev pub bson_error : String → ℕ → BsonError
bson_error message line = record {
  code = 1;
  message = codes message ++ codes "; line: " ++ format 10 line;
}

pub data Collection : Type 0 where
  users_collection groups_collection : Collection

-- A condition of a selector: the path's value is, or `$ne`, the binary value.
pub data Condition : Type 0 where
  equals : Bytes → Bytes → Condition
  differs : Bytes → Bytes → Condition

abbrev pub Selector : Type 0
Selector = List Condition

-- `$push` of an entry to "users", or `$pull` of those with a name.
pub data Change : Type 0 where
  push : Entry → Change
  pull : Bytes → Change

-- A change with `$set` of "signature".
pub record Update : Type 0 where
  pub change : Change
  pub signature : Bytes

-- The documents that a cursor has, and the error that it has when it gives none: from the start, or
-- behind the last.
pub record Cursor : Type 0 where
  pub initial_error : Option BsonError
  pub documents : List Document
  pub final_error : Option BsonError

-- The status of a call with its `error`.
pub data Status : Type 0 where
  success : Status
  failure : BsonError → Status

-- A number in the reply of the driver, with its type.
pub data Count : Type 0 where
  int32 int64 : ℕ → Count

-- `matchedCount` of the reply, or the error.
pub data UpdateStatus : Type 0 where
  matched : Count → UpdateStatus
  not_updated : BsonError → UpdateStatus

pub record Index : Type 0 where
  pub keys : List Bytes
  pub index_name : Bytes
  pub unique : Bool

pub data Command : Type 0 where
  create_indexes : Collection → List Index → Command
  ping_command : Command

pub record Platform : Type 1 where
  pub World : Type 0
  -- The key and the data of each update, in their order.
  pub hmac256 : Bytes → List Bytes → Bytes
  -- The nonce comes from the world.
  pub encrypt_aesgcm : Bytes → Bytes → World → World × Bytes
  pub decrypt_aesgcm : Bytes → Bytes → Option Bytes
  pub find_with_opts : Collection → Selector → World → World × Cursor
  pub update_one : Collection → Selector → Update → World → World × UpdateStatus
  -- `bson_iter_int64`.
  pub iter_int64 : Count → ℕ
  pub insert_one : Collection → Document → World → World × Status
  pub delete_one : Collection → Selector → World → World × Status
  pub delete_many : Collection → Selector → World → World × Status
  pub bulk_execute : Collection → List (Document × Update) → World → World × Status
  pub uri_new_with_error : Bytes → World → World × Bool
  pub client_new_from_uri : Bytes → World → World × Bool
  pub command_simple : Command → World → World × Status
  pub mongoc_init : World → World
  pub mongoc_log_trace_disable : World → World
  pub collection_destroy : Collection → World → World
  pub client_destroy : World → World
  pub mongoc_cleanup : World → World

pub data Result {ℓ} (A : Type ℓ) : Type ℓ where
  value : A → Result A
  thrown : BsonError → Result A
  undefined : Result A

abbrev pub Action {ℓ} : Type 0 → Type ℓ → Type ℓ
Action W A = W → W × Result A

-- The rest of a method, behind a call.
abbrev pub onward {ℓ κ} :
    {W : Type 0} {A : Type ℓ} {B : Type κ} → W × Result A → (A → Action W B) → W × Result B
onward (w, value a) f = f a w
onward (w, thrown e) f = (w, thrown e)
onward (w, undefined) f = (w, undefined)

infixl 5 ◌>>=◌ ◌>>◌
abbrev pub ◌>>=◌ {ℓ κ} :
    {W : Type 0} {A : Type ℓ} {B : Type κ} → Action W A → (A → Action W B) → Action W B
◌>>=◌ m f w = onward (m w) f

abbrev pub ◌>>◌ {ℓ κ} :
    {W : Type 0} {A : Type ℓ} {B : Type κ} → Action W A → Action W B → Action W B
m >> k = m >>= λ _. k

abbrev pub return {ℓ} : {W : Type 0} {A : Type ℓ} → A → Action W A
return a w = (w, value a)

abbrev pub throw {ℓ} : {W : Type 0} {A : Type ℓ} → BsonError → Action W A
throw e w = (w, thrown e)

-- A call of the platform.
abbrev pub call {ℓ} : {W : Type 0} {A : Type ℓ} → (W → W × A) → Action W A
call f w = let (w', a) = f w in (w', value a)

-- A computation on documents.
abbrev pub pure_run {ℓ} : {W : Type 0} {A : Type ℓ} → Run A → Action W A
pure_run (done a) w = (w, value a)
pure_run fault w = (w, undefined)

-- `throw_potential_error`.
abbrev pub throw_potential_error : {W : Type 0} → BsonError → Action W (Unit {0})
throw_potential_error e w = if e.code == 0 then (w, value tt) else (w, thrown e)

-- `if (!status) throw_potential_error(error)`.
abbrev pub check : {W : Type 0} → Status → Action W (Unit {0})
check success w = (w, value tt)
check (failure e) w = throw_potential_error e w
