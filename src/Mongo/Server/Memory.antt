-- ===== src/Mongo/Server/Memory.antt =====
-- A platform that keeps the documents in memory, and meets the laws. Its hash is the beginning of the
-- data, filled up, and its encryption puts a byte in front.
use mongo_sgx_client.Base.{
  ◌≡◌, refl, true, false, Bytes, List, [], ◌∷◌, ◌++◌, Option, none, some, arith, length, take,
  replicate, length-take, length-append, if◌then◌else◌, ℕ, ◌+◌, ◌<◌, ap, Option-cases,
  length-replicate, Bool-cases, inl, inr,
}
use mongo_sgx_client.Mongo.Bson.{Document, eqb, eqb→eq}
use mongo_sgx_client.Mongo.Platform.{
  Platform, BsonError, Collection, Update, users_collection, groups_collection, Status, success,
  failure, Count, int32, int64, matched,
}
use mongo_sgx_client.Mongo.First.{filter, update_first, remove_first, any}
use mongo_sgx_client.Mongo.Server.{
  IsQuiet, cursor_on, selects, apply_update, apply_all, id_of, has_id, clashes, matched_count, same,
  with_id,
}

pub record Memory : Type 0 where
  pub users : List Document
  pub groups : List Document

abbrev pub stored : Collection → Memory → List Document
stored users_collection w = w.users
stored groups_collection w = w.groups

abbrev replace : Collection → List Document → Memory → Memory
replace users_collection ds w = record w { users = ds }
replace groups_collection ds w = record w { groups = ds }

abbrev pub joined : List Bytes → Bytes
joined [] = []
joined (b ∷ bs) = b ++ joined bs

abbrev toy_hash : List Bytes → Bytes
toy_hash us = take 32 (joined us ++ replicate 32 0)

abbrev opened : Bytes → Option Bytes
opened [] = none
opened (b ∷ bs) = some bs

-- The bytes of all the documents' `_id` together, which the next one has more of.
abbrev weight : List Document → ℕ
weight [] = 0
weight (d ∷ ds) = elim (id_of d) [ none ↦ weight ds | some b ↦ length b + weight ds ]

abbrev next_id : Memory → Bytes
next_id w = replicate (1 + weight w.users + weight w.groups) 0

abbrev insert : Collection → Document → Memory → Memory × Status
insert c d w =
    if clashes d (stored c w)
    then (w, failure (record { code = 11000; message = [] }))
    else (replace c (stored c w ++ with_id (next_id w) d ∷ []) w, success)

abbrev read_int64 : Count → ℕ
read_int64 (int32 n) = 0
read_int64 (int64 n) = n

abbrev execute : Collection → List (Document × Update) → Memory → Memory × Status
execute c [] w = (w, failure (record { code = 22; message = [] }))
execute c (x ∷ us) w = (replace c (apply_all (x ∷ us) (stored c w)) w, success)

abbrev pub memory_platform : Platform
memory_platform = record {
  World = Memory;
  hmac256 = λ k us. toy_hash us;
  encrypt_aesgcm = λ k t w. (w, 0 ∷ t);
  decrypt_aesgcm = λ k t. opened t;
  find_with_opts = λ c s w. (w, cursor_on (filter (selects s) (stored c w)));
  update_one = λ c s u w. (
    replace c (update_first (selects s) (apply_update u) (stored c w)) w,
    matched (int32 (matched_count (any (selects s) (stored c w)))),
  );
  iter_int64 = read_int64;
  insert_one = insert;
  delete_one = λ c s w. (replace c (remove_first (selects s) (stored c w)) w, success);
  delete_many = λ c s w. (replace c [] w, success);
  bulk_execute = execute;
  uri_new_with_error = λ uri w. (w, true);
  client_new_from_uri = λ uri w. (w, true);
  command_simple = λ command w. (w, success);
  mongoc_init = λ w. w;
  mongoc_log_trace_disable = λ w. w;
  collection_destroy = λ c w. w;
  client_destroy = λ w. w;
  mongoc_cleanup = λ w. w;
}

pub length-toy_hash : (us : List Bytes) → length (toy_hash us) ≡ 32
length-toy_hash us = omega (
  arith,
  length-take 32 (joined us ++ replicate 32 0),
  length-append {0} (joined us) (replicate 32 0),
)

pub stored-replace :
    (c d : Collection) (ds : List Document) (w : Memory)
    → stored d (replace c ds w) ≡ (if same c d then ds else stored d w)
stored-replace users_collection users_collection ds w = refl
stored-replace users_collection groups_collection ds w = refl
stored-replace groups_collection users_collection ds w = refl
stored-replace groups_collection groups_collection ds w = refl

stored-same :
    (c d : Collection) (w : Memory) → stored d w ≡ (if same c d then stored c w else stored d w)
stored-same users_collection users_collection w = refl
stored-same users_collection groups_collection w = refl
stored-same groups_collection users_collection w = refl
stored-same groups_collection groups_collection w = refl

pub stored-execute :
    (c d : Collection) (us : List (Document × Update)) (w : Memory)
    → stored d (execute c us w).0 ≡ (if same c d then apply_all us (stored c w) else stored d w)
stored-execute c d [] w = stored-same c d w
stored-execute c d (x ∷ us) w = stored-replace c d _ w

pub insert_clash :
    (c : Collection) (d : Document) (w : Memory)
    → clashes d (stored c w) ≡ true
    → (e : BsonError) × (e.code ≡ 11000)
      × ((insert c d w).1 ≡ failure e)
      × ((b : Collection) → stored b (insert c d w).0 ≡ stored b w)
insert_clash c d w h = rw h (record { code = 11000; message = [] }, refl, refl, λ b. refl)

pub insert_fresh :
    (c : Collection) (d : Document) (w : Memory)
    → clashes d (stored c w) ≡ false
    → ((insert c d w).1 ≡ success)
      × ((b : Collection)
          → stored b (insert c d w).0
            ≡ (if same c b then stored c w ++ with_id (next_id w) d ∷ [] else stored b w))
insert_fresh c d w h = rw h (refl, λ b. stored-replace c b _ w)

longer : (x y : Bytes) → length x < length y → eqb x y ≡ false
longer x y h = elim (Bool-cases (eqb x y)) [
  | inr distinct ↦ distinct
  | inl same ↦ absurd (omega (arith, h, ap length (eqb→eq x y same)))
]

fresh_among : (i : Bytes) (ds : List Document) → weight ds < length i → any (has_id i) ds ≡ false
fresh_among i [] h = refl
fresh_among i (d ∷ ds) h = elim (Option-cases (id_of d)) [
  | inl e ↦ ground (arith, e, fresh_among i ds (ground (arith, e, h)))
  | inr (b, e) ↦
      let sum : length b + weight ds < length i = ground (arith, e, h) in
      let rest = fresh_among i ds (omega (arith, sum)) in
      ground (arith, e, longer b i (omega (arith, sum)), rest)
]

pub next_id_fresh : (c : Collection) (w : Memory) → any (has_id (next_id w)) (stored c w) ≡ false
next_id_fresh users_collection w =
    let size = length-replicate {A = ℕ} (1 + weight w.users + weight w.groups) 0 in
    fresh_among (next_id w) w.users (omega (arith, size))
next_id_fresh groups_collection w =
    let size = length-replicate {A = ℕ} (1 + weight w.users + weight w.groups) 0 in
    fresh_among (next_id w) w.groups (omega (arith, size))

unfoldable pub memory_laws : IsQuiet memory_platform
memory_laws = record {
  documents = stored;
  new_id = next_id;
  new_id_fresh = next_id_fresh;
  length-hmac256 = λ k us. length-toy_hash us;
  decrypt-encrypt = λ k t w. refl;
  documents-encrypt = λ k t w c. refl;
  find_answer = λ c s w. refl;
  documents-find = λ c d s w. refl;
  update_answer = λ c s u w. refl;
  documents-update = λ c d s u w. stored-replace c d _ w;
  insert_clash = insert_clash;
  insert_fresh = insert_fresh;
  delete_success = λ c s w. refl;
  documents-delete = λ c d s w. stored-replace c d _ w;
  iter_int64_int32 = λ n. refl;
  bulk_success = λ c x us w. refl;
  bulk_empty = λ c w. (record { code = 22; message = [] }, refl, refl);
  documents-bulk = stored-execute;
}
