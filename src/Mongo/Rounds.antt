-- ===== src/Mongo/Rounds.antt =====
-- The loop of the private `add_user_to_group` and of `remove_user_from_group`, which differ in the
-- selector and the change.
use mongo_sgx_client.Base.{
  ℕ, zero, suc, Bool, true, false, [], ◌∷◌, ◌++◌, Option, none, some, codes, leb,
}
use mongo_sgx_client.Mongo.Bson.{Document, find_binary}
use mongo_sgx_client.Mongo.Platform.{
  Platform, BsonError, groups_collection, Selector, equals, Change, UpdateStatus, matched,
  not_updated, Action, ◌>>=◌, return, throw, call, pure_run, throw_potential_error,
}
use mongo_sgx_client.Mongo.Signature.{Additional, compute_group_signature, validate_group_signature}
use mongo_sgx_client.Mongo.Users.{first_document}

-- How a round of the loops in `add_user_to_group` and `remove_user_from_group` ends: there is nothing to
-- do, the update is done, or it found no document.
pub data Round : Type 0 where
  nothing_to_do updated missed : Round

abbrev pub ending : Bool → Round
ending true = updated
ending false = missed

module _ (P : Platform) where
  -- Does the update that was sent find its document, by what `bson_iter_int64` reads of the count?
  abbrev pub has_matched : UpdateStatus → Action P.World Bool
  has_matched (matched n) = return (leb 1 (P.iter_int64 n))
  has_matched (not_updated e) = throw_potential_error e >>= λ _. return false

  -- What a round does with the document that it found: the signature is checked, and the update wants
  -- the document to have it still. `line` is where a wrong signature is thrown.
  unfoldable pub update_found :
      Selector → Additional → Change → BsonError → Document → Action P.World Round
  update_found selector additional change wrong existing_document =
      pure_run (validate_group_signature P existing_document) >>= λ valid. elim valid [
        | false ↦ throw wrong
        | true ↦ pure_run (find_binary (codes "signature") existing_document) >>= λ signature.
            pure_run (compute_group_signature P existing_document additional) >>= λ new_signature.
            call (
              P.update_one groups_collection (selector ++ equals (codes "signature") signature ∷ [])
                (record { change = change; signature = new_signature }))
            >>= has_matched
            >>= λ m. return (ending m)
      ]

  unfoldable pub round_on :
      Selector → Additional → Change → BsonError → Option Document → Action P.World Round
  round_on selector additional change wrong none = return nothing_to_do
  round_on selector additional change wrong (some existing_document) =
      update_found selector additional change wrong existing_document

  unfoldable pub round : Selector → Additional → Change → BsonError → Action P.World Round
  round selector additional change wrong =
      call (P.find_with_opts groups_collection selector) >>= λ cursor.
      round_on selector additional change wrong (first_document cursor)

  -- `while (!done && (attempts-- > 0))`, and the throw behind it.
  unfoldable pub attempt :
      ℕ → Selector → Additional → Change → BsonError → BsonError → Action P.World (Unit {0})
  attempt zero selector additional change wrong unable = throw unable
  attempt (suc attempts) selector additional change wrong unable =
      round selector additional change wrong >>= λ r. elim r [
        | nothing_to_do ↦ return tt
        | updated ↦ return tt
        | missed ↦ attempt attempts selector additional change wrong unable
      ]
