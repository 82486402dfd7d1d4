-- ===== src/Mongo/Sample/Expected.antt =====
-- What the sample shows, part by part.
use mongo_sgx_client.Base.{true, false, List, [], ◌∷◌, ◌++◌}
use mongo_sgx_client.Mongo.Platform.{BsonError}
use mongo_sgx_client.Mongo.Sample.{Shown, memberships, exception, all_keys, sample_key}

abbrev pub groups_shown : List Shown
groups_shown =
    memberships true false false false
    ∷ memberships true false false false
    ∷ memberships true false false true
    ∷ []

-- The error is the one of the user who is there already.
abbrev pub users_shown : BsonError → List Shown
users_shown x =
    memberships true false true true
    ∷ memberships true false true true
    ∷ exception x
    ∷ memberships true false true true
    ∷ []

abbrev pub removals_shown : List Shown
removals_shown =
    memberships true false false true
    ∷ memberships true false true true
    ∷ memberships false false false true
    ∷ []

-- What the sample shows, from the first memberships to the last.
abbrev pub all_shown : BsonError → List Shown
all_shown x =
    memberships false false false false ∷ groups_shown
    ++ users_shown x
    ++ all_keys (sample_key ∷ []) ∷ removals_shown
