-- ===== src/Mongo/Sample/Teams.antt =====
-- The requests of the sample to a directory, where the hash tells its names apart.
use mongo_sgx_client.Base.{
  ◌≡◌, refl, ◌∙◌, Bool, true, false, ◌&&◌, Bytes, List, [], ◌∷◌, Option, none, some, codes, arith,
}
use mongo_sgx_client.Mongo.Bson.{eqb, eqb_refl, eqb-sym}
use mongo_sgx_client.Mongo.First.{any}
use mongo_sgx_client.Mongo.Directory.{
  Account, Team, Directory, creates_user, creates_group, adds, removes, asks_keys, deletes,
  completed, refused, has_keys, respond, is_titled, includes, account_in,
}
use mongo_sgx_client.Mongo.Sample.{sample_key}

abbrev pub user1 : Bytes
user1 = codes "user1"

abbrev pub user2 : Bytes
user2 = codes "user2"

abbrev pub group1 : Bytes
group1 = codes "group1"

abbrev pub group2 : Bytes
group2 = codes "group2"

module _ (hash : Bytes → Option Bytes → Bytes) where
  -- The two users, the two groups, and the two users in each group have distinct hashes.
  pub record TellsApart : Type 0 where
    pub users : eqb (hash user1 none) (hash user2 none) ≡ false
    pub groups : eqb (hash group1 none) (hash group2 none) ≡ false
    pub in_group1 : eqb (hash user1 (some group1)) (hash user2 (some group1)) ≡ false
    pub in_group2 : eqb (hash user1 (some group2)) (hash user2 (some group2)) ≡ false

  abbrev account : Bytes → Account
  account u = record { name = hash u none; key = sample_key }

  abbrev member : Bytes → Bytes → Account
  member g u = account_in hash g u sample_key

  abbrev team : Bytes → List Account → Team
  team g xs = record { title = g; members = xs }

  abbrev both_users : List Team → Directory
  both_users ts = record { accounts = account user1 ∷ account user2 ∷ []; teams = ts }

  -- What the directory is in the course of the sample.
  abbrev pub nobody : Directory
  nobody = record { accounts = []; teams = [] }

  abbrev pub one_user : Directory
  one_user = record { accounts = account user1 ∷ []; teams = [] }

  abbrev pub two_users : Directory
  two_users = both_users []

  abbrev pub one_team : Directory
  one_team = both_users (team group1 (member group1 user1 ∷ []) ∷ [])

  abbrev pub two_teams : Directory
  two_teams =
      both_users
        (team group1 (member group1 user1 ∷ []) ∷ team group2 (member group2 user2 ∷ []) ∷ [])

  abbrev pub joined_teams : Directory
  joined_teams = both_users (
      team group1 (member group1 user1 ∷ [])
      ∷ team group2 (member group2 user2 ∷ member group2 user1 ∷ [])
      ∷ [])

  abbrev pub user2_left : Directory
  user2_left = record {
    accounts = account user2 ∷ [];
    teams = team group1 [] ∷ team group2 (member group2 user2 ∷ []) ∷ [];
  }

  -- Whether the directory has the user in a group of the name.
  abbrev pub has_part : Bytes → Bytes → Directory → Bool
  has_part g u d = any (λ t. is_titled hash (hash g none) t && includes (hash u (some g)) t) d.teams

  -- The four memberships that the sample asks for.
  abbrev pub Parts : Directory → Bool → Bool → Bool → Bool → Type 0
  Parts d a b c e =
      (has_part group1 user1 d ≡ a)
      × (has_part group1 user2 d ≡ b)
      × (has_part group2 user1 d ≡ c)
      × (has_part group2 user2 d ≡ e)

module _ (hash : Bytes → Option Bytes → Bytes) (T : TellsApart hash) where
  users_back : eqb (hash user2 none) (hash user1 none) ≡ false
  users_back = eqb-sym (hash user2 none) (hash user1 none) ∙ T.users

  groups_back : eqb (hash group2 none) (hash group1 none) ≡ false
  groups_back = eqb-sym (hash group2 none) (hash group1 none) ∙ T.groups

  in_group2_back : eqb (hash user2 (some group2)) (hash user1 (some group2)) ≡ false
  in_group2_back = eqb-sym (hash user2 (some group2)) (hash user1 (some group2)) ∙ T.in_group2

  pub first_user :
      respond hash (creates_user user1 sample_key) (nobody hash) ≡ (one_user hash, completed)
  first_user = refl

  pub second_user :
      respond hash (creates_user user2 sample_key) (one_user hash) ≡ (two_users hash, completed)
  second_user = ground (arith, T.users)

  pub first_group :
      respond hash (creates_group group1 user1) (two_users hash) ≡ (one_team hash, completed)
  first_group = ground (arith, eqb_refl (hash user1 none))

  pub same_group :
      respond hash (creates_group group1 user1) (one_team hash) ≡ (one_team hash, completed)
  same_group = ground (
    arith,
    eqb_refl (hash user1 none),
    eqb_refl (hash group1 none),
    eqb_refl (hash user1 (some group1)),
  )

  pub second_group :
      respond hash (creates_group group2 user2) (one_team hash) ≡ (two_teams hash, completed)
  second_group = ground (arith, T.users, eqb_refl (hash user2 none), T.groups)

  pub joining : respond hash (adds group2 user1) (two_teams hash) ≡ (joined_teams hash, completed)
  joining =
      ground
        (arith, eqb_refl (hash user1 none), T.groups, eqb_refl (hash group2 none), in_group2_back)

  pub joined_before :
      respond hash (adds group1 user1) (joined_teams hash) ≡ (joined_teams hash, completed)
  joined_before = ground (
    arith,
    eqb_refl (hash user1 none),
    eqb_refl (hash group1 none),
    eqb_refl (hash user1 (some group1)),
    groups_back,
  )

  pub same_user :
      respond hash (creates_user user1 sample_key) (joined_teams hash)
      ≡ (joined_teams hash, refused)
  same_user = ground (arith, eqb_refl (hash user1 none))

  pub keys :
      respond hash (asks_keys group1) (joined_teams hash)
      ≡ (joined_teams hash, has_keys (sample_key ∷ []))
  keys = ground (arith, eqb_refl (hash group1 none))

  pub leaving :
      respond hash (removes group2 user1) (joined_teams hash) ≡ (two_teams hash, completed)
  leaving = ground (
    arith,
    T.groups,
    eqb_refl (hash group2 none),
    in_group2_back,
    eqb_refl (hash user1 (some group2)),
  )

  pub deletion : respond hash (deletes user1) (joined_teams hash) ≡ (user2_left hash, completed)
  deletion = ground (
    arith,
    eqb_refl (hash user1 none),
    eqb_refl (hash user1 (some group1)),
    in_group2_back,
    eqb_refl (hash user1 (some group2)),
  )

  pub two_users-Parts : Parts hash (two_users hash) false false false false
  two_users-Parts = (refl, refl, refl, refl)

  pub one_team-Parts : Parts hash (one_team hash) true false false false
  one_team-Parts = (
    ground (arith, eqb_refl (hash group1 none), eqb_refl (hash user1 (some group1))),
    ground (arith, T.in_group1, eqb_refl (hash group1 none)),
    ground (arith, T.groups),
    ground (arith, T.groups),
  )

  pub two_teams-Parts : Parts hash (two_teams hash) true false false true
  two_teams-Parts = (
    ground (arith, eqb_refl (hash group1 none), eqb_refl (hash user1 (some group1))),
    ground (arith, eqb_refl (hash group1 none), groups_back, T.in_group1),
    ground (arith, T.groups, eqb_refl (hash group2 none), in_group2_back),
    ground (arith, T.groups, eqb_refl (hash group2 none), eqb_refl (hash user2 (some group2))),
  )

  pub joined_teams-Parts : Parts hash (joined_teams hash) true false true true
  joined_teams-Parts = (
    ground (arith, eqb_refl (hash group1 none), eqb_refl (hash user1 (some group1))),
    ground (arith, eqb_refl (hash group1 none), groups_back, T.in_group1),
    ground (
      arith,
      T.groups,
      eqb_refl (hash group2 none),
      eqb_refl (hash user1 (some group2)),
      in_group2_back,
    ),
    ground (arith, T.groups, eqb_refl (hash group2 none), eqb_refl (hash user2 (some group2))),
  )

  pub user2_left-Parts : Parts hash (user2_left hash) false false false true
  user2_left-Parts = (
    ground (arith, eqb_refl (hash group1 none), groups_back),
    ground (arith, eqb_refl (hash group1 none), groups_back),
    ground (arith, T.groups, eqb_refl (hash group2 none), in_group2_back),
    ground (arith, T.groups, eqb_refl (hash group2 none), eqb_refl (hash user2 (some group2))),
  )
