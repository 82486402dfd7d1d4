-- ===== src/Mongo/Directory.antt =====
-- What `MongoDatabase` promises: a directory of accounts and teams without signatures, encryption,
-- documents or a server, and its answers to requests. Names are hashed as the methods hash them; `hash`
-- is the hash of a name, with a salt or none.
pub mod Relates
pub mod Refines
use mongo_sgx_client.Base.{
  ℕ, ◌≡◌, Bool, true, false, ◌&&◌, not, Bytes, List, [], ◌∷◌, ◌++◌, Option, none, some, map,
}
use mongo_sgx_client.Mongo.Bson.{eqb}
use mongo_sgx_client.Mongo.Platform.{Platform, Result, value, thrown, undefined, Action}
use mongo_sgx_client.Mongo.Users.{create_user}
use mongo_sgx_client.Mongo.Groups.{add_user_to_group, remove_user_from_group, create_group}
use mongo_sgx_client.Mongo.Reading.{is_user_part_of_group, get_keys_of_group}
use mongo_sgx_client.Mongo.Deleting.{delete_user}
use mongo_sgx_client.Mongo.First.{filter, first, update_first, remove_first, any}

-- A hashed name with a key.
pub record Account : Type 0 where
  pub name : Bytes
  pub key : Bytes

pub record Team : Type 0 where
  pub title : Bytes
  pub members : List Account

pub record Directory : Type 0 where
  pub accounts : List Account
  pub teams : List Team

pub data Request : Type 0 where
  creates_user creates_group adds removes asks_part : Bytes → Bytes → Request
  asks_keys deletes : Bytes → Request

pub data Response : Type 0 where
  completed refused broken : Response
  is_part : Bool → Response
  has_keys : List Bytes → Response

abbrev pub is_account : Bytes → Account → Bool
is_account h a = eqb a.name h

abbrev pub includes : Bytes → Team → Bool
includes u t = any (is_account u) t.members

abbrev pub joined_by : Account → Team → Team
joined_by a t = record t { members = t.members ++ a ∷ [] }

abbrev pub left_by : Bytes → Team → Team
left_by u t = record t { members = filter (λ a. not (is_account u a)) t.members }

abbrev pub key_of : Account → Bytes
key_of a = a.key

module _ (hash : Bytes → Option Bytes → Bytes) where
  abbrev pub is_titled : Bytes → Team → Bool
  is_titled h t = eqb (hash t.title none) h

  -- A user in a team.
  abbrev pub account_in : Bytes → Bytes → Bytes → Account
  account_in g u k = record { name = hash u (some g); key = k }

  -- The first team of the name that lacks the user gets the user.
  abbrev pub enrolled : Bytes → Bytes → Bytes → List Team → List Team
  enrolled g u k ts =
      update_first (λ t. is_titled (hash g none) t && not (includes (hash u (some g)) t))
        (joined_by (account_in g u k)) ts

  -- The first team of the name that has the user loses the user.
  abbrev pub dismissed : Bytes → Bytes → List Team → List Team
  dismissed g u ts =
      update_first (λ t. is_titled (hash g none) t && includes (hash u (some g)) t)
        (left_by (hash u (some g))) ts

  -- A new team with the user, if there is none of the name.
  abbrev pub founded : Bytes → Bytes → Bytes → List Team → List Team
  founded g u k ts = elim (any (is_titled (hash g none)) ts) [
    | true ↦ enrolled g u k ts
    | false ↦ ts ++ record { title = g; members = account_in g u k ∷ [] } ∷ []
  ]

  abbrev pub without_account : Bytes → List Team → List Team
  without_account u ts = map (λ t. left_by (hash u (some t.title)) t) ts

  -- What needs an account is refused without one.
  abbrev pub with_key : Bytes → Directory → (Bytes → List Team) → Directory × Response
  with_key u d f = elim (first (is_account (hash u none)) d.accounts) [
    | none ↦ (d, refused)
    | some a ↦ (record d { teams = f a.key }, completed)
  ]

  -- An account can be deleted only where there is a team.
  abbrev pub respond : Request → Directory → Directory × Response
  respond (creates_user u k) d = elim (any (is_account (hash u none)) d.accounts) [
    | true ↦ (d, refused)
    | false ↦ (
      record d { accounts = d.accounts ++ record { name = hash u none; key = k } ∷ [] },
      completed,
    )
  ]
  respond (creates_group g u) d = with_key u d (λ k. founded g u k d.teams)
  respond (adds g u) d = with_key u d (λ k. enrolled g u k d.teams)
  respond (removes g u) d = (record d { teams = dismissed g u d.teams }, completed)
  respond (asks_part g u) d =
      (d, is_part (any (λ t. is_titled (hash g none) t && includes (hash u (some g)) t) d.teams))
  respond (asks_keys g) d = elim (first (is_titled (hash g none)) d.teams) [
    | none ↦ (d, refused)
    | some t ↦ (d, has_keys (map key_of t.members))
  ]
  respond (deletes u) d = elim d.teams [
    | [] ↦ (d, refused)
    | t ∷ ts ↦ (
      record {
        accounts = remove_first (is_account (hash u none)) d.accounts;
        teams = without_account u (t ∷ ts);
      },
      completed,
    )
  ]

  -- One request after the other, with the answers.
  abbrev pub respond_all : List Request → Directory → Directory × List Response
  respond_all [] d = (d, [])
  respond_all (q ∷ qs) d =
      let (d', a) = respond q d in let (d'', rest) = respond_all qs d' in (d'', a ∷ rest)

-- A caller of the methods, who goes on where one throws.
abbrev pub answer {ℓ} : {A : Type ℓ} → (A → Response) → Result A → Response
answer f (value a) = f a
answer f (thrown e) = refused
answer f undefined = broken

abbrev pub replies {ℓ} : {W : Type 0} {A : Type ℓ} → (A → Response) → W × Result A → W × Response
replies f (w, r) = (w, answer f r)

module _ (P : Platform) where
  abbrev pub serve : Request → P.World → P.World × Response
  serve (creates_user u k) w = replies (λ x. completed) (create_user P u k w)
  serve (creates_group g u) w = replies (λ x. completed) (create_group P g u w)
  serve (adds g u) w = replies (λ x. completed) (add_user_to_group P g u w)
  serve (removes g u) w = replies (λ x. completed) (remove_user_from_group P g u w)
  serve (asks_part g u) w = replies is_part (is_user_part_of_group P g u w)
  serve (asks_keys g) w = replies has_keys (get_keys_of_group P g w)
  serve (deletes u) w = replies (λ x. completed) (delete_user P u w)

  abbrev pub serve_all : List Request → P.World → P.World × List Response
  serve_all [] w = (w, [])
  serve_all (q ∷ qs) w =
      let (w', a) = serve q w in let (w'', rest) = serve_all qs w' in (w'', a ∷ rest)
