-- ===== src/Mongo/Directory/Relates.antt =====
-- When a database stands for a directory.
use mongo_sgx_client.Base.{
  ◌≡◌, ap, ap₂, ◌&&◌, not, Bytes, List, [], ◌∷◌, none, some, map, length, All,
}
use mongo_sgx_client.Mongo.Bson.{eqb}
use mongo_sgx_client.Mongo.Platform.{Platform}
use mongo_sgx_client.Mongo.Hashing.{aes_key, hash_name}
use mongo_sgx_client.Mongo.Reading.{key_size}
use mongo_sgx_client.Mongo.Server.{IsQuiet}
use mongo_sgx_client.Mongo.Server.Groups.{is_named, has_member}
use mongo_sgx_client.Mongo.Spec.{Member, Group, is_member, is_other, add_member, remove_member}
use mongo_sgx_client.Mongo.Quiet.{Holds}
use mongo_sgx_client.Mongo.Single.{Apart}
use mongo_sgx_client.Mongo.Keys.{Open}
use mongo_sgx_client.Mongo.Removals.{Named, without_user}
use mongo_sgx_client.Mongo.Accounts.{User, is_user, HoldsUsers}
use mongo_sgx_client.Mongo.Both.{Both, Both-append_one, Both-any, Both-filter}
use mongo_sgx_client.Mongo.Directory.{
  Account, Team, Directory, is_account, includes, joined_by, left_by, key_of, is_titled,
  without_account,
}

-- A key of the right size.
abbrev pub IsSized : Account → Type 0
IsSized a = length a.key ≡ key_size

module _ (P : Platform) where
  -- A stored user, and a member of a group, for an account: the same name, and a text that decrypts to
  -- the key.
  abbrev pub ForUser : User → Account → Type 0
  ForUser r a = (r.name ≡ a.name) × (P.decrypt_aesgcm aes_key r.key ≡ some a.key)

  abbrev pub ForMember : Member → Account → Type 0
  ForMember m a = (m.name ≡ a.name) × (P.decrypt_aesgcm aes_key m.key ≡ some a.key) × IsSized a

  abbrev pub ForGroup : Group → Team → Type 0
  ForGroup g t =
      (g.name ≡ hash_name P t.title none)
      × (P.decrypt_aesgcm aes_key g.encname ≡ some t.title)
      × Both ForMember g.members t.members

  pub is_user-is_account :
      (h : Bytes) (r : User) (a : Account) → ForUser r a → is_user h r ≡ is_account h a
  is_user-is_account h r a s = ap (λ n. eqb n h) s.0

  is_member-is_account :
      (h : Bytes) (m : Member) (a : Account) → ForMember m a → is_member h m ≡ is_account h a
  is_member-is_account h m a s = ap (λ n. eqb n h) s.0

  has_member-includes :
      (u : Bytes) (g : Group) (t : Team) → ForGroup g t → has_member u g ≡ includes u t
  has_member-includes u g t s =
      Both-any ForMember (is_member u) (is_account u) (is_member-is_account u) g.members t.members
        s.2

  pub is_named-is_titled :
      (h : Bytes) (g : Group) (t : Team) → ForGroup g t → is_named h g ≡ is_titled (hash_name P) h t
  is_named-is_titled h g t s = ap (λ n. eqb n h) s.0

  pub lacks-agree :
      (h u : Bytes) (g : Group) (t : Team)
      → ForGroup g t
      → (is_named h g && not (has_member u g)) ≡ (is_titled (hash_name P) h t && not (includes u t))
  lacks-agree h u g t s =
      ap₂ (λ a b. a && not b) (is_named-is_titled h g t s) (has_member-includes u g t s)

  pub has-agree :
      (h u : Bytes) (g : Group) (t : Team)
      → ForGroup g t
      → (is_named h g && has_member u g) ≡ (is_titled (hash_name P) h t && includes u t)
  has-agree h u g t s =
      ap₂ (λ a b. a && b) (is_named-is_titled h g t s) (has_member-includes u g t s)

  pub ForGroup-add_member :
      (m : Member) (a : Account)
      → ForMember m a
      → (g : Group) (t : Team) → ForGroup g t
      → ForGroup (add_member m g) (joined_by a t)
  ForGroup-add_member m a r g t s =
      (s.0, s.1, Both-append_one ForMember g.members t.members m a s.2 r)

  pub ForGroup-remove_member :
      (u : Bytes) (g : Group) (t : Team) → ForGroup g t → ForGroup (remove_member u g) (left_by u t)
  ForGroup-remove_member u g t s = (
    s.0,
    s.1,
    Both-filter ForMember (is_other u) (λ a. not (is_account u a))
        (λ m a r. ap not (is_member-is_account u m a r)) g.members t.members s.2,
  )

  -- The keys that the members' texts decrypt to.
  pub Open-Both :
      (ms : List Member) (xs : List Account) → Both ForMember ms xs → Open P ms (map key_of xs)
  Open-Both [] [] h = tt
  Open-Both [] (a ∷ xs) h = elim h [ ]
  Open-Both (m ∷ ms) [] h = elim h [ ]
  Open-Both (m ∷ ms) (a ∷ xs) h = (h.0.1, h.0.2, Open-Both ms xs h.1)

  abbrev pub titles : List Team → List Bytes
  titles ts = map (λ t. t.title) ts

  pub Named-titles :
      (gs : List Group) (ts : List Team) → Both ForGroup gs ts → Named P gs (titles ts)
  Named-titles [] [] h = tt
  Named-titles [] (t ∷ ts) h = elim h [ ]
  Named-titles (g ∷ gs) [] h = elim h [ ]
  Named-titles (g ∷ gs) (t ∷ ts) h = (h.0.1, Named-titles gs ts h.1)

  pub ForGroup-without_user :
      (u : Bytes) (gs : List Group) (ts : List Team)
      → Both ForGroup gs ts
      → Both ForGroup (without_user P u gs (titles ts)) (without_account (hash_name P) u ts)
  ForGroup-without_user u [] [] h = tt
  ForGroup-without_user u [] (t ∷ ts) h = elim h [ ]
  ForGroup-without_user u (g ∷ gs) [] h = elim h [ ]
  ForGroup-without_user u (g ∷ gs) (t ∷ ts) h = (
    ForGroup-remove_member (hash_name P u (some t.title)) g t h.0,
    ForGroup-without_user u gs ts h.1,
  )

  -- The database holds users and groups, signed and with distinct ids and names, that stand for the directory's.
  abbrev pub StandsFor : IsQuiet P → P.World → Directory → Type 0
  StandsFor Q w d =
      (us : List User) × (gs : List Group) × HoldsUsers P Q us w
      × Holds P Q gs w
      × Both ForUser us d.accounts
      × Both ForGroup gs d.teams
      × Apart gs
      × All IsSized d.accounts
