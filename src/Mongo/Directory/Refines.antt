-- ===== src/Mongo/Directory/Refines.antt =====
-- The methods serve requests as the directory does.
pub mod Enrolling
pub mod Founding
use mongo_sgx_client.Base.{
  ℕ, ◌≡◌, refl, sym, ◌∙◌, ap, ap₂, Bool, true, false, ◌&&◌, not, Bytes, List, [], ◌∷◌, ◌++◌, Option,
  none, some, map, length, arith, All, All-append, Bool-cases, inl, inr, subst,
}
use mongo_sgx_client.Mongo.Platform.{Platform, users_collection, groups_collection, value, thrown}
use mongo_sgx_client.Mongo.Hashing.{aes_key, hash_name}
use mongo_sgx_client.Mongo.Reading.{key_size}
use mongo_sgx_client.Mongo.First.{first, any, remove_first}
use mongo_sgx_client.Mongo.Server.{IsQuiet}
use mongo_sgx_client.Mongo.Server.Groups.{is_named, has_member}
use mongo_sgx_client.Mongo.Spec.{Group}
use mongo_sgx_client.Mongo.Quiet.{Holds}
use mongo_sgx_client.Mongo.Distinct.{Elsewhere, Distinct}
use mongo_sgx_client.Mongo.Single.{Single, Apart}
use mongo_sgx_client.Mongo.Methods.{Leaves, is_user_part_of_group-Holds}
use mongo_sgx_client.Mongo.Keys.{get_keys_of_group-Holds, get_keys_of_group-none}
use mongo_sgx_client.Mongo.Removals.{without_user}
use mongo_sgx_client.Mongo.Cleaning.{delete_user-Holds, delete_user-no_groups}
use mongo_sgx_client.Mongo.Accounts.{
  User, is_user, HoldsUsers, create_user-Holds, create_user-clash,
}
use mongo_sgx_client.Mongo.Both.{Both, Both-append_one, Both-any, Both-first, Both-remove_first}
use mongo_sgx_client.Mongo.Directory.{
  Account, Team, Directory, Request, creates_user, creates_group, adds, removes, asks_part,
  asks_keys, deletes, Response, completed, refused, is_part, has_keys, replies, is_account,
  is_titled, includes, key_of, respond, respond_all, serve, serve_all,
}
use mongo_sgx_client.Mongo.Directory.Relates.{
  IsSized, ForUser, ForGroup, is_named-is_titled, is_user-is_account, has-agree, Open-Both, titles,
  Named-titles, ForGroup-without_user, StandsFor,
}
use Enrolling.{Follows, follows, adds-Follows, removes-Follows}
use Founding.{creates_group-Follows}

-- Requests whose keys have the size of a key.
abbrev pub IsRequest : Request → Type 0
IsRequest (creates_user u k) = length k ≡ key_size
IsRequest _ = Unit

All-remove_first :
    (p : Account → Bool) (xs : List Account) → All IsSized xs → All IsSized (remove_first p xs)
All-remove_first p [] h = tt
All-remove_first p (x ∷ xs) h = elim (Bool-cases (p x)) [
  | inl passes ↦ rw (remove_first, passes) h.1
  | inr fails ↦ rw (remove_first, fails) (h.0, All-remove_first p xs h.1)
]

module _ (P : Platform) (u : Bytes) where
  Elsewhere-without_user :
      (id : Bytes) (gs : List Group) (ns : List Bytes)
      → Elsewhere id gs
      → Elsewhere id (without_user P u gs ns)
  Elsewhere-without_user id [] ns e = tt
  Elsewhere-without_user id (g ∷ gs) [] e = tt
  Elsewhere-without_user id (g ∷ gs) (n ∷ ns) e = (e.0, Elsewhere-without_user id gs ns e.1)

  Distinct-without_user :
      (gs : List Group) (ns : List Bytes) → Distinct gs → Distinct (without_user P u gs ns)
  Distinct-without_user [] ns d = tt
  Distinct-without_user (g ∷ gs) [] d = tt
  Distinct-without_user (g ∷ gs) (n ∷ ns) d =
      (Elsewhere-without_user g.id gs ns d.0, Distinct-without_user gs ns d.1)

  any-without_user :
      (h : Bytes) (gs : List Group) (ns : List Bytes)
      → any (is_named h) gs ≡ false
      → any (is_named h) (without_user P u gs ns) ≡ false
  any-without_user h [] ns e = refl
  any-without_user h (g ∷ gs) [] e = refl
  any-without_user h (g ∷ gs) (n ∷ ns) e = ground (arith, e, any-without_user h gs ns)

  Single-without_user :
      (h : Bytes) (gs : List Group) (ns : List Bytes)
      → Single h gs
      → Single h (without_user P u gs ns)
  Single-without_user h [] ns s = tt
  Single-without_user h (g ∷ gs) [] s = tt
  Single-without_user h (g ∷ gs) (n ∷ ns) s =
      (ground (arith, s.0, any-without_user h gs ns), Single-without_user h gs ns s.1)

  Apart-without_user :
      (gs : List Group) (ns : List Bytes) → Apart gs → Apart (without_user P u gs ns)
  Apart-without_user gs ns apart =
      (Distinct-without_user gs ns apart.0, λ h. Single-without_user h gs ns (apart.1 h))

module _ (P : Platform) (Q : IsQuiet P) where
  creates_user-Follows :
      (u k : Bytes) (w : P.World) (d : Directory)
      → length k ≡ key_size
      → StandsFor P Q w d
      → Follows P Q (creates_user u k) w d
  creates_user-Follows u k w d size (us, gs, user_docs, docs, accounts, teams, apart, sized) =
      let h = hash_name P u none in
      let agree : any (is_user h) us ≡ any (is_account h) d.accounts =
        Both-any (ForUser P) (is_user h) (is_account h) (is_user-is_account P h) us d.accounts
          accounts in
      let a : Account = record { name = h; key = k } in
      elim (Bool-cases (any (is_user h) us)) [
        | inl taken ↦
            let (v, e, run, code, users, groups) = create_user-clash P Q us w user_docs u k taken in
            let there : any (is_account h) d.accounts ≡ true = sym agree ∙ taken in
            follows P Q (creates_user u k) w v d d refused (ap (replies (λ x. completed)) run)
              (rw (respond, there) refl)
              (us, gs, users, groups ∙ docs, accounts, teams, apart, sized)
        | inr free ↦
            let (v, r, run, named, opens, users, groups) =
              create_user-Holds P Q us w user_docs u k free in
            let absent : any (is_account h) d.accounts ≡ false = sym agree ∙ free in
            follows P Q (creates_user u k) w v d (record d { accounts = d.accounts ++ a ∷ [] })
              completed (ap (replies (λ x. completed)) run) (rw (respond, absent) refl)
              (
                us ++ r ∷ [],
                gs,
                users,
                groups ∙ docs,
                Both-append_one (ForUser P) us d.accounts r a accounts (named, opens),
                teams,
                apart,
                All-append IsSized d.accounts (a ∷ []) sized (size, tt),
              )
      ]

  asks_part-Follows :
      (g u : Bytes) (w : P.World) (d : Directory)
      → StandsFor P Q w d
      → Follows P Q (asks_part g u) w d
  asks_part-Follows g u w d (us, gs, user_docs, docs, accounts, teams, apart, sized) =
      let h = hash_name P g none in
      let n = hash_name P u (some g) in
      let q = λ (t : Team). is_titled (hash_name P) h t && includes n t in
      let agree : any (λ x. is_named h x && has_member n x) gs ≡ any q d.teams =
        Both-any (ForGroup P) (λ x. is_named h x && has_member n x) q (has-agree P h n) gs d.teams
          teams in
      let (v, run, groups, users) = is_user_part_of_group-Holds P Q gs w docs g u in
      follows P Q (asks_part g u) w v d d (is_part (any q d.teams))
        (ap (replies is_part) run ∙ ap (λ b. (v, is_part b)) agree) refl
        (us, gs, users ∙ user_docs, groups, accounts, teams, apart, sized)

  asks_keys-Follows :
      (g : Bytes) (w : P.World) (d : Directory) → StandsFor P Q w d → Follows P Q (asks_keys g) w d
  asks_keys-Follows g w d (us, gs, user_docs, docs, accounts, teams, apart, sized) =
      let h = hash_name P g none in
      elim (Both-first (ForGroup P) (is_named h) (is_titled (hash_name P) h)
        (is_named-is_titled P h) gs d.teams teams) [
          | inl (missing, none_there) ↦
              let (v, run, groups, users) = get_keys_of_group-none P Q gs w docs g missing in
              follows P Q (asks_keys g) w v d d refused (ap (replies has_keys) run)
                (rw (respond, none_there) refl)
                (us, gs, users ∙ user_docs, groups, accounts, teams, apart, sized)
          | inr (x, t, found, there, both) ↦
              let (v, run, groups, users) =
                get_keys_of_group-Holds P Q gs w docs g x (map key_of t.members) found
                  (Open-Both P x.members t.members both.2) in
              follows P Q (asks_keys g) w v d d (has_keys (map key_of t.members))
                (ap (replies has_keys) run) (rw (respond, there) refl)
                (us, gs, users ∙ user_docs, groups, accounts, teams, apart, sized)
        ]

  deletes-stored :
      (u : Bytes) (w : P.World) (xs : List Account) (ts : List Team) (us : List User)
      (gs : List Group)
      → HoldsUsers P Q us w
      → Holds P Q gs w
      → Both (ForUser P) us xs
      → Both (ForGroup P) gs ts
      → Apart gs
      → All IsSized xs
      → Follows P Q (deletes u) w (record { accounts = xs; teams = ts })
  deletes-stored u w xs [] us [] user_docs docs accounts teams apart sized =
      let (v, e, run, code, users, groups) = delete_user-no_groups P Q us w user_docs docs u in
      let d : Directory = record { accounts = xs; teams = [] } in
      follows P Q (deletes u) w v d d refused (ap (replies (λ x. completed)) run) refl
        (us, [], users, groups, accounts, tt, apart, sized)
  deletes-stored u w xs (t ∷ ts) us [] user_docs docs accounts teams apart sized = elim teams [ ]
  deletes-stored u w xs [] us (g ∷ gs) user_docs docs accounts teams apart sized = elim teams [ ]
  deletes-stored u w xs (t ∷ ts) us (g ∷ gs) user_docs docs accounts teams apart sized =
      let h = hash_name P u none in
      let ns = titles P (t ∷ ts) in
      let (v, run, users, groups) =
        delete_user-Holds P Q us g gs ns w user_docs docs (Named-titles P (g ∷ gs) (t ∷ ts) teams)
          apart.0 u in
      follows P Q (deletes u) w v (record { accounts = xs; teams = t ∷ ts }) _ completed
        (ap (replies (λ x. completed)) run) refl
        (
          remove_first (is_user h) us,
          without_user P u (g ∷ gs) ns,
          users,
          groups,
          Both-remove_first (ForUser P) (is_user h) (is_account h) (is_user-is_account P h) us xs
              accounts,
          ForGroup-without_user P u (g ∷ gs) (t ∷ ts) teams,
          Apart-without_user P u (g ∷ gs) ns apart,
          All-remove_first (is_account h) xs sized,
        )

  deletes-Follows :
      (u : Bytes) (w : P.World) (d : Directory) → StandsFor P Q w d → Follows P Q (deletes u) w d
  deletes-Follows u w d (us, gs, user_docs, docs, accounts, teams, apart, sized) =
      deletes-stored u w d.accounts d.teams us gs user_docs docs accounts teams apart sized

  pub serve-Follows :
      (q : Request) (w : P.World) (d : Directory)
      → IsRequest q
      → StandsFor P Q w d
      → Follows P Q q w d
  serve-Follows (creates_user u k) w d size stands = creates_user-Follows u k w d size stands
  serve-Follows (creates_group g u) w d size stands = creates_group-Follows P Q g u w d stands
  serve-Follows (adds g u) w d size stands = adds-Follows P Q g u w d stands
  serve-Follows (removes g u) w d size stands = removes-Follows P Q g u w d stands
  serve-Follows (asks_part g u) w d size stands = asks_part-Follows g u w d stands
  serve-Follows (asks_keys g) w d size stands = asks_keys-Follows g w d stands
  serve-Follows (deletes u) w d size stands = deletes-Follows u w d stands

  -- On a platform that keeps the laws of `IsQuiet`, whose database stands for a directory: users and
  -- groups with their signatures, distinct ids and names and encrypted keys for its accounts and teams. Then the
  -- methods answer any sequence of requests, whose new keys have 32 bytes, as the directory does: what
  -- completes there returns, what is refused there throws, and questions get the directory's answers; none
  -- has undefined behaviour. Behind the requests the database stands for what the directory is then.
  pub serve_all-respond_all :
      (qs : List Request) (w : P.World) (d : Directory)
      → All IsRequest qs
      → StandsFor P Q w d
      → let (v, answers) = serve_all P qs w in
        let (e, expected) = respond_all (hash_name P) qs d in
        (answers ≡ expected) × StandsFor P Q v e
  serve_all-respond_all [] w d sizes stands = (refl, stands)
  serve_all-respond_all (q ∷ qs) w d sizes stands =
      let (same, stands') = serve-Follows q w d sizes.0 stands in
      let (rest, stands'') =
        serve_all-respond_all qs (serve P q w).0 (respond (hash_name P) q d).0 sizes.1 stands' in
      (ap₂ (λ x xs. x ∷ xs) same rest, stands'')
