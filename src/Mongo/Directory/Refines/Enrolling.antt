-- ===== src/Mongo/Directory/Refines/Enrolling.antt =====
-- The requests that change the members of a team.
use mongo_sgx_client.Base.{
  ◌≡◌, refl, sym, ◌∙◌, ap, Bool, ◌&&◌, not, Bytes, List, [], ◌∷◌, none, some, length, arith, All,
  Bool-cases, inl, inr, subst,
}
use mongo_sgx_client.Mongo.Platform.{Platform, BsonError, groups_collection, thrown}
use mongo_sgx_client.Mongo.Hashing.{aes_key, hash_name}
use mongo_sgx_client.Mongo.Groups.{add_user_to_group, create_group}
use mongo_sgx_client.Mongo.First.{first}
use mongo_sgx_client.Mongo.Server.{IsQuiet}
use mongo_sgx_client.Mongo.Server.Groups.{is_named, has_member}
use mongo_sgx_client.Mongo.Spec.{Group, add_member, remove_member}
use mongo_sgx_client.Mongo.Single.{Apart-update_first}
use mongo_sgx_client.Mongo.Methods.{with_member, without_member, remove_user_from_group-Holds}
use mongo_sgx_client.Mongo.Accounts.{User, is_user, HoldsUsers, reencrypt_user_key-none}
use mongo_sgx_client.Mongo.Inserting.{member_of}
use mongo_sgx_client.Mongo.Creating.{add_user_to_group-Holds}
use mongo_sgx_client.Mongo.Both.{Both, Both-first, Both-update_first}
use mongo_sgx_client.Mongo.Directory.{
  Account, Team, Directory, Request, adds, removes, is_account, is_titled, includes, account_in,
  enrolled, dismissed, respond, serve, Response, completed, refused, replies, with_key,
}
use mongo_sgx_client.Mongo.Directory.Relates.{
  IsSized, ForUser, ForGroup, is_user-is_account, lacks-agree, has-agree, ForGroup-add_member,
  ForGroup-remove_member, StandsFor,
}

pub All-first :
    (p : Account → Bool) (xs : List Account) (a : Account)
    → All IsSized xs
    → first p xs ≡ some a
    → IsSized a
All-first p [] a h e = absurd (cc)
All-first p (x ∷ xs) a h e = elim (Bool-cases (p x)) [
  | inl passes ↦ let same : x ≡ a = ground (arith, passes, e) in subst IsSized same h.0
  | inr fails ↦ All-first p xs a h.1 (ground (arith, fails, e))
]

module _ (P : Platform) (Q : IsQuiet P) where
  -- An outcome of the methods that is one of the directory: the same answer, and a database that stands
  -- for it.
  abbrev pub Same : P.World × Response → Directory × Response → Type 0
  Same (v, a) (d, b) = (a ≡ b) × StandsFor P Q v d

  abbrev pub Follows : Request → P.World → Directory → Type 0
  Follows q w d = Same (serve P q w) (respond (hash_name P) q d)

  pub follows :
      (q : Request) (w v : P.World) (d e : Directory) (a : Response)
      → serve P q w ≡ (v, a)
      → respond (hash_name P) q d ≡ (e, a)
      → StandsFor P Q v e
      → Follows q w d
  follows q w v d e a served responded stands =
      subst (λ x. Same x (respond (hash_name P) q d)) (sym served)
        (subst (Same (v, a)) (sym responded) (refl, stands))

  pub with_key-none :
      (u : Bytes) (d : Directory) (f : Bytes → List Team)
      → first (is_account (hash_name P u none)) d.accounts ≡ none
      → with_key (hash_name P) u d f ≡ (d, refused)
  with_key-none u d f e = rw (with_key, e) refl

  pub with_key-some :
      (u : Bytes) (d : Directory) (f : Bytes → List Team) (a : Account)
      → first (is_account (hash_name P u none)) d.accounts ≡ some a
      → with_key (hash_name P) u d f ≡ (record d { teams = f a.key }, completed)
  with_key-some u d f a e = rw (with_key, e) refl

  -- The groups with a member more, in a group and in a team of the name.
  pub enrolled-Both :
      (g u k t : Bytes) (gs : List Group) (ts : List Team)
      → Both (ForGroup P) gs ts
      → P.decrypt_aesgcm aes_key t ≡ some k
      → length k ≡ 32
      → Both
          (ForGroup P)
          (with_member (hash_name P g none) (member_of P g u t) gs)
          (enrolled (hash_name P) g u k ts)
  enrolled-Both g u k t gs ts both opens size =
      let h = hash_name P g none in
      let n = hash_name P u (some g) in
      Both-update_first (ForGroup P) (λ x. is_named h x && not (has_member n x))
        (λ x. is_titled (hash_name P) h x && not (includes n x)) (lacks-agree P h n) _ _
        (ForGroup-add_member P (member_of P g u t) (account_in (hash_name P) g u k)
          (refl, opens, size))
        gs ts both

  pub removes-Follows :
      (g u : Bytes) (w : P.World) (d : Directory) → StandsFor P Q w d → Follows (removes g u) w d
  removes-Follows g u w d (us, gs, user_docs, docs, accounts, teams, apart, sized) =
      let h = hash_name P g none in
      let n = hash_name P u (some g) in
      let (v, run, groups, users) = remove_user_from_group-Holds P Q gs w docs g u (apart.1 h) in
      let left = dismissed (hash_name P) g u d.teams in
      follows (removes g u) w v d (record d { teams = left }) completed
        (ap (replies (λ x. completed)) run) refl
        (
          us,
          without_member h n gs,
          users ∙ user_docs,
          groups,
          accounts,
          Both-update_first (ForGroup P) (λ x. is_named h x && has_member n x)
              (λ x. is_titled (hash_name P) h x && includes n x) (has-agree P h n) _ _
              (ForGroup-remove_member P n) gs d.teams teams,
          Apart-update_first _ (remove_member n) (λ x. refl) (λ x. refl) gs apart,
          sized,
        )

  -- What both requests have in common: a user who is not there is refused.
  pub unknown_user :
      (g u : Bytes) (us : List User) (w : P.World)
      → HoldsUsers P Q us w
      → first (is_user (hash_name P u none)) us ≡ none
      → (v : P.World) × (e : BsonError) × (add_user_to_group P g u w ≡ (v, thrown e))
        × (create_group P g u w ≡ (v, thrown e))
        × HoldsUsers P Q us v
        × (Q.documents groups_collection v ≡ Q.documents groups_collection w)
  unfolding add_user_to_group create_group
  unknown_user g u us w user_docs missing =
      let (v, e, run, users, groups) = reencrypt_user_key-none P Q us w user_docs u missing in
      (v, e, rw (add_user_to_group, run) refl, rw (create_group, run) refl, users, groups)

  pub adds-Follows :
      (g u : Bytes) (w : P.World) (d : Directory) → StandsFor P Q w d → Follows (adds g u) w d
  adds-Follows g u w d (us, gs, user_docs, docs, accounts, teams, apart, sized) =
      let h = hash_name P u none in
      elim (Both-first (ForUser P) (is_user h) (is_account h) (is_user-is_account P h) us d.accounts
        accounts) [
          | inl (missing, none_there) ↦
              let (v, e, run, run', users, groups) = unknown_user g u us w user_docs missing in
              follows (adds g u) w v d d refused (ap (replies (λ x. completed)) run)
                (with_key-none u d _ none_there)
                (us, gs, users, groups ∙ docs, accounts, teams, apart, sized)
          | inr (r, a, known, there, (named, opens)) ↦
              let (v, t, run, again, groups, users) =
                add_user_to_group-Holds P Q us gs w user_docs docs g u a.key r known opens
                  (apart.1 (hash_name P g none)) in
              follows (adds g u) w v d
                (record d { teams = enrolled (hash_name P) g u a.key d.teams }) completed
                (ap (replies (λ x. completed)) run) (with_key-some u d _ a there)
                (
                  us,
                  with_member (hash_name P g none) (member_of P g u t) gs,
                  users,
                  groups,
                  accounts,
                  enrolled-Both g u a.key t gs d.teams teams again
                      (All-first (is_account h) d.accounts a sized there),
                  Apart-update_first _ (add_member (member_of P g u t)) (λ x. refl) (λ x. refl) gs
                      apart,
                  sized,
                )
        ]
