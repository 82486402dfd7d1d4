-- ===== src/Mongo/Directory/Refines/Founding.antt =====
-- The request that creates a group.
use mongo_sgx_client.Base.{
  ◌≡◌, refl, sym, ◌∙◌, ap, true, false, Bytes, List, [], ◌∷◌, ◌++◌, none, some, All, Bool-cases,
  inl, inr, subst,
}
use mongo_sgx_client.Mongo.Platform.{Platform}
use mongo_sgx_client.Mongo.Hashing.{aes_key, hash_name}
use mongo_sgx_client.Mongo.First.{first, any}
use mongo_sgx_client.Mongo.Server.{IsQuiet}
use mongo_sgx_client.Mongo.Server.Groups.{is_named}
use mongo_sgx_client.Mongo.Spec.{Group, add_member}
use mongo_sgx_client.Mongo.Quiet.{Holds}
use mongo_sgx_client.Mongo.Single.{Apart, Apart-append_one, Apart-update_first}
use mongo_sgx_client.Mongo.Methods.{with_member}
use mongo_sgx_client.Mongo.Accounts.{User, is_user, HoldsUsers}
use mongo_sgx_client.Mongo.Inserting.{member_of}
use mongo_sgx_client.Mongo.Creating.{create_group-Holds, create_group-taken}
use mongo_sgx_client.Mongo.Both.{Both, Both-append_one, Both-any, Both-first}
use mongo_sgx_client.Mongo.Directory.{
  Account, Team, Directory, creates_group, is_account, is_titled, account_in, enrolled, completed,
  refused, replies, founded,
}
use mongo_sgx_client.Mongo.Directory.Relates.{
  IsSized, ForUser, ForMember, ForGroup, is_user-is_account, is_named-is_titled, StandsFor,
}
use mongo_sgx_client.Mongo.Directory.Refines.Enrolling.{
  All-first, Follows, follows, with_key-none, with_key-some, enrolled-Both, unknown_user,
}

module _ (P : Platform) (Q : IsQuiet P) where
  founded_fresh :
      (g u k : Bytes) (ts : List Team)
      → any (is_titled (hash_name P) (hash_name P g none)) ts ≡ false
      → founded (hash_name P) g u k ts
        ≡ ts ++ record { title = g; members = account_in (hash_name P) g u k ∷ [] } ∷ []
  founded_fresh g u k ts e = rw (founded, e) refl

  founded_taken :
      (g u k : Bytes) (ts : List Team)
      → any (is_titled (hash_name P) (hash_name P g none)) ts ≡ true
      → founded (hash_name P) g u k ts ≡ enrolled (hash_name P) g u k ts
  founded_taken g u k ts e = rw (founded, e) refl

  creates_group-known :
      (g u : Bytes) (w : P.World) (d : Directory) (r : User) (a : Account) (us : List User)
      (gs : List Group)
      → HoldsUsers P Q us w
      → Holds P Q gs w
      → Both (ForUser P) us d.accounts
      → Both (ForGroup P) gs d.teams
      → Apart gs
      → All IsSized d.accounts
      → first (is_user (hash_name P u none)) us ≡ some r
      → first (is_account (hash_name P u none)) d.accounts ≡ some a
      → P.decrypt_aesgcm aes_key r.key ≡ some a.key
      → Follows P Q (creates_group g u) w d
  creates_group-known g u w d r a us gs user_docs docs accounts teams apart sized known there
        opens =
      let h = hash_name P g none in
      let size = All-first (is_account (hash_name P u none)) d.accounts a sized there in
      let agree : any (is_named h) gs ≡ any (is_titled (hash_name P) h) d.teams =
        Both-any (ForGroup P) (is_named h) (is_titled (hash_name P) h) (is_named-is_titled P h) gs
          d.teams teams in
      let e : Directory = record d { teams = founded (hash_name P) g u a.key d.teams } in
      let responded = with_key-some P Q u d (λ k. founded (hash_name P) g u k d.teams) a there in
      elim (Bool-cases (any (is_named h) gs)) [
        | inl taken ↦
            let (v, t, run, again, groups, users) =
              create_group-taken P Q us gs w user_docs docs g u a.key r known opens (apart.1 h)
                taken in
            let both = enrolled-Both P Q g u a.key t gs d.teams teams again size in
            follows P Q (creates_group g u) w v d e completed (ap (replies (λ x. completed)) run)
              responded
              (
                us,
                with_member h (member_of P g u t) gs,
                users,
                groups,
                accounts,
                subst (Both (ForGroup P) _)
                    (sym (founded_taken g u a.key d.teams (sym agree ∙ taken))) both,
                Apart-update_first _ (add_member (member_of P g u t)) (λ x. refl) (λ x. refl) gs
                    apart,
                sized,
              )
        | inr free ↦
            let (v, x, t, run, called, members, again, titled, unique, groups, users) =
              create_group-Holds P Q us gs w user_docs docs g u a.key r known opens free in
            let joined =
              subst (λ ms. Both (ForMember P) ms (account_in (hash_name P) g u a.key ∷ []))
                (sym members) ((refl, again, size), tt) in
            let both = Both-append_one (ForGroup P) gs d.teams x _ teams (called, titled, joined) in
            follows P Q (creates_group g u) w v d e completed (ap (replies (λ x. completed)) run)
              responded
              (
                us,
                gs ++ x ∷ [],
                users,
                groups,
                accounts,
                subst (Both (ForGroup P) _)
                    (sym (founded_fresh g u a.key d.teams (sym agree ∙ free))) both,
                Apart-append_one gs x (ap (λ n. any (is_named n) gs) called ∙ free) unique apart,
                sized,
              )
      ]

  pub creates_group-Follows :
      (g u : Bytes) (w : P.World) (d : Directory)
      → StandsFor P Q w d
      → Follows P Q (creates_group g u) w d
  creates_group-Follows g u w d (us, gs, user_docs, docs, accounts, teams, apart, sized) =
      let h = hash_name P u none in
      elim (Both-first (ForUser P) (is_user h) (is_account h) (is_user-is_account P h) us d.accounts
        accounts) [
          | inl (missing, none_there) ↦
              let (v, e, run, run', users, groups) = unknown_user P Q g u us w user_docs missing in
              follows P Q (creates_group g u) w v d d refused (ap (replies (λ x. completed)) run')
                (with_key-none P Q u d _ none_there)
                (us, gs, users, groups ∙ docs, accounts, teams, apart, sized)
          | inr (r, a, known, there, (named, opens)) ↦
              creates_group-known g u w d r a us gs user_docs docs accounts teams apart sized known
                there opens
        ]
