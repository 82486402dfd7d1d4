-- ===== src/Mongo/Shared.antt =====
-- The groups' collection while other clients write to it between the calls of this one. They keep to the
-- rules: the groups that they leave are signed.
pub mod Firsts
pub mod Rounds
pub mod Methods
pub mod Memory
mod Examples
use mongo_sgx_client.Base.{
  ℕ, zero, suc, some, ◌&&◌, ap, subst, ◌≡◌, Bool, true, false, Bytes, List, ◌∷◌, ◌++◌, map, length,
  All,
}
use mongo_sgx_client.Mongo.Bson.{Document, eqb}
use mongo_sgx_client.Mongo.Platform.{
  Platform, BsonError, Selector, Update, Result, value, thrown, groups_collection, int32, matched,
}
use mongo_sgx_client.Mongo.Hashing.{hmac_result_length}
use mongo_sgx_client.Mongo.First.{filter, first, update_first, any}
use mongo_sgx_client.Mongo.Server.{cursor_on, selects, apply_update, matched_count}
use mongo_sgx_client.Mongo.Spec.{Group, group_document, signature_of}

-- `others` is what the other clients do before a call is served; the call itself is served in one step.
-- `InUse` are the groups that there may be.
pub record IsShared (P : Platform) (InUse : Group → Type 0) : Type 0 where
  pub documents : P.World → List Document
  pub others : P.World → P.World
  pub others_keep :
      (w : P.World) (gs : List Group)
      → documents w ≡ map (group_document P) gs
      → All InUse gs
      → (gs' : List Group) × (documents (others w) ≡ map (group_document P) gs') × All InUse gs'
  pub length-hmac256 : (k : Bytes) (us : List Bytes) → length (P.hmac256 k us) ≡ hmac_result_length
  pub find_answer :
      (s : Selector) (w : P.World)
      → (P.find_with_opts groups_collection s w).1
        ≡ cursor_on (filter (selects s) (documents (others w)))
  pub documents-find :
      (s : Selector) (w : P.World)
      → documents (P.find_with_opts groups_collection s w).0 ≡ documents (others w)
  pub update_answer :
      (s : Selector) (u : Update) (w : P.World)
      → (P.update_one groups_collection s u w).1
        ≡ matched (int32 (matched_count (any (selects s) (documents (others w)))))
  pub iter_int64_int32 : (n : ℕ) → P.iter_int64 (int32 n) ≡ 0
  pub documents-update :
      (s : Selector) (u : Update) (w : P.World)
      → documents (P.update_one groups_collection s u w).0
        ≡ update_first (selects s) (apply_update u) (documents (others w))

-- Among these groups, the signature tells the signed fields.
abbrev pub TellsFields : Platform → (Group → Type 0) → Type 0
TellsFields P InUse =
    (g g' : Group)
    → InUse g
    → InUse g'
    → signature_of P g ≡ signature_of P g'
    → (g.name ≡ g'.name) × (g.encname ≡ g'.encname) × (g.members ≡ g'.members)

module _ (P : Platform) (InUse : Group → Type 0) (S : IsShared P InUse) where
  -- The collection holds these groups, each with the signature that belongs to it.
  abbrev pub Contains : List Group → P.World → Type 0
  Contains gs w = (S.documents w ≡ map (group_document P) gs) × All InUse gs

  abbrev pub found : Selector → P.World → P.World
  found c w = (P.find_with_opts groups_collection c w).0

  -- The groups that have the signature of another one, among those to change.
  abbrev pub has_still : (Group → Bool) → Group → Group → Bool
  has_still q g g' = q g' && eqb (signature_of P g') (signature_of P g)

  -- The course of a method that searches with `c` for one of the groups `q`, to change it with `f`, with
  -- the attempts that it has left, the world before them, and how it ends.
  pub data Settles (c : Selector) (q : Group → Bool) (f : Group → Group) (unable : BsonError)
      : ℕ → P.World → P.World × Result (Unit {0}) → Type 0 where
    -- No attempt is left.
    gave_up : (w : P.World) → Settles c q f unable zero w (w, thrown unable)
    -- The search finds none of the groups that there are then, and the method returns.
    none_left :
        (n : ℕ) (w : P.World) (gs : List Group)
        → Contains gs (S.others w)
        → Contains gs (found c w)
        → any q gs ≡ false
        → Settles c q f unable (suc n) w (found c w, value tt)
    -- The search finds a group; the first one that has its signature still when the update is served is
    -- changed and nothing else, and the rest of the attempts follows.
    one_changed :
        (n : ℕ) (w : P.World) (gs front behind : List Group) (g g' : Group) (s : Selector)
        (x : Update) (r : P.World × Result (Unit {0}))
        → Contains gs (S.others w)
        → first q gs ≡ some g
        → Contains (front ++ g' ∷ behind) (S.others (found c w))
        → has_still q g g' ≡ true
        → any (has_still q g) front ≡ false
        → Contains (front ++ f g' ∷ behind) (P.update_one groups_collection s x (found c w)).0
        → Settles c q f unable n (P.update_one groups_collection s x (found c w)).0 r
        → Settles c q f unable (suc n) w r
    -- The search finds a group, but none has its signature when the update is served: nothing is changed.
    missed_all :
        (n : ℕ) (w : P.World) (gs gs' : List Group) (g : Group) (s : Selector) (x : Update)
        (r : P.World × Result (Unit {0}))
        → Contains gs (S.others w)
        → first q gs ≡ some g
        → Contains gs' (S.others (found c w))
        → any (has_still q g) gs' ≡ false
        → Contains gs' (P.update_one groups_collection s x (found c w)).0
        → Settles c q f unable n (P.update_one groups_collection s x (found c w)).0 r
        → Settles c q f unable (suc n) w r

  -- Where the method returns, no group is left to change.
  pub Settles-any :
      (c : Selector) (q : Group → Bool) (f : Group → Group) (unable : BsonError) (n : ℕ)
      (w v : P.World) (r : P.World × Result (Unit {0}))
      → Settles c q f unable n w r
      → r ≡ (v, value tt)
      → (gs : List Group) × Contains gs v × (any q gs ≡ false)
  Settles-any c q f unable n w v r (gave_up u) e = absurd (cc (ap (λ x. x.1) e))
  Settles-any c q f unable n w v r (none_left m u gs before held none) e =
      (gs, subst (Contains gs) (ap (λ x. x.0) e) held, none)
  Settles-any c q f unable n w v r
        (one_changed m u gs front behind g g' s x r' h1 h2 h3 h4 h5 h6 rest) e =
      Settles-any c q f unable m _ v r' rest e
  Settles-any c q f unable n w v r (missed_all m u gs gs' g s x r' h1 h2 h3 h4 h5 rest) e =
      Settles-any c q f unable m _ v r' rest e
