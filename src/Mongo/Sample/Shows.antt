-- ===== src/Mongo/Sample/Shows.antt =====
-- Actions of the sample on a database that stands for a directory: what they show, and the directory that
-- the database stands for behind them.
use mongo_sgx_client.Base.{◌≡◌, refl, sym, ◌∙◌, ap, subst, Bool, Bytes, List, [], ◌∷◌, ◌++◌}
use mongo_sgx_client.Mongo.Platform.{
  Platform, BsonError, Result, value, thrown, undefined, Action, onward, ◌>>=◌, return,
}
use mongo_sgx_client.Mongo.Hashing.{hash_name}
use mongo_sgx_client.Mongo.Server.{IsQuiet}
use mongo_sgx_client.Mongo.Directory.{
  Directory, Request, Response, completed, refused, is_part, has_keys, asks_part, asks_keys, answer,
  replies, respond, serve,
}
use mongo_sgx_client.Mongo.Directory.Relates.{StandsFor}
use mongo_sgx_client.Mongo.Directory.Refines.{IsRequest, serve-Follows}
use mongo_sgx_client.Mongo.Reading.{is_user_part_of_group, get_keys_of_group}
use mongo_sgx_client.Mongo.Sample.{
  Shown, memberships, exception, try_catch, print_memberships, then_memberships, silent,
}
use mongo_sgx_client.Mongo.Sample.Teams.{user1, user2, group1, group2, has_part, Parts}

completed-value : (r : Result (Unit {0})) → answer (λ x. completed) r ≡ completed → r ≡ value tt
completed-value (value tt) e = refl
completed-value (thrown x) e = absurd (cc e)
completed-value undefined e = absurd (cc e)

part-value : (r : Result Bool) (b : Bool) → answer is_part r ≡ is_part b → r ≡ value b
part-value (value a) b e = cc e
part-value (thrown x) b e = absurd (cc e)
part-value undefined b e = absurd (cc e)

keys-value :
    (r : Result (List Bytes)) (ks : List Bytes) → answer has_keys r ≡ has_keys ks → r ≡ value ks
keys-value (value a) ks e = cc e
keys-value (thrown x) ks e = absurd (cc e)
keys-value undefined ks e = absurd (cc e)

refused-thrown :
    (r : Result (Unit {0})) → answer (λ x. completed) r ≡ refused → (e : BsonError) × (r ≡ thrown e)
refused-thrown (value tt) e = absurd (cc e)
refused-thrown (thrown x) e = (x, refl)
refused-thrown undefined e = absurd (cc e)

try_catch-value :
    {W : Type 0} (act : Action W (Unit {0})) (w v : W)
    → act w ≡ (v, value tt)
    → try_catch act w ≡ (v, value [])
try_catch-value act w v e = rw (try_catch, e) (ap (λ r. (r.0, value [])) e)

try_catch-thrown :
    {W : Type 0} (act : Action W (Unit {0})) (w v : W) (x : BsonError)
    → act w ≡ (v, thrown x)
    → try_catch act w ≡ (v, value (exception x ∷ []))
try_catch-thrown act w v x e = rw (try_catch, e) (ap (λ r. (r.0, value (exception x ∷ []))) e)

module _ (P : Platform) (Q : IsQuiet P) where
  -- Where an error shows, the value depends on it.
  abbrev pub Shows {ℓ} :
      {A : Type ℓ} → Action P.World A → (BsonError → A) → Directory → Directory → Type ℓ
  Shows act f d e =
      (w : P.World)
      → StandsFor P Q w d
      → (v : P.World) × (x : BsonError) × (act w ≡ (v, value (f x))) × StandsFor P Q v e

  pub Shows-bind {ℓ κ} :
      {A : Type ℓ} {B : Type κ} (m : Action P.World A) (k : A → Action P.World B) (a : A)
      (f : BsonError → B) (c d e : Directory)
      → Shows m (λ x. a) c d
      → Shows (k a) f d e
      → Shows (m >>= k) f c e
  Shows-bind m k a f c d e h l w s =
      let (v, x, run, s1) = h w s in
      let (u, y, run1, s2) = l v s1 in (u, y, ap (λ r. onward r k) run ∙ run1, s2)

  -- The error that the first action shows goes on to the end.
  pub Shows-after {ℓ κ} :
      {A : Type ℓ} {B : Type κ} (m : Action P.World A) (k : A → Action P.World B)
      (f : BsonError → A) (g : BsonError → B) (c d e : Directory)
      → Shows m f c d
      → ((x : BsonError) → Shows (k (f x)) (λ y. g x) d e)
      → Shows (m >>= k) g c e
  Shows-after m k f g c d e h l w s =
      let (v, x, run, s1) = h w s in
      let (u, y, run1, s2) = l x v s1 in (u, x, ap (λ r. onward r k) run ∙ run1, s2)

  -- Nothing that shows: an error stands there for none.
  abbrev no_error : BsonError
  no_error = record { code = 0; message = [] }

  pub Shows-return {ℓ} : {A : Type ℓ} (a : A) (d : Directory) → Shows (return a) (λ x. a) d d
  Shows-return a d w s = (w, no_error, refl, s)

  -- A request that the directory answers is served with the same answer.
  Served : Request → Directory → Directory → Response → Type 0
  Served q d e a =
      (w : P.World) → StandsFor P Q w d → ((serve P q w).1 ≡ a) × StandsFor P Q (serve P q w).0 e

  serve-Served :
      (q : Request) (d e : Directory) (a : Response)
      → IsRequest q
      → respond (hash_name P) q d ≡ (e, a)
      → Served q d e a
  unfolding Served
  serve-Served q d e a size same w s =
      let (answered, stands) = serve-Follows P Q q w d size s in
      (answered ∙ ap (λ r. r.1) same, subst (λ r. StandsFor P Q (serve P q w).0 r.0) same stands)

  -- A request of the sample that is completed.
  pub completed-Shows :
      (q : Request) (act : Action P.World (Unit {0})) (d e : Directory)
      → ((w : P.World) → serve P q w ≡ replies (λ x. completed) (act w))
      → IsRequest q
      → respond (hash_name P) q d ≡ (e, completed)
      → Shows act (λ x. tt) d e
  unfolding Served
  completed-Shows q act d e served size same w s =
      let (answered, stands) = serve-Served q d e completed size same w s in
      let done_so = completed-value (act w).1 (sym (ap (λ r. r.1) (served w)) ∙ answered) in
      (
        (act w).0,
        no_error,
        ap (λ r. ((act w).0, r)) done_so,
        subst (λ r. StandsFor P Q r.0 e) (served w) stands,
      )

  -- One that is refused, in its try block.
  pub refused-Shows :
      (q : Request) (act : Action P.World (Unit {0})) (d e : Directory)
      → ((w : P.World) → serve P q w ≡ replies (λ x. completed) (act w))
      → IsRequest q
      → respond (hash_name P) q d ≡ (e, refused)
      → Shows (try_catch act) (λ x. exception x ∷ []) d e
  unfolding Served
  refused-Shows q act d e served size same w s =
      let (answered, stands) = serve-Served q d e refused size same w s in
      let (x, threw) = refused-thrown (act w).1 (sym (ap (λ r. r.1) (served w)) ∙ answered) in
      (
        (act w).0,
        x,
        try_catch-thrown act w (act w).0 x (ap (λ r. ((act w).0, r)) threw),
        subst (λ r. StandsFor P Q r.0 e) (served w) stands,
      )

  -- A try block that throws nothing.
  pub try_catch-Shows :
      (act : Action P.World (Unit {0})) (d e : Directory)
      → Shows act (λ x. tt) d e
      → Shows (try_catch act) (λ x. []) d e
  try_catch-Shows act d e h w s =
      let (v, x, run, stands) = h w s in (v, x, try_catch-value act w v run, stands)

  part-Shows :
      (g u : Bytes) (d : Directory) (b : Bool)
      → has_part (hash_name P) g u d ≡ b
      → Shows (is_user_part_of_group P g u) (λ x. b) d d
  unfolding Served
  part-Shows g u d b same w s =
      let (answered, stands) =
        serve-Served (asks_part g u) d d (is_part b) tt (ap (λ x. (d, is_part x)) same) w s in
      (
        (is_user_part_of_group P g u w).0,
        no_error,
        ap (λ r. ((is_user_part_of_group P g u w).0, r))
            (part-value (is_user_part_of_group P g u w).1 b answered),
        stands,
      )

  pub keys-Shows :
      (g : Bytes) (d : Directory) (ks : List Bytes)
      → respond (hash_name P) (asks_keys g) d ≡ (d, has_keys ks)
      → Shows (get_keys_of_group P g) (λ x. ks) d d
  unfolding Served
  keys-Shows g d ks same w s =
      let (answered, stands) = serve-Served (asks_keys g) d d (has_keys ks) tt same w s in
      (
        (get_keys_of_group P g w).0,
        no_error,
        ap (λ r. ((get_keys_of_group P g w).0, r))
            (keys-value (get_keys_of_group P g w).1 ks answered),
        stands,
      )

  print_memberships-Shows :
      (d : Directory) (a b c e : Bool)
      → Parts (hash_name P) d a b c e
      → Shows (print_memberships P) (λ x. memberships a b c e) d d
  unfolding print_memberships
  print_memberships-Shows d a b c e h = Shows-bind _ _ a _ d d d (part-Shows group1 user1 d a h.0) (
      Shows-bind _ _ b _ d d d (part-Shows group1 user2 d b h.1) (
        Shows-bind _ _ c _ d d d (part-Shows group2 user1 d c h.2) (
          Shows-bind _ _ e _ d d d (part-Shows group2 user2 d e h.3)
            (Shows-return (memberships a b c e) d))))

  -- A part of the sample and the memberships behind it.
  pub then_memberships-Shows :
      (part : Action P.World (List Shown)) (f : BsonError → List Shown) (d d' : Directory)
      (a b c e : Bool)
      → Shows part f d d'
      → Parts (hash_name P) d' a b c e
      → Shows (then_memberships P part) (λ x. f x ++ memberships a b c e ∷ []) d d'
  then_memberships-Shows part f d d' a b c e h parts =
      Shows-after part _ f (λ x. f x ++ memberships a b c e ∷ []) d d' d' h
        (λ x.
          Shows-bind _ _ (memberships a b c e) _ d' d' d' (print_memberships-Shows d' a b c e parts)
            (Shows-return (f x ++ memberships a b c e ∷ []) d'))

  pub silent-Shows :
      (act : Action P.World (Unit {0})) (d e : Directory)
      → Shows act (λ x. tt) d e
      → Shows (silent P act) (λ x. []) d e
  silent-Shows act d e h = Shows-bind act _ tt _ d e e h (Shows-return [] e)
