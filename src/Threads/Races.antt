-- ===== src/Threads/Races.antt =====
-- What a lock of trusted/pthread.c keeps apart.
use mongo_sgx_client.Base.{◌≡◌, refl, List, [], ◌∷◌, ◌++◌}
use mongo_sgx_client.Threads.{pthread_mutex_lock, pthread_mutex_unlock}

-- The steps of a thread on the state that it shares, one after the other.
unfoldable pub execute : {W : Type 0} → List (W → W) → W → W
execute [] w = w
execute (f ∷ fs) w = execute fs (f w)

-- A list of steps between a lock and its unlock.
unfoldable pub critical : {W : Type 0} → List (W → W) → List (W → W)
critical steps = pthread_mutex_lock ∷ steps ++ pthread_mutex_unlock ∷ []

-- An order in which two threads come to run.
pub data Interleaved {A : Type 0} : List A → List A → List A → Type 0 where
  both_done : Interleaved [] [] []
  first : {x : A} {xs ys zs : List A} → Interleaved xs ys zs → Interleaved (x ∷ xs) ys (x ∷ zs)
  second : {y : A} {xs ys zs : List A} → Interleaved xs ys zs → Interleaved xs (y ∷ ys) (y ∷ zs)

-- A last step of each thread can come behind everything else.
Interleaved-ends :
    {A : Type 0} {xs ys zs : List A} (u v : A)
    → Interleaved xs ys zs
    → Interleaved (xs ++ u ∷ []) (ys ++ v ∷ []) (zs ++ u ∷ v ∷ [])
Interleaved-ends u v both_done = first (second both_done)
Interleaved-ends u v (first i) = first (Interleaved-ends u v i)
Interleaved-ends u v (second i) = second (Interleaved-ends u v i)

execute-unlocks :
    {W : Type 0} (steps : List (W → W)) (w : W)
    → execute (steps ++ pthread_mutex_unlock ∷ pthread_mutex_unlock ∷ []) w ≡ execute steps w
unfolding execute pthread_mutex_unlock
execute-unlocks [] w = refl
execute-unlocks (f ∷ fs) w = execute-unlocks fs (f w)

-- Both locks, the steps, both unlocks.
unfoldable pub both_locked : {W : Type 0} → List (W → W) → List (W → W)
both_locked steps =
    pthread_mutex_lock ∷ pthread_mutex_lock ∷ steps
    ++ pthread_mutex_unlock ∷ pthread_mutex_unlock ∷ []

-- Whatever two threads can do to shared state without a lock, in any order of their steps, they can do
-- with all of their steps between pthread_mutex_lock and pthread_mutex_unlock: both may get the lock at
-- the beginning and release it at the end, with the same effect on every state.
pub critical-Interleaved :
    {W : Type 0} (xs ys zs : List (W → W))
    → Interleaved xs ys zs
    → Interleaved (critical xs) (critical ys) (both_locked zs)
      × ((w : W) → execute (both_locked zs) w ≡ execute zs w)
unfolding critical both_locked execute pthread_mutex_lock
critical-Interleaved xs ys zs i = (
  first (second (Interleaved-ends pthread_mutex_unlock pthread_mutex_unlock i)),
  λ w. execute-unlocks zs w,
)
