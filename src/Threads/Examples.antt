-- ===== src/Threads/Examples.antt =====
-- Two threads that each add 1 to a counter under a lock.
use mongo_sgx_client.Base.{ℕ, ◌+◌, ◌≡◌, refl, List, [], ◌∷◌}
use mongo_sgx_client.Threads.{pthread_mutex_lock, pthread_mutex_unlock}
use mongo_sgx_client.Threads.Races.{Interleaved, both_done, first, second, execute, both_locked}

-- The counter, and what each thread has read of it.
abbrev Shared : Type 0
Shared = ℕ × ℕ × ℕ

abbrev load_a : Shared → Shared
load_a (n, a, b) = (n, n, b)

abbrev store_a : Shared → Shared
store_a (n, a, b) = (a + 1, a, b)

abbrev load_b : Shared → Shared
load_b (n, a, b) = (n, a, n)

abbrev store_b : Shared → Shared
store_b (n, a, b) = (b + 1, a, b)

-- Both read the counter before one stores it.
abbrev schedule : List (Shared → Shared)
schedule = load_a ∷ load_b ∷ store_a ∷ store_b ∷ []

schedule-Interleaved : Interleaved (load_a ∷ store_a ∷ []) (load_b ∷ store_b ∷ []) schedule
schedule-Interleaved = first (second (first (second both_done)))

-- One of the two additions is lost.
lost : execute (both_locked schedule) (5, 0, 0) ≡ (6, 5, 5)
unfolding execute both_locked pthread_mutex_lock pthread_mutex_unlock
lost = refl
