-- ===== src/Threads.antt =====
-- trusted/pthread.c: the stubs that stand in for threads in the enclave, as what they do to the state of
-- the program. Their return values are not defined, since no stub returns one; lines that they print are
-- left out.
pub mod Races
mod Examples
use mongo_sgx_client.Base.{ℕ}

module _ {W : Type 0} where
  -- The routine runs, whatever `once_control` says.
  unfoldable pub pthread_once : (W → W) → W → W
  pthread_once init_routine w = init_routine w

  -- No thread is made: `start_routine` does not run.
  unfoldable pub pthread_create : (W → W) → W → W
  pthread_create start_routine w = w

  unfoldable pub pthread_mutex_init : W → W
  pthread_mutex_init w = w

  unfoldable pub pthread_mutex_destroy : W → W
  pthread_mutex_destroy w = w

  unfoldable pub pthread_mutex_lock : W → W
  pthread_mutex_lock w = w

  unfoldable pub pthread_mutex_trylock : W → W
  pthread_mutex_trylock w = w

  unfoldable pub pthread_mutex_unlock : W → W
  pthread_mutex_unlock w = w

  unfoldable pub pthread_cond_init : W → W
  pthread_cond_init w = w

  unfoldable pub pthread_cond_destroy : W → W
  pthread_cond_destroy w = w

  unfoldable pub pthread_cond_wait : W → W
  pthread_cond_wait w = w

  unfoldable pub pthread_cond_timedwait : W → W
  pthread_cond_timedwait w = w

  unfoldable pub pthread_cond_signal : W → W
  pthread_cond_signal w = w

  unfoldable pub pthread_cond_broadcast : W → W
  pthread_cond_broadcast w = w

  unfoldable pub pthread_join : W → W
  pthread_join w = w
