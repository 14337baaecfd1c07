-- ===== src/Memory/Mutex.antt =====
-- What the mutex calls do in the state that each of them expects.
use code_slices.Base.{Bool, true, false, Option, none, some, ◌≡◌, arith}
use code_slices.Memory.{
  Ptr, Heap, update, pthread_mutex_lock, pthread_mutex_unlock, pthread_mutex_destroy,
}

-- The memory with the mutex of `q` in state `s`.
abbrev pub with_lock : Heap → Ptr → Option Bool → Heap
with_lock h q s = record h { lock = update h.lock q s }

module _ (q : Ptr) (h : Heap) where
  pub lock_free :
      h.lock q ≡ some false → pthread_mutex_lock q h ≡ some (tt, with_lock h q (some true))
  unfolding pthread_mutex_lock
  lock_free e = ground arith

  pub unlock_held :
      h.lock q ≡ some true → pthread_mutex_unlock q h ≡ some (tt, with_lock h q (some false))
  unfolding pthread_mutex_unlock
  unlock_held e = ground arith

  pub destroy_free :
      h.lock q ≡ some false → pthread_mutex_destroy q h ≡ some (tt, with_lock h q none)
  unfolding pthread_mutex_destroy
  destroy_free e = ground arith
