-- ===== src/Queue.antt =====
-- c/multi-thread-queue/queue.c and queue.h: a first-in first-out queue, each call under its mutex.
-- A queue is known by the address of its `head`.
pub mod Node
pub mod Enqueue
pub mod Dequeue
pub mod Fifo
pub mod Unique
pub mod Samples
mod Tests
use code_slices.Base.{ℕ, zero, suc, Bool, true, false, none, ◌==◌, if◌then◌else◌}
use code_slices.Memory.{
  Ptr, null, Cmd, pure, ◌>>=◌, ◌>>◌, load_next, load_payload, Malloc, pthread_mutex_init,
  pthread_mutex_lock, pthread_mutex_unlock, pthread_mutex_destroy,
}
use code_slices.Ring.{is_empty, list_init, list_new, list_free, list_remove, list_add}

unfoldable pub q_init : Ptr → Cmd (Unit {0})
q_init q = do list_init q; pthread_mutex_init q

unfoldable pub q_enqueue : Malloc → Ptr → ℕ → Cmd Bool
q_enqueue m q d = do
  pthread_mutex_lock q
  list ← list_new m d
  if list == null
      then (do pthread_mutex_unlock q; pure false)
      else (do list_add q list; pthread_mutex_unlock q; pure true)

-- `if (NULL != data) data = list->data;`, where `target` is the parameter `data`: the assignment
-- changes the parameter alone.
unfoldable pub assign_data : Ptr → Ptr → Cmd ℕ
assign_data target list = if target == null then pure target else load_payload list

-- What q_dequeue does with a queue that has nodes; the new value of `data` is not used.
unfoldable pub take_first : Ptr → Ptr → Cmd Bool
unfolding assign_data
take_first q target = do
  first ← load_next q
  list ← list_remove q first
  assigned ← assign_data target list
  list_free list
  pthread_mutex_unlock q
  pure true

unfoldable pub q_dequeue : Ptr → Ptr → Cmd Bool
unfolding take_first
q_dequeue q target = do
  pthread_mutex_lock q
  empty ← is_empty q
  if empty then (do pthread_mutex_unlock q; pure false) else take_first q target

-- The `while` of q_clean, on fuel.
clean_loop : ℕ → Ptr → Cmd (Unit {0})
clean_loop zero q = λ _. none
clean_loop (suc fuel) q = do ret ← q_dequeue q null; if ret then clean_loop fuel q else pure tt

unfoldable pub q_clean : ℕ → Ptr → Cmd (Unit {0})
unfolding clean_loop
q_clean fuel q = do clean_loop fuel q; pthread_mutex_destroy q
