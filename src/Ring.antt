-- ===== src/Ring.antt =====
-- c/multi-thread-queue/list.c and list.h: a circular doubly linked list whose head is a node of its own.
pub mod Shape
pub mod Add
pub mod Remove
pub mod Dump
use code_slices.Base.{ℕ, zero, suc, ◌+◌, Bool, true, false, ◌==◌, if◌then◌else◌, none, some}
use code_slices.Base.Int.{fits_nonneg, to_int}
use code_slices.Memory.{
  Ptr, null, Heap, Cmd, pure, lift, ◌>>=◌, ◌>>◌, access, load_prev, load_next, load_payload,
  set_prev, set_next, set_payload, Malloc, malloc, free, print_int,
}

-- LIST_IS_EMPTY
unfoldable pub is_empty : Ptr → Cmd Bool
is_empty list = do
  prev ← load_prev list
  next ← load_next list
  pure (if prev == list then next == list else false)

unfoldable pub list_init : Ptr → Cmd (Unit {0})
list_init list =
    if list == null
    then pure tt
    else do set_prev list list; set_next list list; set_payload list null

unfoldable pub list_new : Malloc → ℕ → Cmd Ptr
unfolding list_init
list_new m d = do
  list ← malloc m
  if list == null then pure list else do list_init list; set_payload list d; pure list

unfoldable pub list_free : Ptr → Cmd (Unit {0})
list_free node =
    if node == null
    then pure tt
    else do set_prev node null; set_next node null; set_payload node null; free node

unfoldable pub list_remove : Ptr → Ptr → Cmd Ptr
unfolding is_empty
list_remove list node = do
  empty ← is_empty list
  if empty then pure node else do
    prev ← load_prev node
    next ← load_next node
    set_next prev next
    set_prev next prev
    set_prev node node
    set_next node node
    pure node

-- The two arms of list_add.
add_first : Ptr → Ptr → Cmd Ptr
add_first list node = do
  set_next list node
  set_prev list node
  set_prev node list
  set_next node list
  pure list

add_last : Ptr → Ptr → Cmd Ptr
add_last list node = do
  last ← load_prev list
  set_next last node
  tail ← load_prev list
  set_prev node tail
  set_next node list
  set_prev list node
  pure list

unfoldable pub list_add : Ptr → Ptr → Cmd Ptr
unfolding is_empty add_first add_last
list_add list node = do
  empty ← is_empty list
  if empty then add_first list node else add_last list node

-- list_dump_func of main.c: the `void *` is printed as an `int`.
unfoldable pub list_dump_func : ℕ → Cmd (Unit {0})
list_dump_func d = print_int (to_int d)

-- The `do … while` of list_dump, on fuel; `count` is an `int`.
unfoldable pub dump_loop : ℕ → (ℕ → Cmd (Unit {0})) → Ptr → Ptr → ℕ → Cmd ℕ
dump_loop zero dump_func end head count = λ _. none
dump_loop (suc fuel) dump_func end head count = do
  d ← load_payload head
  dump_func d
  next ← load_next head
  counted ← lift (fits_nonneg (count + 1))
  if next == end then pure counted else dump_loop fuel dump_func end next counted

unfoldable pub list_dump : ℕ → Ptr → (ℕ → Cmd (Unit {0})) → Cmd ℕ
unfolding dump_loop is_empty
list_dump fuel list dump_func = do
  empty ← is_empty list
  if empty then pure 0 else do head ← load_next list; dump_loop fuel dump_func list head 0
