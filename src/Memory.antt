-- ===== src/Memory.antt =====
-- The memory that c/multi-thread-queue/list.c and queue.c work on: `list_t` structs by their three
-- fields, the mutexes, the `int` variables that a `void *` may lead to, and what was printed.
pub mod Ends
pub mod Chain
pub mod Mutex
use code_slices.Base.{
  ℕ, ◌≡◌, ◌≢◌, Bool, true, false, Option, none, some, List, ◌∷◌, [], ◌++◌, ◌==◌, if◌then◌else◌,
}
use code_slices.Base.Int.{ℤ}

abbrev pub Ptr : Type 0
Ptr = ℕ

abbrev pub null : Ptr
null = 0

-- `live` marks the addresses that hold a `list_t`; `payload` is its field `data`. A mutex is known by
-- its queue: `none` before pthread_mutex_init, else whether it is held.
pub record Heap : Type 0 where
  pub live : Ptr → Bool
  pub prev : Ptr → Ptr
  pub next : Ptr → Ptr
  pub payload : Ptr → ℕ
  pub lock : Ptr → Option Bool
  pub word : Ptr → ℕ
  pub printed : List ℤ

abbrev pub update {ℓ} : {A : Type ℓ} → (Ptr → A) → Ptr → A → Ptr → A
update f p v a = if a == p then v else f a

-- `none` is undefined behaviour, a deadlock or exhausted fuel.
abbrev pub Cmd : Type 0 → Type 0
Cmd A = Heap → Option (A × Heap)

abbrev pub pure : {A : Type 0} → A → Cmd A
pure a h = some (a, h)

abbrev pub lift : {A : Type 0} → Option A → Cmd A
lift none h = none
lift (some a) h = some (a, h)

abbrev pub and_then : {A B : Type 0} → Option (A × Heap) → (A → Cmd B) → Option (B × Heap)
and_then none k = none
and_then (some (a, h)) k = k a h

infixl 5 ◌>>=◌ ◌>>◌
abbrev pub ◌>>=◌ : {A B : Type 0} → Cmd A → (A → Cmd B) → Cmd B
m >>= k = λ h. and_then (m h) k

abbrev pub ◌>>◌ : {A B : Type 0} → Cmd A → Cmd B → Cmd B
m >> k = m >>= λ _. k

-- Access through a pointer that leads to no struct is undefined.
abbrev pub access : {A : Type 0} → Ptr → Cmd A → Cmd A
access p m h = if h.live p then m h else none

abbrev pub load_prev : Ptr → Cmd Ptr
load_prev p = access p λ h. some (h.prev p, h)

abbrev pub load_next : Ptr → Cmd Ptr
load_next p = access p λ h. some (h.next p, h)

abbrev pub load_payload : Ptr → Cmd ℕ
load_payload p = access p λ h. some (h.payload p, h)

abbrev pub set_prev : Ptr → Ptr → Cmd (Unit {0})
set_prev p q = access p λ h. some (tt, record h { prev = update h.prev p q })

abbrev pub set_next : Ptr → Ptr → Cmd (Unit {0})
set_next p q = access p λ h. some (tt, record h { next = update h.next p q })

abbrev pub set_payload : Ptr → ℕ → Cmd (Unit {0})
set_payload p d = access p λ h. some (tt, record h { payload = update h.payload p d })

-- What the code relies on of malloc: it fails with a null pointer, or gives an address not in use.
pub record Malloc : Type 0 where
  pub address : Heap → Ptr
  pub fresh : (h : Heap) → address h ≢ null → h.live (address h) ≡ false

-- The struct is not initialised: its fields are what the memory held.
abbrev pub malloc : Malloc → Cmd Ptr
malloc m h =
    if m.address h == null
    then some (null, h)
    else some (m.address h, record h { live = update h.live (m.address h) true })

abbrev pub free : Ptr → Cmd (Unit {0})
free p = access p λ h. some (tt, record h { live = update h.live p false })

unfoldable pub pthread_mutex_init : Ptr → Cmd (Unit {0})
pthread_mutex_init q h = some (tt, record h { lock = update h.lock q (some false) })

-- Locking a mutex that is held never returns, with one thread.
unfoldable pub pthread_mutex_lock : Ptr → Cmd (Unit {0})
pthread_mutex_lock q h = elim (h.lock q) [
  | some false ↦ some (tt, record h { lock = update h.lock q (some true) })
  | some true ↦ none
  | none ↦ none
]

unfoldable pub pthread_mutex_unlock : Ptr → Cmd (Unit {0})
pthread_mutex_unlock q h = elim (h.lock q) [
  | some true ↦ some (tt, record h { lock = update h.lock q (some false) })
  | some false ↦ none
  | none ↦ none
]

unfoldable pub pthread_mutex_destroy : Ptr → Cmd (Unit {0})
pthread_mutex_destroy q h = elim (h.lock q) [
  | some false ↦ some (tt, record h { lock = update h.lock q none })
  | some true ↦ none
  | none ↦ none
]

-- `printf ("%d\n", n)`
abbrev pub print_int : ℤ → Cmd (Unit {0})
print_int n h = some (tt, record h { printed = h.printed ++ n ∷ [] })
