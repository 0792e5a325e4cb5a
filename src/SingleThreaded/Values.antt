-- ===== src/SingleThreaded/Values.antt =====
-- impl/singlethreaded/thread.h and impl/singlethreaded/atomic.h: objects that are a value each.
use roo_threads.Base.{ℕ, ◌≡◌, ◌≢◌, Bool, false, List, [], ◌∷◌, not, ◌==◌, arith}
use roo_threads.Base.Family.{update}

-- `id()` and `operator==` of `thread::id`
abbrev pub no_id : ℕ
no_id = 0

abbrev pub id_eq : ℕ → ℕ → Bool
id_eq a b = a == b

-- A `thread` object is its `id_`, and an `id` the number in it; 0 is the id of no thread. The
-- objects stand at their addresses.
abbrev pub Threads : Type 0
Threads = ℕ → ℕ

unfoldable pub construct_thread : ℕ → Threads → Threads
construct_thread l s = update s l no_id

unfoldable pub swap : ℕ → ℕ → Threads → Threads
swap l other s = update (update s l (s other)) other (s l)

-- `thread(thread&& other) noexcept { swap(other); }`
unfoldable pub move_construct : ℕ → ℕ → Threads → Threads
unfolding construct_thread swap
move_construct l other s = swap l other (construct_thread l s)

-- `operator=(thread&&) noexcept = default`: it copies the number.
unfoldable pub move_assign : ℕ → ℕ → Threads → Threads
move_assign l other s = update s l (s other)

unfoldable pub joinable : ℕ → Threads → Bool
joinable l s = not (id_eq (s l) no_id)

unfoldable pub get_id : ℕ → Threads → ℕ
get_id l s = s l

-- `this_thread::get_id()`
abbrev pub this_id : ℕ
this_id = 1

-- The calls of the members, in any order.
pub data ThreadCall : Type 0 where
  constructs : (l : ℕ) → ThreadCall
  constructs_moved assigns_moved swaps : (l other : ℕ) → ThreadCall

unfoldable pub perform : ThreadCall → Threads → Threads
perform (constructs l) s = construct_thread l s
perform (constructs_moved l other) s = move_construct l other s
perform (assigns_moved l other) s = move_assign l other s
perform (swaps l other) s = swap l other s

unfoldable pub perform_all : List ThreadCall → Threads → Threads
perform_all [] s = s
perform_all (c ∷ cs) s = perform_all cs (perform c s)

perform-idle :
    (c : ThreadCall) (s : Threads)
    → ((l : ℕ) → joinable l s ≡ false)
    → (k : ℕ) → joinable k (perform c s) ≡ false
unfolding perform construct_thread move_construct move_assign swap joinable
perform-idle (constructs l) s h k = ground (arith, h k)
perform-idle (constructs_moved l other) s h k = ground (arith, h k, h l, h other)
perform-idle (assigns_moved l other) s h k = ground (arith, h k, h l, h other)
perform-idle (swaps l other) s h k = ground (arith, h k, h l, h other)

-- Whatever is done to thread objects none of which is joinable, none becomes joinable, and the
-- id of none is that of the running thread.
pub perform_all_lem :
    (cs : List ThreadCall) (s : Threads)
    → ((l : ℕ) → joinable l s ≡ false)
    → (l : ℕ) → (joinable l (perform_all cs s) ≡ false) × (get_id l (perform_all cs s) ≢ this_id)
unfolding perform_all joinable get_id
perform_all_lem [] s h l = (h l, ground (arith, h l))
perform_all_lem (c ∷ cs) s h l = perform_all_lem cs (perform c s) (perform-idle c s h) l

-- An atomic object is its `value_`; the memory order is read by nobody.
pub data MemoryOrder : Type 0 where
  relaxed consume acquire release acq_rel seq_cst : MemoryOrder

module _ {T : Type 0} where
  unfoldable pub store : T → MemoryOrder → T → T
  store value m a = value

  unfoldable pub load : MemoryOrder → T → T
  load m a = a

  -- the value that is returned, and the object
  unfoldable pub exchange : T → MemoryOrder → T → T × T
  exchange value m a = let tmp = a in (tmp, value)

  -- the assignment operator
  unfoldable pub assign : T → T → T × T
  assign value a = (value, value)

-- A semaphore of impl/singlethreaded/semaphore.h has no state: acquire() never blocks, and release() does
-- nothing.
module _ {World : Type 0} where
  unfoldable pub acquire_semaphore : World → World
  acquire_semaphore w = w

  unfoldable pub release_semaphore : World → World
  release_semaphore w = w
