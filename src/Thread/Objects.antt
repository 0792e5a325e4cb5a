-- ===== src/Thread/Objects.antt =====
-- The members of class thread in impl/freertos/thread.h and thread.cpp that hand threads from one
-- object to another.
use roo_threads.Base.{
  ℕ, ◌≡◌, refl, ◌↔◌, Bool, true, false, Option, none, some, ◌==◌, if◌then◌else◌, arith,
}
use roo_threads.Base.Family.{update}

-- The field `state_` of the objects by their addresses: null, or a thread_state.
abbrev pub Objects : Type 0
Objects = ℕ → Option ℕ

abbrev is_set : Option ℕ → Bool
is_set none = false
is_set (some state) = true

unfoldable pub joinable : ℕ → Objects → Bool
joinable l s = is_set (s l)

-- `task` is the field of a thread_state; the id of no thread is `none`.
unfoldable pub get_id : (ℕ → ℕ) → ℕ → Objects → Option ℕ
get_id task l s = elim (s l) [ none ↦ none | some state ↦ some (task state) ]

unfoldable pub construct : ℕ → Objects → Objects
construct l s = update s l none

unfoldable pub swap : ℕ → ℕ → Objects → Objects
swap l other s = update (update s l (s other)) other (s l)

-- `thread(thread&& other) noexcept : thread() { swap(other); }`
unfoldable pub move_construct : ℕ → ℕ → Objects → Objects
unfolding construct swap
move_construct l other s = swap l other (construct l s)

-- Nothing where the assertion fails.
unfoldable pub destroy : ℕ → Objects → Option Objects
unfolding joinable
destroy l s = if joinable l s then none else some s

unfoldable pub move_assign : ℕ → ℕ → Objects → Option Objects
unfolding joinable swap
move_assign l other s = if joinable l s then none else some (swap l other s)

pub data Call : Type 0 where
  constructs destroys : (l : ℕ) → Call
  constructs_moved assigns_moved swaps : (l other : ℕ) → Call

unfoldable pub perform : Call → Objects → Option Objects
unfolding construct destroy move_construct move_assign swap
perform (constructs l) s = some (construct l s)
perform (destroys l) s = destroy l s
perform (constructs_moved l other) s = some (move_construct l other s)
perform (assigns_moved l other) s = move_assign l other s
perform (swaps l other) s = some (swap l other s)

-- Where the thread of an object comes from in a call.
abbrev pub origin : Call → ℕ → ℕ
origin (constructs l) k = k
origin (destroys l) k = k
origin (constructs_moved l other) k = if other == k then l else if l == k then other else k
origin (assigns_moved l other) k = if other == k then l else if l == k then other else k
origin (swaps l other) k = if other == k then l else if l == k then other else k

-- The object that a call makes or ends, or assigns to.
abbrev pub target : Call → Option ℕ
target (constructs l) = some l
target (destroys l) = some l
target (constructs_moved l other) = some l
target (assigns_moved l other) = some l
target (swaps l other) = none

-- A call whose target, if it has one, has no thread returns. It hands the threads round among the objects
-- by an exchange that is its own inverse, so that none is lost and none gets a second object.
pub perform_lem :
    (c : Call) (s : Objects)
    → ((l : ℕ) → target c ≡ some l → joinable l s ≡ false)
    → (t : Objects) × (perform c s ≡ some t)
      × ((k : ℕ) → t k ≡ s (origin c k))
      × ((k : ℕ) → origin c (origin c k) ≡ k)
unfolding perform construct destroy move_construct move_assign swap joinable
perform_lem (constructs l) s h = (construct l s, refl, λ k. ground (arith, h l), λ k. refl)
perform_lem (destroys l) s h = (s, ground (arith, h l), λ k. refl, λ k. refl)
perform_lem (constructs_moved l other) s h =
    (move_construct l other s, refl, λ k. ground (arith, h l), λ k. ground arith)
perform_lem (assigns_moved l other) s h =
    (swap l other s, ground (arith, h l), λ k. ground arith, λ k. ground arith)
perform_lem (swaps l other) s h = (swap l other s, refl, λ k. ground arith, λ k. ground arith)

-- The destructor and the move assignment fail their assertion exactly if their object has a thread.
pub destroy-move_assign :
    (l other : ℕ) (s : Objects)
    → ((destroy l s ≡ none) ↔ (joinable l s ≡ true))
      × ((move_assign l other s ≡ none) ↔ (joinable l s ≡ true))
unfolding destroy move_assign joinable
destroy-move_assign l other s =
    ((λ h. ground arith, λ h. ground arith), (λ h. ground arith, λ h. ground arith))
