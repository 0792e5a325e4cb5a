-- ===== src/Thread/Identity.antt =====
-- thread::id of impl/freertos/thread.h: a task handle as an address, that of no thread being null.
use roo_threads.Base.{
  ℕ, ◌≡◌, refl, ap, ◌↔◌, ◌<◌, Bool, true, false, not, ◌==◌, ltb, leb, ◌||◌, arith, none, some,
  Option-cases, inl, inr,
}
use roo_threads.Thread.Objects.{Objects, joinable}

pub record ThreadId : Type 0 where
  pub address : ℕ

unfoldable pub id : ThreadId
id = record { address = 0 }

unfoldable pub is_equal : ThreadId → ThreadId → Bool
is_equal a b = a.address == b.address

unfoldable pub is_unequal : ThreadId → ThreadId → Bool
is_unequal a b = not (a.address == b.address)

unfoldable pub is_less : ThreadId → ThreadId → Bool
is_less a b = ltb a.address b.address

unfoldable pub is_less_or_equal : ThreadId → ThreadId → Bool
is_less_or_equal a b = leb a.address b.address

unfoldable pub is_greater : ThreadId → ThreadId → Bool
is_greater a b = ltb b.address a.address

unfoldable pub is_greater_or_equal : ThreadId → ThreadId → Bool
is_greater_or_equal a b = leb b.address a.address

-- `thread::get_id`, by the handles of the tasks.
unfoldable pub get_id : (ℕ → ℕ) → ℕ → Objects → ThreadId
get_id task l s = elim (s l) [ none ↦ id | some state ↦ record { address = task state } ]

-- `this_thread::get_id`, of the task with a handle
unfoldable pub this_thread_get_id : ℕ → ThreadId
this_thread_get_id handle = record { address = handle }

ThreadId-ext : (a b : ThreadId) → a.address ≡ b.address → a ≡ b
ThreadId-ext a b e = ap (λ n. record { address = n }) e

-- The six comparisons agree with one total order, in which equal ids are one id.
pub comparisons_agree :
    (a b : ThreadId)
    → ((is_equal a b ≡ true) ↔ (a ≡ b))
      × (is_unequal a b ≡ not (is_equal a b))
      × (is_less_or_equal a b ≡ (is_less a b || is_equal a b))
      × (is_greater a b ≡ not (is_less_or_equal a b))
      × (is_greater_or_equal a b ≡ not (is_less a b))
      × ((c : ThreadId) → is_less a b ≡ true → is_less b c ≡ true → is_less a c ≡ true)
      × (is_less a a ≡ false)
unfolding is_equal is_unequal is_less is_less_or_equal is_greater is_greater_or_equal
comparisons_agree a b = (
  ((λ h. ground (arith, ThreadId-ext a b)), (λ h. ground (arith, h))),
  refl,
  ground arith,
  ground arith,
  ground arith,
  λ c h h'. ground arith,
  ground arith,
)

-- Where no task has the null handle, an object without a thread is the one whose id is that of a default thread::id.
pub get_id-joinable :
    (task : ℕ → ℕ) (l : ℕ) (s : Objects)
    → ((state : ℕ) → 0 < task state)
    → is_equal (get_id task l s) id ≡ not (joinable l s)
unfolding is_equal get_id joinable id
get_id-joinable task l s pos = elim (Option-cases (s l)) [
  | inl e ↦ ground arith
  | inr (state, e) ↦ ground (arith, pos state)
]
