-- ===== src/ProducerConsumer/Invariant.antt =====
-- What holds in every state of the threads around one queue.
pub mod Tables
pub mod Waiting
pub mod Reachable
use roo_threads.Base.{
  ℕ, suc, ◌≢◌, ◌+◌, ◌≤◌, ◌<◌, ◌≡◌, refl, ap, sym, ◌∙◌, ◌⊎◌, inl, inr, Bool, true, false, List, [],
  ◌∷◌, ◌++◌, Option, none, some, if◌then◌else◌, ◌==◌, length, length-append, arith, Bool-cases,
}
use native.Mathlib.Decide.{ℕ_discrete}
use mathlib.Core.List.{append_assoc}
use roo_threads.Base.Family.{update, update-other}
use roo_threads.Kernel.{TaskNotify}
use roo_threads.CvOpt.{enqueue, notify_all}
use roo_threads.CvOpt.Count.{count, count-condition_variable_opt}
use roo_threads.CvOpt.System.{notify_tasks}
use roo_threads.ProducerConsumer.{
  set_table, Item, Call, put, take, Condition, nonfull, nonempty, awaits, tells, blocks, Pc, idle,
  testing, must_wait, waiting, woken, relocked, may_act, acted, told, aborted, undefined, System,
  current, Step, locks, finds_blocked, finds_free, starts_wait, overflows, wakes, relocks, returns,
  appends, removes, has_no_front, notifies, unlocks, IsInit, new, Reach, start, later,
}
use roo_threads.ProducerConsumer.Invariant.Tables.{Registered}

-- The thread has the mutex.
abbrev pub has_mutex : Pc → Bool
has_mutex testing = true
has_mutex must_wait = true
has_mutex relocked = true
has_mutex may_act = true
has_mutex acted = true
has_mutex told = true
has_mutex _ = false

-- Only a take can be blocked where a put is not, and the other way round.
pub append-blocks :
    (m : ℕ) (q : List Item) (x y : Item) (c : Call)
    → blocks m q (put x) ≡ false
    → blocks m q c ≡ true
    → nonempty ≡ awaits c
append-blocks m q x y (put z) free h = ground arith
append-blocks m q x y take free h = refl

pub remove-blocks :
    (m : ℕ) (q : List Item) (c : Call)
    → blocks m q take ≡ false
    → blocks m q c ≡ true
    → nonfull ≡ awaits c
remove-blocks m q (put z) free h = refl
remove-blocks m q take free h = ground arith

module _ (K : TaskNotify) (m : ℕ) (script : ℕ → ℕ → Call) where
  open K use {State, pending, notify, receive, pending-receive}

  -- Some thread is about to notify a condition variable.
  abbrev pub WillTell : System K → Condition → Type 0
  WillTell s c = (j : ℕ) × (s.pc j ≡ acted) × (tells (current K m script s j) ≡ c)

  pub record Inv (s : System K) : Type 0 where
    pub owned : (i : ℕ) → has_mutex (s.pc i) ≡ true → s.owner ≡ some i
    pub known : (i : ℕ) → s.owner ≡ some i → has_mutex (s.pc i) ≡ true
    pub blocked : (i : ℕ) → s.pc i ≡ must_wait → blocks m s.deque (current K m script s i) ≡ true
    pub free : (i : ℕ) → s.pc i ≡ may_act → blocks m s.deque (current K m script s i) ≡ false
    pub registered :
        (i : ℕ)
        → s.pc i ≡ waiting
        → Registered i (awaits (current K m script s i)) s.tables ⊎ (pending s.kernel i ≡ true)
    -- who sleeps has a reason, or is about to be notified
    pub awake :
        (i : ℕ)
        → s.pc i ≡ waiting
        → pending s.kernel i ≡ false
        → (blocks m s.deque (current K m script s i) ≡ true)
          ⊎ WillTell s (awaits (current K m script s i))
    pub defined : (i : ℕ) → s.pc i ≢ undefined
    pub bounded : length s.deque ≤ m
    pub fifo : s.published ≡ s.consumed ++ s.deque

  pub Step-owned :
      (j : ℕ) {s t : System K}
      → Step K m script j s t
      → Inv s
      → (i : ℕ) → has_mutex (t.pc i) ≡ true
      → t.owner ≡ some i
  Step-owned j (locks e o) inv i h = ground (arith, inv.owned i)
  Step-owned j (finds_blocked e b) inv i h = ground (arith, inv.owned i, inv.owned j)
  Step-owned j (finds_free e b) inv i h = ground (arith, inv.owned i, inv.owned j)
  Step-owned j (starts_wait e q) inv i h = ground (arith, inv.owned i, inv.owned j)
  Step-owned j (overflows e q) inv i h = ground (arith, inv.owned i, inv.owned j)
  Step-owned j (wakes e p) inv i h = ground (arith, inv.owned i, inv.owned j)
  Step-owned j (relocks e o) inv i h = ground (arith, inv.owned i, inv.owned j)
  Step-owned j (returns e) inv i h = ground (arith, inv.owned i, inv.owned j)
  Step-owned j (appends x e c) inv i h = ground (arith, inv.owned i, inv.owned j)
  Step-owned j (removes x r e c q) inv i h = ground (arith, inv.owned i, inv.owned j)
  Step-owned j (has_no_front e c q) inv i h = ground (arith, inv.owned i, inv.owned j)
  Step-owned j (notifies e) inv i h = ground (arith, inv.owned i, inv.owned j)
  Step-owned j (unlocks e) inv i h = ground (arith, inv.owned i, inv.owned j)

  pub Step-known :
      (j : ℕ) {s t : System K}
      → Step K m script j s t
      → Inv s
      → (i : ℕ) → t.owner ≡ some i
      → has_mutex (t.pc i) ≡ true
  Step-known j (locks e o) inv i h = ground arith
  Step-known j (finds_blocked e b) inv i h = ground (arith, inv.known i)
  Step-known j (finds_free e b) inv i h = ground (arith, inv.known i)
  Step-known j (starts_wait e q) inv i h = ground arith
  Step-known j (overflows e q) inv i h = ground arith
  Step-known j (wakes e p) inv i h = ground (arith, inv.known i)
  Step-known j (relocks e o) inv i h = ground arith
  Step-known j (returns e) inv i h = ground (arith, inv.known i)
  Step-known j (appends x e c) inv i h = ground (arith, inv.known i)
  Step-known j (removes x r e c q) inv i h = ground (arith, inv.known i)
  Step-known j (has_no_front e c q) inv i h = absurd (ground (arith, inv.free j))
  Step-known j (notifies e) inv i h = ground (arith, inv.known i)
  Step-known j (unlocks e) inv i h = ground arith

  pub Step-blocked :
      (j : ℕ) {s t : System K}
      → Step K m script j s t
      → Inv s
      → (i : ℕ) → t.pc i ≡ must_wait
      → blocks m t.deque (current K m script t i) ≡ true
  Step-blocked j (locks e o) inv i h = ground (arith, inv.blocked i)
  Step-blocked j (finds_blocked e b) inv i h = ground (arith, inv.blocked i)
  Step-blocked j (finds_free e b) inv i h = ground (arith, inv.blocked i)
  Step-blocked j (starts_wait e q) inv i h = ground (arith, inv.blocked i)
  Step-blocked j (overflows e q) inv i h = ground (arith, inv.blocked i)
  Step-blocked j (wakes e p) inv i h = ground (arith, inv.blocked i)
  Step-blocked j (relocks e o) inv i h = ground (arith, inv.blocked i)
  Step-blocked j (returns e) inv i h = ground (arith, inv.blocked i)
  Step-blocked j (appends x e c) inv i h = ground (arith, inv.owned i, inv.owned j)
  Step-blocked j (removes x r e c q) inv i h = ground (arith, inv.owned i, inv.owned j)
  Step-blocked j (has_no_front e c q) inv i h = ground (arith, inv.blocked i)
  Step-blocked j (notifies e) inv i h = ground (arith, inv.blocked i)
  Step-blocked j (unlocks e) inv i h = ground (arith, inv.blocked i)

  pub Step-free :
      (j : ℕ) {s t : System K}
      → Step K m script j s t
      → Inv s
      → (i : ℕ) → t.pc i ≡ may_act
      → blocks m t.deque (current K m script t i) ≡ false
  Step-free j (locks e o) inv i h = ground (arith, inv.free i)
  Step-free j (finds_blocked e b) inv i h = ground (arith, inv.free i)
  Step-free j (finds_free e b) inv i h = ground (arith, inv.free i)
  Step-free j (starts_wait e q) inv i h = ground (arith, inv.free i)
  Step-free j (overflows e q) inv i h = ground (arith, inv.free i)
  Step-free j (wakes e p) inv i h = ground (arith, inv.free i)
  Step-free j (relocks e o) inv i h = ground (arith, inv.free i)
  Step-free j (returns e) inv i h = ground (arith, inv.free i)
  Step-free j (appends x e c) inv i h = ground (arith, inv.owned i, inv.owned j)
  Step-free j (removes x r e c q) inv i h = ground (arith, inv.owned i, inv.owned j)
  Step-free j (has_no_front e c q) inv i h = ground (arith, inv.free i)
  Step-free j (notifies e) inv i h = ground (arith, inv.free i)
  Step-free j (unlocks e) inv i h = ground (arith, inv.free i)

  pub Step-defined :
      (j : ℕ) {s t : System K} → Step K m script j s t → Inv s → (i : ℕ) → t.pc i ≢ undefined
  Step-defined j (locks e o) inv i h = ground (arith, inv.defined i)
  Step-defined j (finds_blocked e b) inv i h = ground (arith, inv.defined i)
  Step-defined j (finds_free e b) inv i h = ground (arith, inv.defined i)
  Step-defined j (starts_wait e q) inv i h = ground (arith, inv.defined i)
  Step-defined j (overflows e q) inv i h = ground (arith, inv.defined i)
  Step-defined j (wakes e p) inv i h = ground (arith, inv.defined i)
  Step-defined j (relocks e o) inv i h = ground (arith, inv.defined i)
  Step-defined j (returns e) inv i h = ground (arith, inv.defined i)
  Step-defined j (appends x e c) inv i h = ground (arith, inv.defined i)
  Step-defined j (removes x r e c q) inv i h = ground (arith, inv.defined i)
  Step-defined j (has_no_front e c q) inv i h = ground (arith, inv.free j)
  Step-defined j (notifies e) inv i h = ground (arith, inv.defined i)
  Step-defined j (unlocks e) inv i h = ground (arith, inv.defined i)
