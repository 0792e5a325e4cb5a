-- ===== src/Lock/UniqueLock/Tests.antt =====
-- Tests of `unique_lock` and `lock_guard`, and their theorems at concrete objects.
use roo_threads.Base.{
  ℕ, ◌≡◌, refl, ◌≢◌, ◌↔◌, ◌⊎◌, Bool, true, false, Option, none, some, not, ◌||◌, ◌==◌,
  if◌then◌else◌, arith,
}
use roo_threads.Base.Family.{update}
use roo_threads.Lock.Interface.{Lockable}
use roo_threads.Lock.UniqueLock.{
  State, ok, failed, empty, lock, unlock, destroy, construct_locked, move_assign, construct_guard,
  destroy_guard,
}
use roo_threads.Lock.UniqueLock.Ownership.{Inv, NoLeak}
use roo_threads.Lock.UniqueLock.Raii.{constructs_locked, tries_until, destroys, perform}
use roo_threads.Lock.UniqueLock.History.{
  perform-Inv, perform-NoLeak, History, begin, call, History-releases_all,
}
use roo_threads.Lock.UniqueLock.Agreement
use roo_threads.Lock.UniqueLock.Agreement.{timed, perform-perform}
use roo_threads.Base.Int.{pos}
use roo_threads.Lock.UniqueLock.Fallback.{perform_alone, perform_alone-perform}
use roo_threads.Lock.UniqueLock.Behaviour.{lock_unlock_failed, move_assign_lem, guard_lem}

-- Mutexes as one flag for each address.
abbrev Flags : Type 0
Flags = ℕ → Bool

abbrev flag_lock : ℕ → Flags → Option Flags
flag_lock m w = if w m then none else some (update w m true)

abbrev flag_try : ℕ → Flags → Flags × Bool
flag_try m w = (update w m true, not (w m))

held-flag_lock :
    (m x : ℕ) (w v : Flags) → flag_lock m w ≡ some v → v x ≡ (if m == x then true else w x)
held-flag_lock m x w v h = ground (arith, h)

flag_lock_free : (m : ℕ) (w v : Flags) → flag_lock m w ≡ some v → w m ≡ false
flag_lock_free m w v h = ground arith

held-flag_try :
    (m x : ℕ) (w : Flags) → (flag_try m w).0 x ≡ (if m == x then (flag_try m w).1 || w x else w x)
held-flag_try m x w = ground arith

flag_try_free : (m : ℕ) (w : Flags) → (flag_try m w).1 ≡ true → w m ≡ false
flag_try_free m w h = ground arith

abbrev flags : Lockable
flags = record {
  World = Flags;
  held = λ w. w;
  lock = flag_lock;
  try_lock = flag_try;
  try_lock_until = λ m time. flag_try m;
  try_lock_for = λ m time. flag_try m;
  unlock = λ m w. update w m false;
  held-lock = held-flag_lock;
  lock_free = flag_lock_free;
  held-try_lock = held-flag_try;
  try_lock_free = flag_try_free;
  held-try_lock_until = λ m x time. held-flag_try m x;
  try_lock_until_free = λ m time. flag_try_free m;
  held-try_lock_for = λ m x time. held-flag_try m x;
  try_lock_for_free = λ m time. flag_try_free m;
  held-unlock = λ m x w. refl;
}

-- No object owns a mutex, and none is locked.
abbrev clean : State flags
clean = record { objects = λ _. empty; world = λ _. false }

-- The object 1 owns the mutex 9.
abbrev one_owner : State flags
one_owner = record {
  objects =
      update (update clean.objects 1 (record { lock = some 9; owns = false })) 1
        (record { lock = some 9; owns = true });
  world = update clean.world 9 true;
}

constructs_1 : perform flags (constructs_locked 1 9) clean ≡ ok one_owner
unfolding perform construct_locked
constructs_1 = refl

clean-Inv : Inv flags clean
clean-Inv = record {
  linked = λ l h. cc;
  locked = λ l m h. ground arith;
  single = λ l k m h h'. ground arith;
}

one_owner-Inv : Inv flags one_owner
one_owner-Inv =
    perform-Inv flags (constructs_locked 1 9) clean one_owner clean-Inv refl constructs_1

perform-Inv_example : Inv flags one_owner
perform-Inv_example =
    perform-Inv flags (constructs_locked 1 9) clean one_owner clean-Inv refl constructs_1

clean-NoLeak : NoLeak flags clean
clean-NoLeak m h = cc

perform-NoLeak_example : NoLeak flags one_owner
perform-NoLeak_example =
    perform-NoLeak flags (constructs_locked 1 9) clean one_owner clean-Inv refl refl constructs_1
      clean-NoLeak

-- After the object 1 is destroyed.
abbrev given_back : State flags
given_back = record {
  objects = update one_owner.objects 1 (record { lock = some 9; owns = false });
  world = update one_owner.world 9 false;
}

destroys_1 : perform flags (destroys 1) one_owner ≡ ok given_back
unfolding perform destroy
destroys_1 = refl

scope : History flags clean given_back
scope =
    call (destroys 1) (call (constructs_locked 1 9) begin refl refl constructs_1) tt refl destroys_1

given_back_idle : (l : ℕ) → (given_back.objects l).owns ≡ false
given_back_idle l = ground arith

History-releases_all_example : given_back.world 9 ≡ false
History-releases_all_example =
    History-releases_all flags ((λ l. refl), λ m. refl) scope given_back_idle 9

lock_unlock_failed_example :
    ((lock flags 1 one_owner ≡ failed)
      ↔ (((one_owner.objects 1).lock ≡ none) ⊎ ((one_owner.objects 1).owns ≡ true)))
    × ((unlock flags 1 one_owner ≡ failed) ↔ ((one_owner.objects 1).owns ≡ false))
lock_unlock_failed_example = lock_unlock_failed flags 1 one_owner

self_move :
    (t : State flags) × (move_assign flags 1 1 one_owner ≡ ok (tt, t))
    × (t.world 9 ≡ false)
    × (t.objects 1 ≡ empty)
unfolding move_assign destroy
self_move = (_, refl, refl, refl)

move_assign_lem_example :
    (t : State flags) × (move_assign flags 2 1 one_owner ≡ ok (tt, t))
    × (◌≢◌ {A = ℕ} 2 1 → t.objects 2 ≡ one_owner.objects 1)
    × (t.objects 1 ≡ empty)
    × ((m : ℕ) → t.world m ≡ one_owner.world m)
move_assign_lem_example = move_assign_lem flags 2 1 one_owner one_owner-Inv

guard_lem_example :
    (clean.world 9 ≡ false)
    × (update clean.world 9 true 9 ≡ true)
    × (u : State flags) × (destroy_guard flags 9
          (record clean { world = update clean.world 9 true })
        ≡ ok (tt, u))
    × ((x : ℕ) → u.world x ≡ clean.world x)
unfolding construct_guard
guard_lem_example =
    guard_lem flags 9 clean (record clean { world = update clean.world 9 true }) refl

perform_alone-perform_example :
    perform_alone (constructs_locked 1 9) clean.objects ≡ some one_owner.objects
perform_alone-perform_example =
    perform_alone-perform flags (constructs_locked 1 9) clean one_owner refl refl constructs_1

-- The same mutexes, whose try_lock_until tries for the time that is left.
abbrev timed_flags : Lockable
timed_flags = timed flags (λ w. pos 3)

-- The object 1 refers to the mutex 9, which is free.
abbrev unlocked_1 : State timed_flags
unlocked_1 = record {
  objects = update (λ _. empty) 1 (record { lock = some 9; owns = false });
  world = λ _. false;
}

unlocked_1-Inv : Inv timed_flags unlocked_1
unlocked_1-Inv = record {
  linked = λ l h. ground arith;
  locked = λ l m h. ground arith;
  single = λ l k m h h'. ground arith;
}

perform-perform_example :
    Agreement.perform flags (λ w. pos 3) (tries_until 1 (pos 8)) unlocked_1
    ≡ perform timed_flags (tries_until 1 (pos 8)) unlocked_1
perform-perform_example =
    perform-perform flags (λ w. pos 3) (tries_until 1 (pos 8)) unlocked_1 unlocked_1-Inv refl refl
