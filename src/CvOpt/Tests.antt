-- ===== src/CvOpt/Tests.antt =====
-- Tests of condition_variable_opt.cpp, and its theorems at concrete tables and schedules.
use roo_threads.Base.{
  ℕ, zero, suc, ◌<◌, ◌≤◌, ◌≡◌, refl, ◌≢◌, ◌⊎◌, true, false, [], ◌∷◌, none, some, set, get_elem?,
  arith, ◌==◌,
}
use roo_threads.Base.Family.{update}
use roo_threads.Base.Runs.{Run}
use roo_threads.Kernel.Concrete.{flags}
use roo_threads.CvOpt.{
  Slots, condition_variable_opt, enqueue, dequeue, scan, notify_one, notify_all,
}
use roo_threads.CvOpt.Choice.{Holds, IsChoice, notify_one-IsChoice}
use roo_threads.CvOpt.Count.{count}
use roo_threads.CvOpt.Registration.{IsTaken, enqueue_lem, dequeue-enqueue}
use roo_threads.CvOpt.System.{
  outside, holding, waiting, woken, relocked, timeout, System, Own, lock_mutex, start_wait,
  time_out, relock, new, Reach, start, later, notify_task, notify_tasks,
}
use roo_threads.CvOpt.System.Invariant.{in_wait, is_waiting, Inv, Step-Inv, Reach-Inv}
use roo_threads.CvOpt.System.Monitor.{monitor, Reach-Moves}
use roo_threads.CvOpt.System.Monitor.Events.{returns, is_asleep, Moves}
use roo_threads.CvOpt.System.Capacity.{enqueue-finds_slot}
use roo_threads.CvOpt.System.Progress.{is_in, AllReturned, notify_all_returns}
use roo_threads.CvOpt.System.Wakeup.{
  no_lost_wakeup, notify_all_wakes, notify_one_wakes, mutex_held_once, after_notify_one,
  notify_one_on_timed_out,
}

abbrev two_waiting : Slots
two_waiting = none ∷ some 4 ∷ some 7 ∷ []

-- task 7 has the higher priority
abbrev by_number : ℕ → ℕ
by_number t = t

notify_one_picks_7 : notify_one by_number two_waiting ≡ (none ∷ some 4 ∷ none ∷ [], some 7)
unfolding notify_one scan
notify_one_picks_7 = refl

notify_one_picks_first : notify_one (λ _. 1) two_waiting ≡ (none ∷ none ∷ some 7 ∷ [], some 4)
unfolding notify_one scan
notify_one_picks_first = refl

dequeue-enqueue_example :
    ((enqueue 5 two_waiting ≡ (two_waiting, false))
      ⊎ (i : ℕ) × (enqueue 5 two_waiting ≡ (set two_waiting i (some 5), true))
        × (get_elem? two_waiting i ≡ some none)
        × ((us : Slots) → Holds us i 5 → count 5 us ≡ 1 → dequeue 5 us ≡ set us i none))
    × ((us : Slots) → count 5 us ≡ 0 → dequeue 5 us ≡ us)
    × (dequeue 5 (enqueue 5 two_waiting).0 ≡ two_waiting)
unfolding count
dequeue-enqueue_example = dequeue-enqueue 5 two_waiting refl

abbrev init : System flags
init = record {
  slots = condition_variable_opt (some 3 ∷ none ∷ none ∷ []);
  owner = none;
  pc = λ _. outside;
  kernel = λ _. false;
}

Reach-init : Reach flags init
Reach-init = start (new (some 3 ∷ none ∷ none ∷ []) refl refl (λ i. refl))

-- Threads 4 and 7 wait in turn, 7 with a deadline.
abbrev both_waiting : System flags
both_waiting = record {
  slots = some 4 ∷ some 7 ∷ none ∷ [];
  owner = none;
  pc =
      update (update (update (update (λ _. outside) 4 holding) 4 (waiting false)) 7 holding) 7
        (waiting true);
  kernel = λ _. false;
}

Reach-both_waiting : Reach flags both_waiting
unfolding condition_variable_opt enqueue
Reach-both_waiting =
    later
      (later (later (later Reach-init (lock_mutex 4 refl refl)) (start_wait 4 false refl refl))
        (lock_mutex 7 refl refl))
      (start_wait 7 true refl refl)

-- The deadline of 7 has passed.
abbrev timed_out : System flags
timed_out = record both_waiting { pc = update both_waiting.pc 7 (woken timeout) }

Reach-timed_out : Reach flags timed_out
Reach-timed_out = later Reach-both_waiting (time_out 7 refl)

abbrev relocked_7 : System flags
relocked_7 = record timed_out { owner = some 7; pc = update timed_out.pc 7 (relocked timeout) }

Reach-relocked_7 : Reach flags relocked_7
Reach-relocked_7 = later Reach-timed_out (relock 7 timeout refl refl)

low_4 : (l t : ℕ) → Holds timed_out.slots l t → t ≢ 7 → by_number t < by_number 7
low_4 zero t h ne = ground arith
low_4 (suc zero) t h ne = ground arith
low_4 (suc (suc zero)) t h ne = cc
low_4 (suc (suc (suc l))) t h ne = cc

enqueue_lem_example :
    ((enqueue 5 two_waiting ≡ (two_waiting, false)) × IsTaken two_waiting 3)
    ⊎ (i : ℕ) × (enqueue 5 two_waiting ≡ (set two_waiting i (some 5), true))
      × (get_elem? two_waiting i ≡ some none)
      × IsTaken two_waiting i
enqueue_lem_example = enqueue_lem 5 two_waiting

notify_one-IsChoice_example :
    ((notify_one by_number two_waiting ≡ (two_waiting, none))
      × ((j u : ℕ) → ¬ Holds two_waiting j u))
    ⊎ (i : ℕ) × (t : ℕ) × (notify_one by_number two_waiting ≡ (set two_waiting i none, some t))
      × IsChoice by_number two_waiting i t
notify_one-IsChoice_example = notify_one-IsChoice by_number two_waiting

Step-Inv_example : Inv flags timed_out
Step-Inv_example =
    Step-Inv flags {s = both_waiting} (time_out 7 refl) (Reach-Inv flags Reach-both_waiting)

no_lost_wakeup_example : ((k : ℕ) × Holds both_waiting.slots k 4) ⊎ (both_waiting.kernel 4 ≡ true)
no_lost_wakeup_example = no_lost_wakeup flags 4 false Reach-both_waiting refl

notify_all_wakes_example :
    (notify_tasks flags (notify_all both_waiting.slots).1 both_waiting.kernel 4 ≡ true)
    × ((k t : ℕ) → ¬ Holds (notify_all both_waiting.slots).0 k t)
notify_all_wakes_example = notify_all_wakes flags 4 false Reach-both_waiting refl

notify_one_wakes_example :
    let r = notify_one by_number both_waiting.slots in
    (j : ℕ) × (in_wait (both_waiting.pc j) ≡ true)
    × (4 ≤ by_number j)
    × (notify_task flags r.1 both_waiting.kernel j ≡ true)
    × (count j r.0 ≡ 0)
    × ((t : ℕ) → t ≢ j → count t r.0 ≡ count t both_waiting.slots)
notify_one_wakes_example = notify_one_wakes flags by_number 4 false Reach-both_waiting refl refl

mutex_held_once_example : ◌≡◌ {A = ℕ} 7 7
mutex_held_once_example = mutex_held_once flags 7 7 Reach-relocked_7 refl refl

notify_one_on_timed_out_example :
    let t = after_notify_one flags by_number timed_out in
    ((notify_one by_number timed_out.slots).1 ≡ some 7)
    × (count 7 t.slots ≡ 0)
    × ((i : ℕ)
        → i ≢ 7
        → (count i t.slots ≡ count i timed_out.slots) × (t.kernel i ≡ timed_out.kernel i))
    × (u : System flags) × Run (Own flags (λ i. i == 7)) t u
    × (u.pc 7 ≡ relocked timeout)
    × (u.owner ≡ some 7)
    × ((i : ℕ)
        → i ≢ 7
        → (count i u.slots ≡ count i timed_out.slots)
          × (u.kernel i ≡ timed_out.kernel i)
          × (u.pc i ≡ timed_out.pc i))
notify_one_on_timed_out_example =
    notify_one_on_timed_out flags timed_out by_number 1 7 Reach-timed_out refl refl refl low_4

-- Thread 7, whose deadline has passed, gets the mutex back while 4 sleeps.
Reach-Moves_example :
    Moves (returns 7) (monitor flags timed_out) (monitor flags relocked_7)
    × ((k : ℕ)
        → is_asleep ((monitor flags timed_out).stage k) ≡ true
        → (monitor flags timed_out).queued k ≡ true)
Reach-Moves_example = Reach-Moves flags Reach-timed_out (relock 7 timeout refl refl)

both_asleep : (i : ℕ) → is_in i (4 ∷ 7 ∷ []) ≡ true → is_waiting (both_waiting.pc i) ≡ true
both_asleep i h = ground arith

notify_all_returns_example :
    let u = record both_waiting {
      slots = (notify_all both_waiting.slots).0;
      kernel = notify_tasks flags (notify_all both_waiting.slots).1 both_waiting.kernel;
    } in
    (t : System flags) × AllReturned flags (λ i. is_in i (4 ∷ 7 ∷ [])) u t (4 ∷ 7 ∷ [])
notify_all_returns_example =
    notify_all_returns flags (4 ∷ 7 ∷ []) Reach-both_waiting refl refl both_asleep

abbrev one_holds : System flags
one_holds = record init { owner = some 1; pc = update (λ _. outside) 1 holding }

others_outside : (j : ℕ) → 3 ≤ j → one_holds.pc j ≡ outside
others_outside j h = ground arith

-- Three threads and three slots.
enqueue-finds_slot_example : (enqueue 1 one_holds.slots).1 ≡ true
unfolding condition_variable_opt
enqueue-finds_slot_example =
    enqueue-finds_slot flags {s = one_holds} 3 1 (later Reach-init (lock_mutex 1 refl refl))
      (omega arith) others_outside refl
