-- ===== src/CvOpt/System/Progress.antt =====
-- The threads around one condition variable of condition_variable_opt.cpp get back from their waits.
use roo_threads.Base.{
  ℕ, ◌≡◌, refl, ap, ◌∙◌, ◌≢◌, Bool, true, false, List, [], ◌∷◌, none, ◌==◌, ◌||◌, ◌&&◌, not, arith,
}
use roo_threads.Base.Runs.{Run, here, next, Run-append}
use roo_threads.Kernel.{TaskNotify}
use roo_threads.CvOpt.{notify_all}
use roo_threads.CvOpt.System.{
  Pc, outside, holding, waiting, woken, relocked, aborted, no_timeout, System, Own, unlock_mutex,
  wake, relock, finish_wait, Reach, notify_tasks,
}
use roo_threads.CvOpt.System.Invariant.{is_waiting}
use roo_threads.CvOpt.System.Wakeup.{notify_all_wakes}

abbrev pub is_in : ℕ → List ℕ → Bool
is_in i [] = false
is_in i (j ∷ js) = (j == i) || is_in i js

abbrev pub are_distinct : List ℕ → Bool
are_distinct [] = true
are_distinct (j ∷ js) = not (is_in j js) && are_distinct js

is_waiting-waiting : (p : Pc) → is_waiting p ≡ true → (timed : Bool) × (p ≡ waiting timed)
is_waiting-waiting (waiting timed) h = (timed, refl)
is_waiting-waiting outside h = ground arith
is_waiting-waiting holding h = ground arith
is_waiting-waiting (woken st) h = ground arith
is_waiting-waiting (relocked st) h = ground arith
is_waiting-waiting aborted h = ground arith

is_in_tail : (i j : ℕ) (js : List ℕ) → is_in i js ≡ true → is_in i (j ∷ js) ≡ true
is_in_tail i j js h = ground arith

apart : (i j : ℕ) (js : List ℕ) → are_distinct (j ∷ js) ≡ true → is_in i js ≡ true → i ≢ j
apart i j js d h e = ground arith

module _ (K : TaskNotify) where
  open K use {pending, pending-receive}

  -- Where the threads of a list stand after they have come back in turn, by steps of threads of
  -- which `among` holds.
  pub record AllReturned (among : ℕ → Bool) (s t : System K) (js : List ℕ) : Type 0 where
    pub run : Run (Own K among) s t
    pub free : t.owner ≡ none
    pub out : (i : ℕ) → is_in i js ≡ true → t.pc i ≡ outside
    pub kept : (k : ℕ) → is_in k js ≡ false → t.pc k ≡ s.pc k

  module _ (among : ℕ → Bool) where
    -- A thread that has been notified comes back, and gives the mutex up; nothing changes for the others.
    record Returned (s t : System K) (i : ℕ) : Type 0 where
      run : Run (Own K among) s t
      free : t.owner ≡ none
      out : t.pc i ≡ outside
      pcs : (k : ℕ) → k ≢ i → t.pc k ≡ s.pc k
      told : (k : ℕ) → k ≢ i → pending t.kernel k ≡ pending s.kernel k

    comes_back :
        {s : System K} (i : ℕ) (timed : Bool)
        → among i ≡ true
        → s.owner ≡ none
        → s.pc i ≡ waiting timed
        → pending s.kernel i ≡ true
        → (t : System K) × Returned s t i
    comes_back {s} i timed m free w p = (
      _,
      record {
        run =
            next
              (next
                (next (next here (wake i timed w p, i, refl, m))
                  (relock i no_timeout (ground arith) free, i, refl, m))
                (finish_wait i no_timeout (ground arith), i, refl, m))
              (unlock_mutex i (ground arith), i, refl, m);
        free = refl;
        out = ground arith;
        pcs = λ k ne. ground arith;
        told = λ k ne. ground (arith, pending-receive i k s.kernel);
      },
    )

    comes_back-AllReturned :
        {s u t : System K} (j : ℕ) (js : List ℕ)
        → Returned s u j
        → AllReturned among u t js
        → AllReturned among s t (j ∷ js)
    comes_back-AllReturned j js back rest = record {
      run = Run-append (Own K among) back.run rest.run;
      free = rest.free;
      out = λ i h. ground (arith, rest.out i, rest.kept i, back.out);
      kept = λ k h. ground (arith, rest.kept k, back.pcs k);
    }

    all_come_back :
        {s : System K} (js : List ℕ)
        → s.owner ≡ none
        → are_distinct js ≡ true
        → ((i : ℕ) → is_in i js ≡ true → among i ≡ true)
        → ((i : ℕ) → is_in i js ≡ true → (is_waiting (s.pc i) ≡ true) × (pending s.kernel i ≡ true))
        → (t : System K) × AllReturned among s t js
    all_come_back {s} [] free d m told =
        (s, record { run = here; free = free; out = λ i h. ground arith; kept = λ k h. refl })
    all_come_back {s} (j ∷ js) free d m told =
        let (asleep, p) = told j (ground arith) in
        let (timed, w) = is_waiting-waiting (s.pc j) asleep in
        let (u, back) = comes_back {s = s} j timed (m j (ground arith)) free w p in
        let (t, rest) =
          all_come_back {s = u} js back.free (ground arith) (λ i h. m i (is_in_tail i j js h))
            (λ i h.
              let ne = apart i j js d h in
              let (asleep', p') = told i (is_in_tail i j js h) in
              (ap is_waiting (back.pcs i ne) ∙ asleep', back.told i ne ∙ p')) in
        (t, comes_back-AllReturned j js back rest)

  -- In a reachable state where nobody has the mutex, and for any list of different threads that sleep in a wait:
  -- from the state right after a call of notify_all there is a run of steps of these threads alone, with no other
  -- notification, to a state where all of them have returned from their waits and have given
  -- the mutex up again, and every other thread stands where it stood.
  pub notify_all_returns :
      {s : System K} (js : List ℕ)
      → Reach K s
      → s.owner ≡ none
      → are_distinct js ≡ true
      → ((i : ℕ) → is_in i js ≡ true → is_waiting (s.pc i) ≡ true)
      → let u = record s {
        slots = (notify_all s.slots).0;
        kernel = notify_tasks K (notify_all s.slots).1 s.kernel;
      } in
        (t : System K) × AllReturned (λ i. is_in i js) u t js
  notify_all_returns {s} js r free d asleep =
      all_come_back (λ i. is_in i js) js free d (λ i h. h)
        (λ i h.
          let (timed, w) = is_waiting-waiting (s.pc i) (asleep i h) in
          (asleep i h, (notify_all_wakes K i timed r w).0))
