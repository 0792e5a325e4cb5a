-- ===== src/Thread/Whole.antt =====
-- The whole way of a callable through impl/freertos/callable.h and thread.cpp: made by the constructor of a
-- thread, called by run_thread(), and the thread joined.
mod Tests
use roo_threads.Base.{
  ℕ, ◌+◌, ◌≡◌, refl, ◌⊎◌, inl, inr, Bool, true, false, List, [], ◌∷◌, Option, some, arith,
  Bool-cases,
}
use roo_threads.Callable.{Arg, StdInvoke, DynamicCallable, make_dynamic_callable_with_args}
use roo_threads.Callable
use roo_threads.Callable.Passing.{are_separate, values, call-make_dynamic_callable_with_args}
use roo_threads.Thread.{
  joined, System, Step, creates, create_fails, set_state, join_null, join_detached, join_busy, join,
  take_barrier, give_back, delete_barrier, clear_state, give_mutex, delete_mutex, delete_task,
  delete_state, move_start, call, drop_start, read_joinable, give_barrier, suspend, free_state,
  delete_itself, unused, Reach, begin, later,
}
use roo_threads.Thread.Join.{join_lem, called_once}

-- `start->call()`
abbrev pub is_call : {s t : System} → Step s t → Bool
is_call (call e) = true
is_call _ = false

Step-runs : {s t : System} (step : Step s t) → is_call step ≡ false → t.runs ≡ s.runs
Step-runs (creates j e) quiet = refl
Step-runs (create_fails e) quiet = refl
Step-runs (set_state e) quiet = refl
Step-runs (join_null e e') quiet = refl
Step-runs (join_detached e e') quiet = refl
Step-runs (join_busy e e') quiet = refl
Step-runs (join e e' e'' f) quiet = refl
Step-runs (take_barrier e e') quiet = refl
Step-runs (give_back e) quiet = refl
Step-runs (delete_barrier e) quiet = refl
Step-runs (clear_state e) quiet = refl
Step-runs (give_mutex e) quiet = refl
Step-runs (delete_mutex e) quiet = refl
Step-runs (delete_task e) quiet = refl
Step-runs (delete_state e) quiet = refl
Step-runs (move_start e) quiet = refl
Step-runs (drop_start e) quiet = refl
Step-runs (read_joinable e) quiet = refl
Step-runs (give_barrier e) quiet = refl
Step-runs (suspend e) quiet = refl
Step-runs (free_state e) quiet = refl
Step-runs (delete_itself e) quiet = refl
Step-runs (call e) quiet = cc

Step-runs_call : {s t : System} (step : Step s t) → is_call step ≡ true → t.runs ≡ s.runs + 1
Step-runs_call (creates j e) loud = cc
Step-runs_call (create_fails e) loud = cc
Step-runs_call (set_state e) loud = cc
Step-runs_call (join_null e e') loud = cc
Step-runs_call (join_detached e e') loud = cc
Step-runs_call (join_busy e e') loud = cc
Step-runs_call (join e e' e'' f) loud = cc
Step-runs_call (take_barrier e e') loud = cc
Step-runs_call (give_back e) loud = cc
Step-runs_call (delete_barrier e) loud = cc
Step-runs_call (clear_state e) loud = cc
Step-runs_call (give_mutex e) loud = cc
Step-runs_call (delete_mutex e) loud = cc
Step-runs_call (delete_task e) loud = cc
Step-runs_call (delete_state e) loud = cc
Step-runs_call (move_start e) loud = cc
Step-runs_call (drop_start e) loud = cc
Step-runs_call (read_joinable e) loud = cc
Step-runs_call (give_barrier e) loud = cc
Step-runs_call (suspend e) loud = cc
Step-runs_call (free_state e) loud = cc
Step-runs_call (delete_itself e) loud = cc
Step-runs_call (call e) loud = refl

module _ {A : Type 0} (S : StdInvoke A) where
  -- std::invoke, with a list of the objects that it has been given, the last call first.
  abbrev pub logged : StdInvoke A
  logged = record {
    World = S.World × List (List A);
    Result = S.Result;
    invoke = λ objects w. (
      (S.invoke objects w.0).0,
      (S.invoke objects w.0).1,
      ((S.invoke objects w.0).2, objects ∷ w.1),
    );
    length-invoke = λ objects w. S.length-invoke objects w.0;
  }

  -- The thread and its owner, the callable, and the program with that list.
  pub record Whole : Type 0 where
    pub life : System
    pub callable : DynamicCallable A
    pub world : S.World
    pub given : List (List A)

  pub data Moves (s : Whole) : Whole → Type 0 where
    steps :
        {t : System} (step : Step s.life t) → is_call step ≡ false → Moves s (record s { life = t })
    calls :
        {t : System} (step : Step s.life t) (callable : DynamicCallable A) (world : S.World)
        (given : List (List A))
        → is_call step ≡ true
        → Callable.call logged s.callable (s.world, s.given) ≡ some (callable, (world, given))
        → Moves s (record { life = t; callable = callable; world = world; given = given })
    -- the rest of the program
    others : (world : S.World) → Moves s (record s { world = world })

  module _ (moved : A → A) (last_first : Bool) (callable : Arg) (args : List Arg)
      (vars : ℕ → A) where
    abbrev pub made : DynamicCallable A
    made = (make_dynamic_callable_with_args moved last_first callable args vars).0

    pub data Runs : Whole → Type 0 where
      constructed :
          (w : S.World) → Runs (record { life = unused; callable = made; world = w; given = [] })
      goes_on : {s t : Whole} → Runs s → Moves s t → Runs t

    Runs-Reach : {s : Whole} → Runs s → Reach s.life
    Runs-Reach (constructed w) = begin
    Runs-Reach (goes_on r (steps step quiet)) = later (Runs-Reach r) step
    Runs-Reach (goes_on r (calls step c w g loud e)) = later (Runs-Reach r) step
    Runs-Reach (goes_on r (others w)) = Runs-Reach r

    module _ (separate : are_separate (callable ∷ args) ≡ true) where
      passed :
          (w : S.World) (g : List (List A))
          → (d : DynamicCallable A) × (v : S.World) × (Callable.call logged made (w, g)
              ≡ some (d, (v, values vars (callable ∷ args) ∷ g)))
      passed w g = (
        _,
        _,
        (call-make_dynamic_callable_with_args moved last_first logged callable args vars (w, g)
            separate).0,
      )

      Runs-given :
          {s : Whole}
          → Runs s
          → ((s.life.runs ≡ 0) × (s.callable ≡ made) × (s.given ≡ []))
            ⊎ ((s.life.runs ≡ 1) × (s.given ≡ values vars (callable ∷ args) ∷ []))
      Runs-given (constructed w) = inl (refl, refl, refl)
      Runs-given (goes_on r (others w)) = Runs-given r
      Runs-given (goes_on r (steps step quiet)) = ground (arith, Runs-given r, Step-runs step quiet)
      Runs-given (goes_on {s} r (calls step c w g loud e)) =
          let (d, v, q) = passed s.world s.given in
          ground (
            arith,
            Runs-given r,
            Step-runs_call step loud,
            called_once (later (Runs-Reach r) step),
            q,
          )

      -- A thread that is made of a callable and arguments, where no variable that is moved from is passed
      -- twice: where join() has returned, std::invoke has been given the callable and its arguments once, in their
      -- order, with the values that the variables had at the construction, and nothing else; and in
      -- every reachable state each step of the thread and its owner can be taken, the call included.
      pub joined-given :
          {s : Whole}
          → Runs s
          → (s.life.owner ≡ joined → s.given ≡ values vars (callable ∷ args) ∷ [])
            × ((t : System) → Step s.life t → (u : Whole) × Moves s u × (u.life ≡ t))
      joined-given {s} r = (
        (λ e. ground (arith, Runs-given r, join_lem (Runs-Reach r) e)),
        λ t step. elim (Bool-cases (is_call step)) [
          | inr quiet ↦ (record s { life = t }, steps step quiet, refl)
          | inl loud ↦
              let (d, v, q) = passed s.world s.given in
              (
                record {
                  life = t;
                  callable = d;
                  world = v;
                  given = values vars (callable ∷ args) ∷ s.given;
                },
                calls step d v _ loud (
                    ground (
                      arith,
                      Runs-given r,
                      Step-runs_call step loud,
                      called_once (later (Runs-Reach r) step),
                      q,
                    )),
                refl,
              )
        ],
      )
