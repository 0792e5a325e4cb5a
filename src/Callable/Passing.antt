-- ===== src/Callable/Passing.antt =====
-- What a callable of impl/freertos/callable.h passes to std::invoke, when it is called, of the variables that it
-- was made from.
use roo_threads.Base.{
  ℕ, ◌≡◌, refl, Bool, true, false, List, [], ◌∷◌, map, some, not, ◌&&◌, ◌||◌, ◌==◌, if◌then◌else◌,
  arith,
}
use roo_threads.Base.Family.{update}
use roo_threads.Callable.{
  Arg, lvalue, rvalue, forward, decayed_tuple, make_invoker, make_dynamic_callable,
  make_dynamic_callable_with_args, StdInvoke, call_operator, call, invoke,
}
use roo_threads.Callable.Indices.{get_all-all, set_all-all}

abbrev pub variable : Arg → ℕ
variable (lvalue v) = v
variable (rvalue v) = v

abbrev pub moves : ℕ → Arg → Bool
moves k (lvalue v) = false
moves k (rvalue v) = v == k

abbrev pub is_moved : ℕ → List Arg → Bool
is_moved k [] = false
is_moved k (a ∷ args) = moves k a || is_moved k args

abbrev pub is_passed : ℕ → List Arg → Bool
is_passed k [] = false
is_passed k (a ∷ args) = (variable a == k) || is_passed k args

-- A variable that is moved from is passed once.
abbrev pub are_separate : List Arg → Bool
are_separate [] = true
are_separate (lvalue v ∷ args) = not (is_moved v args) && are_separate args
are_separate (rvalue v ∷ args) = not (is_passed v args) && are_separate args

is_passed-is_moved : (k : ℕ) (args : List Arg) → is_moved k args ≡ true → is_passed k args ≡ true
is_passed-is_moved k [] h = h
is_passed-is_moved k (lvalue v ∷ args) h = ground (arith, is_passed-is_moved k args)
is_passed-is_moved k (rvalue v ∷ args) h = ground (arith, is_passed-is_moved k args)

module _ {A : Type 0} where
  abbrev pub values : (ℕ → A) → List Arg → List A
  values vars = map (λ a. vars (variable a))

  values-update :
      (vars : ℕ → A) (v : ℕ) (x : A) (args : List Arg)
      → is_passed v args ≡ false
      → values (update vars v x) args ≡ values vars args
  values-update vars v x [] h = refl
  values-update vars v x (a ∷ args) h = ground (arith, values-update vars v x args)

  module _ (moved : A → A) (last_first : Bool) where
    decayed_tuple-values :
        (args : List Arg) (vars : ℕ → A)
        → are_separate args ≡ true
        → ((decayed_tuple moved last_first args vars).0 ≡ values vars args)
          × ((k : ℕ)
              → (decayed_tuple moved last_first args vars).1 k
                ≡ (if is_moved k args then moved (vars k) else vars k))
    unfolding decayed_tuple forward
    decayed_tuple-values [] vars h = (refl, λ k. refl)
    decayed_tuple-values (lvalue v ∷ args) vars h =
        let (read, left) = decayed_tuple-values args vars (ground arith) in
        (ground (arith, left v), λ k. ground (arith, left k))
    decayed_tuple-values (rvalue v ∷ args) vars h =
        let (read, left) = decayed_tuple-values args vars (ground arith) in
        let (read', left') =
          decayed_tuple-values args (update vars v (moved (vars v))) (ground arith) in
        (
          ground (
            arith,
            left v,
            is_passed-is_moved v args,
            values-update vars v (moved (vars v)) args,
          ),
          λ k. ground (arith, left k, left' k, left v, is_passed-is_moved v args),
        )

    -- A callable made of a callable and arguments by copy or by move, where no variable that is moved from is
    -- passed twice: its call ends with one call of std::invoke, on what these variables held when it was made, the
    -- callable first and the arguments in their order, whichever element the tuple constructs first, and keeps
    -- what std::invoke leaves in those objects; and it has moved from those variables alone that it was given to
    -- move from.
    pub call-make_dynamic_callable_with_args :
        (S : StdInvoke A) (callable : Arg) (args : List Arg) (vars : ℕ → A) (w : S.World)
        → are_separate (callable ∷ args) ≡ true
        → let made = make_dynamic_callable_with_args moved last_first callable args vars in
          let after = S.invoke (values vars (callable ∷ args)) w in
          (call S made.0 w ≡ some (record { callable = record { tuple = after.0 } }, after.2))
          × ((k : ℕ) → made.1 k ≡ (if is_moved k (callable ∷ args) then moved (vars k) else vars k))
    unfolding make_dynamic_callable_with_args make_dynamic_callable make_invoker call call_operator
        invoke
    call-make_dynamic_callable_with_args S callable args vars w h =
        let (read, left) = decayed_tuple-values (callable ∷ args) vars h in
        let t = values vars (callable ∷ args) in
        (
          ground (arith, read, get_all-all t, set_all-all (S.invoke t w).0 t, S.length-invoke t w),
          left,
        )
