-- ===== src/Callable/Tests.antt =====
-- Tests of impl/freertos/callable.h, and its theorems on a callable of two arguments.
use roo_threads.Base.{
  ℕ, ◌+◌, ◌≡◌, refl, true, List, [], ◌∷◌, ◌++◌, map, some, if◌then◌else◌, length, arith,
}
use roo_threads.Callable.{
  lvalue, rvalue, build_index_tuple, StdInvoke, make_dynamic_callable_with_args, call,
}
use roo_threads.Callable.Passing.{is_moved, call-make_dynamic_callable_with_args}

index_tuple_3 : build_index_tuple 3 ≡ 0 ∷ 1 ∷ 2 ∷ []
unfolding build_index_tuple
index_tuple_3 = refl

abbrev wiped : ℕ → ℕ
wiped n = 0

length-map_zero : (xs : List ℕ) → length (map wiped xs) ≡ length xs
length-map_zero [] = refl
length-map_zero (x ∷ xs) = ground (arith, length-map_zero xs)

-- A callable that moves from its arguments, and writes down what it is given.
abbrev logs : StdInvoke ℕ
logs = record {
  World = List ℕ;
  Result = ℕ;
  invoke = λ objects w. (map wiped objects, length objects, objects ++ w);
  length-invoke = λ objects w. length-map_zero objects;
}

abbrev vars : ℕ → ℕ
vars v = 10 + v

call-make_dynamic_callable_with_args_example :
    let made =
      make_dynamic_callable_with_args wiped true
        (rvalue 2)
        (lvalue 7 ∷ rvalue 1 ∷ lvalue 7 ∷ [])
        vars in
    (call logs made.0 []
      ≡ some (record { callable = record { tuple = 0 ∷ 0 ∷ 0 ∷ 0 ∷ [] } }, 12 ∷ 17 ∷ 11 ∷ 17 ∷ []))
    × ((k : ℕ)
        → made.1 k
          ≡ (if is_moved k (rvalue 2 ∷ lvalue 7 ∷ rvalue 1 ∷ lvalue 7 ∷ []) then 0 else vars k))
call-make_dynamic_callable_with_args_example =
    call-make_dynamic_callable_with_args wiped true logs (rvalue 2)
      (lvalue 7 ∷ rvalue 1 ∷ lvalue 7 ∷ []) vars [] refl
