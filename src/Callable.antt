-- ===== src/Callable.antt =====
-- impl/freertos/callable.h: the callable and the arguments of a new thread, kept in a tuple until its task
-- calls them. The values of all types are one type `A`; std::decay, which only turns an array or a function into
-- its pointer, is applied to them before.
pub mod Indices
pub mod Passing
mod Tests
use roo_threads.Base.{
  ℕ, zero, suc, ◌≡◌, Bool, List, [], ◌∷◌, ◌++◌, map, Option, none, some, length, get_elem?, set,
  if◌then◌else◌,
}
use roo_threads.Base.Family.{update}

-- IndexTuple<Indexes...>
abbrev pub IndexTuple : Type 0
IndexTuple = List ℕ

unfoldable pub next : IndexTuple → IndexTuple
next indexes = indexes ++ (length indexes ∷ [])

unfoldable pub build_index_tuple : ℕ → IndexTuple
unfolding next
build_index_tuple zero = []
build_index_tuple (suc n) = next (build_index_tuple n)

-- An argument of type T&&: it names a variable that it is copied from, or moved from.
pub data Arg : Type 0 where
  lvalue rvalue : (variable : ℕ) → Arg

module _ {A : Type 0} where
  -- `std::get<Ind>(tuple)...`, and what the objects are after a call that was given references
  -- to them; nothing where an index is out of range, which does not compile.
  unfoldable pub get_all : IndexTuple → List A → Option (List A)
  get_all [] tuple = some []
  get_all (i ∷ is) tuple = elim (get_elem? tuple i) [
    | none ↦ none
    | some x ↦ elim (get_all is tuple) [ none ↦ none | some xs ↦ some (x ∷ xs) ]
  ]

  unfoldable pub set_all : IndexTuple → List A → List A → List A
  set_all (i ∷ is) (x ∷ xs) tuple = set_all is xs (set tuple i x)
  set_all _ _ tuple = tuple

-- std::invoke, on references to the objects of which the first is called with the others, and the state of
-- the program: the objects, the result and the state after it.
pub record StdInvoke (A : Type 0) : Type 1 where
  pub World : Type 0
  pub Result : Type 0
  pub invoke : List A → World → List A × Result × World
  pub length-invoke : (objects : List A) (w : World) → length (invoke objects w).0 ≡ length objects

pub record Invoker (A : Type 0) : Type 0 where
  pub tuple : List A

pub record DynamicCallable (A : Type 0) : Type 0 where
  pub callable : Invoker A

-- `moved` is what a move leaves in the object that it moves from. A std::tuple may construct its last
-- element first, or its first one.
module _ {A : Type 0} (moved : A → A) (last_first : Bool) where
  -- `std::forward<T>(arg)` as the initializer of an object: its value, and the variables after it.
  unfoldable pub forward : Arg → (ℕ → A) → A × (ℕ → A)
  forward (lvalue v) vars = (vars v, vars)
  forward (rvalue v) vars = (vars v, update vars v (moved (vars v)))

  unfoldable pub decayed_tuple : List Arg → (ℕ → A) → List A × (ℕ → A)
  unfolding forward
  decayed_tuple [] vars = ([], vars)
  decayed_tuple (a ∷ rest_args) vars =
      let rest = decayed_tuple rest_args vars in
      let last = forward a rest.1 in
      let first = forward a vars in
      let others = decayed_tuple rest_args first.1 in
      if last_first then (last.0 ∷ rest.0, last.1) else (first.0 ∷ others.0, others.1)

  unfoldable pub make_invoker : Arg → List Arg → (ℕ → A) → Invoker A × (ℕ → A)
  unfolding decayed_tuple
  make_invoker callable args vars =
      let r = decayed_tuple (callable ∷ args) vars in (record { tuple = r.0 }, r.1)

  -- The constructor of DynamicCallable moves the callable, which is a temporary: the new object, and what is
  -- left of the temporary.
  unfoldable pub make_dynamic_callable : Invoker A → DynamicCallable A × Invoker A
  make_dynamic_callable i = (record { callable = i }, record { tuple = map moved i.tuple })

  unfoldable pub make_dynamic_callable_with_args :
      Arg → List Arg → (ℕ → A) → DynamicCallable A × (ℕ → A)
  unfolding make_invoker make_dynamic_callable
  make_dynamic_callable_with_args callable args vars =
      let r = make_invoker callable args vars in ((make_dynamic_callable r.0).0, r.1)

module _ {A : Type 0} (S : StdInvoke A) where
  open S use {World, Result}

  unfoldable pub invoke : IndexTuple → Invoker A → World → Option (Invoker A × Result × World)
  unfolding get_all set_all
  invoke indexes self w = elim (get_all indexes self.tuple) [
    | none ↦ none
    | some objects ↦
        let (after, result, v) = S.invoke objects w in
        some (record { tuple = set_all indexes after self.tuple }, result, v)
  ]

  -- `operator()()`
  unfoldable pub call_operator : Invoker A → World → Option (Invoker A × Result × World)
  unfolding invoke build_index_tuple
  call_operator self w = invoke (build_index_tuple (length self.tuple)) self w

  -- `void call() override`
  unfoldable pub call : DynamicCallable A → World → Option (DynamicCallable A × World)
  unfolding call_operator
  call self w = elim (call_operator self.callable w) [
    | none ↦ none
    | some (i, result, v) ↦ some (record { callable = i }, v)
  ]
