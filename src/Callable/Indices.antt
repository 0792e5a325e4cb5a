-- ===== src/Callable/Indices.antt =====
-- BuildIndexTuple of impl/freertos/callable.h, and the elements of a tuple at the indices that it lists.
use roo_threads.Base.{
  ℕ, zero, suc, ◌<◌, ◌≤◌, ◌≡◌, refl, inl, inr, List, [], ◌∷◌, ◌++◌, some, length, get_elem?, set,
  arith, Option-cases, length-append,
}
use roo_threads.Callable.{IndexTuple, next, build_index_tuple, get_all, set_all}

pub length-build_index_tuple : (n : ℕ) → length (build_index_tuple n) ≡ n
unfolding build_index_tuple next
length-build_index_tuple zero = refl
length-build_index_tuple (suc n) = omega (
  arith,
  length-build_index_tuple n,
  length-append (build_index_tuple n) (length (build_index_tuple n) ∷ []),
)

module _ {A : Type 0} where
  get_elem?-some : (t : List A) (n : ℕ) → n < length t → (x : A) × (get_elem? t n ≡ some x)
  get_elem?-some [] n lt = ground arith
  get_elem?-some (x ∷ t) zero lt = (x, refl)
  get_elem?-some (x ∷ t) (suc n) lt = get_elem?-some t n (ground arith)

  abbrev take : ℕ → List A → List A
  take zero t = []
  take (suc n) [] = []
  take (suc n) (x ∷ t) = x ∷ take n t

  take-suc :
      (t : List A) (n : ℕ) (x : A) → get_elem? t n ≡ some x → take n t ++ (x ∷ []) ≡ take (suc n) t
  take-suc [] n x e = ground arith
  take-suc (y ∷ t) zero x e = ground arith
  take-suc (y ∷ t) (suc n) x e = ground (arith, take-suc t n x)

  take-length : (t : List A) → take (length t) t ≡ t
  take-length [] = refl
  take-length (x ∷ t) = ground (arith, take-length t)

  get_all-append :
      (is : IndexTuple) (i : ℕ) (t xs : List A) (x : A)
      → get_all is t ≡ some xs
      → get_elem? t i ≡ some x
      → get_all (is ++ (i ∷ [])) t ≡ some (xs ++ (x ∷ []))
  unfolding get_all
  get_all-append [] i t xs x g e = ground arith
  get_all-append (j ∷ is) i t xs x g e = elim (Option-cases (get_all is t)) [
    | inl e' ↦ ground arith
    | inr (rest, e') ↦ ground (arith, get_all-append is i t rest x e' e)
  ]

  get_all-build_index_tuple :
      (n : ℕ) (t : List A) → n ≤ length t → get_all (build_index_tuple n) t ≡ some (take n t)
  unfolding build_index_tuple next get_all
  get_all-build_index_tuple zero t le = refl
  get_all-build_index_tuple (suc n) t le =
      let (x, e) = get_elem?-some t n (omega arith) in
      ground (
        arith,
        length-build_index_tuple n,
        get_all-append (build_index_tuple n) n t (take n t) x
            (get_all-build_index_tuple n t (omega arith)) e,
        take-suc t n x e,
      )

  -- The first `n` elements of the second list replaced by those of the first.
  abbrev overwrite : ℕ → List A → List A → List A
  overwrite zero ys t = t
  overwrite (suc n) (y ∷ ys) (x ∷ t) = y ∷ overwrite n ys t
  overwrite (suc n) _ t = t

  set-overwrite :
      (n : ℕ) (ys t : List A) (y : A)
      → get_elem? ys n ≡ some y
      → set (overwrite n ys t) n y ≡ overwrite (suc n) ys t
  set-overwrite n [] t y e = ground arith
  set-overwrite zero (z ∷ ys) [] y e = refl
  set-overwrite (suc n) (z ∷ ys) [] y e = refl
  set-overwrite zero (z ∷ ys) (x ∷ t) y e = ground arith
  set-overwrite (suc n) (z ∷ ys) (x ∷ t) y e = ground (arith, set-overwrite n ys t y)

  overwrite-length : (ys t : List A) → length ys ≡ length t → overwrite (length t) ys t ≡ ys
  overwrite-length [] [] e = refl
  overwrite-length [] (x ∷ t) e = ground arith
  overwrite-length (y ∷ ys) [] e = ground arith
  overwrite-length (y ∷ ys) (x ∷ t) e = ground (arith, overwrite-length ys t)

  length-take : (n : ℕ) (t : List A) → n ≤ length t → length (take n t) ≡ n
  length-take zero t le = refl
  length-take (suc n) [] le = ground arith
  length-take (suc n) (x ∷ t) le = ground (arith, length-take n t)

  set_all-append :
      (is : IndexTuple) (i : ℕ) (xs : List A) (x : A) (t : List A)
      → length is ≡ length xs
      → set_all (is ++ (i ∷ [])) (xs ++ (x ∷ [])) t ≡ set (set_all is xs t) i x
  unfolding set_all
  set_all-append [] i [] x t e = refl
  set_all-append [] i (y ∷ xs) x t e = ground arith
  set_all-append (j ∷ is) i [] x t e = ground arith
  set_all-append (j ∷ is) i (y ∷ xs) x t e = set_all-append is i xs x (set t j y) (ground arith)

  set_all-build_index_tuple :
      (n : ℕ) (ys t : List A)
      → n ≤ length ys
      → set_all (build_index_tuple n) (take n ys) t ≡ overwrite n ys t
  unfolding build_index_tuple next set_all
  set_all-build_index_tuple zero ys t le = refl
  set_all-build_index_tuple (suc n) ys t le =
      let (y, e) = get_elem?-some ys n (omega arith) in
      ground (
        arith,
        length-build_index_tuple n,
        length-take n ys,
        take-suc ys n y e,
        set_all-append (build_index_tuple n) n (take n ys) y t,
        set_all-build_index_tuple n ys t,
        set-overwrite n ys t y e,
      )

  -- The indices of a tuple list all its elements, each once and in their order: read through them, the
  -- tuple is itself, and a write through them replaces it.
  pub get_all-all : (t : List A) → get_all (build_index_tuple (length t)) t ≡ some t
  get_all-all t = ground (arith, get_all-build_index_tuple (length t) t, take-length t)

  pub set_all-all :
      (ys t : List A) → length ys ≡ length t → set_all (build_index_tuple (length t)) ys t ≡ ys
  set_all-all ys t e =
      ground
        (arith, set_all-build_index_tuple (length t) ys t, take-length ys, overwrite-length ys t)
