-- ===== src/ProducerConsumer/Program.antt =====
-- The threads of ProducerConsumer.ino: producers that put the values 0, 1, 2 and so on under their tag,
-- and the task that runs loop(), which takes.
use roo_threads.Base.{
  ℕ, zero, suc, ◌+◌, ◌≡◌, refl, sym, ap, ◌∙◌, true, false, List, [], ◌∷◌, ◌++◌, ◌==◌, if◌then◌else◌,
  length, arith, Bool-cases, inl, inr,
}
use mathlib.Core.List.{append-nil}
use mathlib.Core.Path.{subst}
use roo_threads.Kernel.{TaskNotify}
use roo_threads.ProducerConsumer.{
  Item, Call, put, take, Pc, acted, told, System, Step, locks, finds_blocked, finds_free,
  starts_wait, overflows, wakes, relocks, returns, appends, removes, has_no_front, notifies,
  unlocks, new, Reach, start, later,
}
use roo_threads.ProducerConsumer.Invariant.Reachable.{Reach-Inv}

-- The loop of run(): the item of round `val`, where the int does not overflow. What it prints and how
-- long it sleeps between the rounds does not touch the queue.
abbrev pub run : ℕ → ℕ → Call
run tag val = put (record { tag = tag; value = val })

-- Thread 0 runs loop() again and again; setup() starts the others, with their number as the tag. The
-- program has those of the tags 1 and 2.
abbrev pub program : ℕ → ℕ → Call
program zero round = take
program (suc i) val = run (suc i) val

-- The values of the items with one tag, in order.
pub values : ℕ → List Item → List ℕ
values p [] = []
values p (x ∷ xs) = if x.tag == p then x.value ∷ values p xs else values p xs

-- `n` numbers from `a` on.
pub count_up : ℕ → ℕ → List ℕ
count_up a zero = []
count_up a (suc n) = a ∷ count_up (suc a) n

values-append : (p : ℕ) (xs ys : List Item) → values p (xs ++ ys) ≡ values p xs ++ values p ys
unfolding values
values-append p [] ys = refl
values-append p (x ∷ xs) ys = ground (arith, values-append p xs ys)

count_up_snoc : (a n : ℕ) → count_up a n ++ (a + n) ∷ [] ≡ count_up a (suc n)
unfolding count_up
count_up_snoc a zero = ground arith
count_up_snoc a (suc n) = ground (arith, count_up_snoc (suc a) n)

-- What comes first in an initial segment is one.
prefix-count_up : (xs ys : List ℕ) (a n : ℕ) → xs ++ ys ≡ count_up a n → xs ≡ count_up a (length xs)
unfolding count_up
prefix-count_up [] ys a n h = refl
prefix-count_up (x ∷ xs) ys a zero h = ground arith
prefix-count_up (x ∷ xs) ys a (suc n) h = ground (arith, prefix-count_up xs ys (suc a) n)

values_mine :
    (p : ℕ) (xs : List Item) (x : Item) (n : ℕ)
    → values p xs ≡ count_up 0 n
    → (x.tag == p) ≡ true
    → x.value ≡ n
    → values p xs ++ values p (x ∷ []) ≡ count_up 0 (suc n)
unfolding values
values_mine p xs x n h e v = rw (e, h, v) (ground (arith, count_up_snoc 0 n))

values_other :
    (p : ℕ) (xs : List Item) (x : Item) (n : ℕ)
    → values p xs ≡ count_up 0 n
    → (x.tag == p) ≡ false
    → values p xs ++ values p (x ∷ []) ≡ count_up 0 n
unfolding values
values_other p xs x n h e = rw e (append-nil (values p xs) ∙ h)

-- The thread has appended the item of the call that it is in.
abbrev pub has_acted : Pc → ℕ
has_acted acted = 1
has_acted told = 1
has_acted _ = 0

module _ (K : TaskNotify) (m : ℕ) where
  -- How many items a producer has put.
  abbrev pub puts : System K → ℕ → ℕ
  puts s p = s.calls p + has_acted (s.pc p)

  append-Numbered :
      (i p val n : ℕ) (published : List Item)
      → values (suc p) published ≡ count_up 0 n
      → (suc i ≡ suc p → val ≡ n)
      → values (suc p) (published ++ record { tag = suc i; value = val } ∷ [])
        ≡ (if suc i == suc p then count_up 0 (suc n) else count_up 0 n)
  append-Numbered i p val n published h now = elim (Bool-cases (suc i == suc p)) [
    | inl e ↦ rw e (
        values-append (suc p) published (record { tag = suc i; value = val } ∷ [])
        ∙ values_mine (suc p) published (record { tag = suc i; value = val }) n h e
            (now (ground arith)))
    | inr e ↦ rw e (
        values-append (suc p) published (record { tag = suc i; value = val } ∷ [])
        ∙ values_other (suc p) published (record { tag = suc i; value = val }) n h e)
  ]

  -- The items of a producer are numbered by its rounds.
  abbrev Numbered : System K → ℕ → Type 0
  Numbered s p = values (suc p) s.published ≡ count_up 0 (puts s (suc p))

  -- The item of a put is that of the round.
  put-item :
      (i val p n : ℕ) (published : List Item) (item : Item)
      → program i val ≡ put item
      → values (suc p) published ≡ count_up 0 n
      → (i ≡ suc p → val ≡ n)
      → values (suc p) (published ++ item ∷ [])
        ≡ (if i == suc p then count_up 0 (suc n) else count_up 0 n)
  put-item zero val p n published item c h now = absurd (cc)
  put-item (suc i) val p n published item c h now =
      let same : record { tag = suc i; value = val } ≡ item = cc in
      subst
        (λ x.
          values (suc p) (published ++ x ∷ [])
          ≡ (if suc i == suc p then count_up 0 (suc n) else count_up 0 n))
        same (append-Numbered i p val n published h now)

  Step-Numbered : (j p : ℕ) {s t : System K} → Step K m program j s t → Numbered s p → Numbered t p
  Step-Numbered j p {s} (locks e o) h = ground arith
  Step-Numbered j p {s} (finds_blocked e b) h = ground arith
  Step-Numbered j p {s} (finds_free e b) h = ground arith
  Step-Numbered j p {s} (starts_wait e q) h = ground arith
  Step-Numbered j p {s} (overflows e q) h = ground arith
  Step-Numbered j p {s} (wakes e q) h = ground arith
  Step-Numbered j p {s} (relocks e o) h = ground arith
  Step-Numbered j p {s} (returns e) h = ground arith
  Step-Numbered j p {s} (appends item e c) h =
      ground (arith, put-item j (s.calls j) p (puts s (suc p)) s.published item)
  Step-Numbered j p {s} (removes item rest e c q) h = ground arith
  Step-Numbered j p {s} (has_no_front e c q) h = ground arith
  Step-Numbered j p {s} (notifies e) h = ground arith
  Step-Numbered j p {s} (unlocks e) h = ground arith

  Reach-Numbered : (p : ℕ) {s : System K} → Reach K m program s → Numbered s p
  unfolding values count_up
  Reach-Numbered p (start (new memory d q c e o i)) = ground (arith, i (suc p))
  Reach-Numbered p (later j r step) = Step-Numbered j p step (Reach-Numbered p r)

  -- In every reachable state of the program with any number of producers: of each producer have been
  -- put the values 0, 1, 2 and so on, one in each round and in this order; what has been taken of them is as many as that first
  -- values of them, in the same order, and the rest is in the deque: no value is lost, changed or taken twice.
  pub taken_in_order :
      {s : System K} (p : ℕ)
      → Reach K m program s
      → let taken = values (suc p) s.consumed in
        (taken ≡ count_up 0 (length taken))
        × (taken ++ values (suc p) s.deque ≡ count_up 0 (puts s (suc p)))
  taken_in_order {s} p r =
      let all : values (suc p) s.consumed ++ values (suc p) s.deque ≡ count_up 0 (puts s (suc p)) =
        sym (values-append (suc p) s.consumed s.deque)
        ∙ ap (values (suc p)) (sym (Reach-Inv K m program r).fifo)
        ∙ Reach-Numbered p r in
      (
        prefix-count_up (values (suc p) s.consumed) (values (suc p) s.deque) 0 (puts s (suc p)) all,
        all,
      )
