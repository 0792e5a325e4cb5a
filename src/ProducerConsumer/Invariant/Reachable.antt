-- ===== src/ProducerConsumer/Invariant/Reachable.antt =====
-- The invariant of the threads around one queue, with its order and its bound, in every reachable state.
use roo_threads.Base.{ℕ, ◌≤◌, ◌≡◌, ◌∙◌, [], ◌∷◌, ◌++◌, length, length-append, arith}
use mathlib.Core.List.{append_assoc}
use roo_threads.Kernel.{TaskNotify}
use roo_threads.ProducerConsumer.{
  Call, System, Step, appends, removes, IsInit, new, Reach, start, later,
}
use roo_threads.ProducerConsumer.Invariant.{
  Inv, Step-owned, Step-known, Step-blocked, Step-free, Step-defined,
}
use roo_threads.ProducerConsumer.Invariant.Waiting.{Step-Registered, Step-Awake}

module _ (K : TaskNotify) (m : ℕ) (script : ℕ → ℕ → Call) where
  Step-bounded :
      (j : ℕ) {s t : System K} → Step K m script j s t → Inv K m script s → length t.deque ≤ m
  Step-bounded j {s} (appends x e c) inv =
      ground (arith, inv.free j, inv.bounded, length-append s.deque (x ∷ []))
  Step-bounded j {s} (removes x r e c q) inv = ground (arith, inv.bounded)
  Step-bounded j step inv = inv.bounded

  Step-fifo :
      (j : ℕ) {s t : System K}
      → Step K m script j s t
      → Inv K m script s
      → t.published ≡ t.consumed ++ t.deque
  Step-fifo j {s} (appends x e c) inv = simp (inv.fifo, append_assoc)
  Step-fifo j {s} (removes x r e c q) inv = inv.fifo ∙ simp (q, append_assoc)
  Step-fifo j step inv = inv.fifo

  -- Every step keeps the invariant.
  Step-Inv : (j : ℕ) {s t : System K} → Step K m script j s t → Inv K m script s → Inv K m script t
  Step-Inv j step inv = record {
    owned = Step-owned K m script j step inv;
    known = Step-known K m script j step inv;
    blocked = Step-blocked K m script j step inv;
    free = Step-free K m script j step inv;
    registered = Step-Registered K m script j step inv;
    awake = Step-Awake K m script j step inv;
    defined = Step-defined K m script j step inv;
    bounded = Step-bounded j step inv;
    fifo = Step-fifo j step inv;
  }

  IsInit-Inv : {s : System K} → IsInit K m script s → Inv K m script s
  IsInit-Inv (new memory d p c e o i) = record {
    owned = λ k h. ground (arith, (i k).0);
    known = λ k h. ground arith;
    blocked = λ k h. ground (arith, (i k).0);
    free = λ k h. ground (arith, (i k).0);
    registered = λ k h. ground (arith, (i k).0);
    awake = λ k h q. absurd (ground (arith, (i k).0));
    defined = λ k h. ground (arith, (i k).0);
    bounded = ground arith;
    fifo = ground arith;
  }

  pub Reach-Inv : {s : System K} → Reach K m script s → Inv K m script s
  Reach-Inv (start init) = IsInit-Inv init
  Reach-Inv (later j r step) = Step-Inv j step (Reach-Inv r)
