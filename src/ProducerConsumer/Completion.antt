-- ===== src/ProducerConsumer/Completion.antt =====
-- A call of put() or take() on the queue of ProducerConsumer.ino that is not blocked can be completed.
use roo_threads.Base.{
  ℕ, suc, ◌≡◌, refl, ◌≢◌, ◌∙◌, inl, inr, false, List, [], ◌∷◌, none, arith, Bool-cases,
}
use roo_threads.Base.Runs.{Run, here, next, Run-append}
use roo_threads.Kernel.{TaskNotify}
use roo_threads.ProducerConsumer.{
  Item, Call, put, take, blocks, Pc, idle, testing, must_wait, waiting, woken, relocked, may_act,
  acted, told, aborted, undefined, System, Step, current, locks, finds_free, wakes, relocks,
  returns, appends, removes, notifies, unlocks, Reach,
}
use roo_threads.ProducerConsumer.Invariant.{has_mutex}
use roo_threads.ProducerConsumer.Invariant.Reachable.{Reach-Inv}
use roo_threads.ProducerConsumer.Wakeup.{no_mutex, IsHeldUp-blocks}

module _ (K : TaskNotify) (m : ℕ) (script : ℕ → ℕ → Call) where
  open K use {pending, pending-receive}

  -- A state that steps of thread `i` alone lead to, where it has completed its call, and no other thread
  -- has moved.
  pub record Completed (s : System K) (i : ℕ) (t : System K) : Type 0 where
    pub run : Run (Step K m script i) s t
    pub returned : t.calls i ≡ suc (s.calls i)
    pub free : t.owner ≡ none
    pub kept : (k : ℕ) → k ≢ i → t.pc k ≡ s.pc k

  abbrev pub Completes : System K → ℕ → Type 0
  Completes s i = (t : System K) × Completed s i t

  -- What completes the call from a later state completes it.
  earlier :
      (s u : System K) (i : ℕ)
      → Run (Step K m script i) s u
      → u.calls i ≡ s.calls i
      → ((k : ℕ) → k ≢ i → u.pc k ≡ s.pc k)
      → Completes u i
      → Completes s i
  earlier s u i r c p (t, done) = (
    t,
    record {
      run = Run-append (Step K m script i) r done.run;
      returned = ground (arith, done.returned);
      free = done.free;
      kept = λ k ne. done.kept k ne ∙ p k ne;
    },
  )

  from_acted : (s : System K) (i : ℕ) → s.pc i ≡ acted → Completes s i
  from_acted s i e = (
    _,
    record {
      run = next (next here (notifies e)) (unlocks (ground arith));
      returned = ground arith;
      free = refl;
      kept = λ k ne. ground arith;
    },
  )

  from_may_act :
      (s : System K) (i : ℕ) (c : Call) (q : List Item)
      → s.pc i ≡ may_act
      → current K m script s i ≡ c
      → s.deque ≡ q
      → blocks m q c ≡ false
      → Completes s i
  from_may_act s i (put item) q e c d b =
      earlier s _ i (next here (appends item e c)) refl (λ k ne. ground arith)
        (from_acted _ i (ground arith))
  from_may_act s i take [] e c d b = absurd (cc)
  from_may_act s i take (x ∷ xs) e c d b =
      earlier s _ i (next here (removes x xs e c d)) refl (λ k ne. ground arith)
        (from_acted _ i (ground arith))

  from_testing :
      (s : System K) (i : ℕ)
      → s.pc i ≡ testing
      → blocks m s.deque (current K m script s i) ≡ false
      → Completes s i
  from_testing s i e b =
      earlier s _ i (next here (finds_free e b)) refl (λ k ne. ground arith)
        (from_may_act _ i (current K m script s i) s.deque (ground arith) refl refl b)

  from_woken :
      (s : System K) (i : ℕ)
      → s.owner ≡ none
      → s.pc i ≡ woken
      → blocks m s.deque (current K m script s i) ≡ false
      → Completes s i
  from_woken s i o e b =
      earlier s _ i (next (next here (relocks e o)) (returns (ground arith))) refl
        (λ k ne. ground arith) (from_testing _ i (ground arith) b)

  from_pc :
      (s : System K) (i : ℕ) (p : Pc)
      → Reach K m script s
      → s.owner ≡ none
      → s.pc i ≡ p
      → p ≢ aborted
      → p ≢ undefined
      → has_mutex p ≡ false
      → blocks m s.deque (current K m script s i) ≡ false
      → Completes s i
  from_pc s i idle r o e na nu h b =
      earlier s _ i (next here (locks e o)) refl (λ k ne. ground arith)
        (from_testing _ i (ground arith) b)
  from_pc s i waiting r o e na nu h b = elim (Bool-cases (pending s.kernel i)) [
    | inl p ↦
        earlier s _ i (next here (wakes e p)) refl (λ k ne. ground arith)
          (from_woken _ i o (ground arith) b)
    | inr p ↦
        absurd (ground (arith, IsHeldUp-blocks K m script i (Reach-Inv K m script r) o (e, p)))
  ]
  from_pc s i woken r o e na nu h b = from_woken s i o e b
  from_pc s i aborted r o e na nu h b = absurd (na refl)
  from_pc s i undefined r o e na nu h b = absurd (nu refl)
  from_pc s i testing r o e na nu h b = cc
  from_pc s i must_wait r o e na nu h b = cc
  from_pc s i relocked r o e na nu h b = cc
  from_pc s i may_act r o e na nu h b = cc
  from_pc s i acted r o e na nu h b = cc
  from_pc s i told r o e na nu h b = cc

  -- In a reachable state where nobody has the mutex, every thread that has not failed its assertion, wherever it is
  -- in or before a call of put() or take(), also asleep in a wait, can complete this call by a run of its own
  -- steps from this state, with no step of any other thread, if the deque is not full for a put() and not empty for a take().
  pub call-Completes :
      {s : System K} (i : ℕ)
      → Reach K m script s
      → s.owner ≡ none
      → s.pc i ≢ aborted
      → blocks m s.deque (current K m script s i) ≡ false
      → Completes s i
  call-Completes {s} i r o na b =
      let inv = Reach-Inv K m script r in
      from_pc s i (s.pc i) r o refl na (inv.defined i) (no_mutex K m script i inv o) b
