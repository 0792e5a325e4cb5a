-- ===== src/Semaphore/System/Section.antt =====
-- How many threads a counting semaphore lets into a section.
mod Tests
use roo_threads.Base.{ℕ, ◌+◌, ◌≡◌, ◌<◌, ◌≤◌, ◌↔◌, true, false, arith, Bool-cases, inl, inr}
use roo_threads.Base.Family.{total, total-update, total-eq-zero}
use roo_threads.Kernel.{TokenKernel}
use roo_threads.Semaphore.System.{
  Pc, outside, inside, System, Step, acquires, fails, releases, Reach, start, later,
}

abbrev pub is_inside : Pc → ℕ
is_inside outside = 0
is_inside inside = 1

module _ (K : TokenKernel) where
  open K use {count, most, take, give, count-create, count-take, take_empty, count-give}

  abbrev pub entered : ℕ → System K → ℕ
  entered n s = total is_inside n s.pc

  Reach-most : {n desired : ℕ} {s : System K} → Reach K n desired s → desired ≤ most
  Reach-most (start pc h o) = h
  Reach-most (later r step) = Reach-most r

  Step-count :
      {n : ℕ} {s t : System K} (desired : ℕ)
      → desired ≤ most
      → Step K n s t
      → count s.sem + entered n s ≡ desired
      → count t.sem + entered n t ≡ desired
  Step-count {n} {s} desired h (acquires i lt o e) q =
      ground (arith, total-update is_inside s.pc n i inside lt, count-take s.sem)
  Step-count {n} {s} desired h (fails i lt o) q = q
  Step-count {n} {s} desired h (releases i lt o) q =
      ground (arith, total-update is_inside s.pc n i outside lt, count-give s.sem)

  Reach-count :
      {n desired : ℕ} {s : System K} → Reach K n desired s → count s.sem + entered n s ≡ desired
  Reach-count {n} {desired} (start pc h o) =
      ground (arith, count-create desired, total-eq-zero is_inside pc n (λ i. ground (arith, o i)))
  Reach-count {n} {desired} (later r step) = Step-count desired (Reach-most r) step (Reach-count r)

  -- In a reachable state of threads that enter a section by acquiring one token, and give it back when they leave: at
  -- most as many are inside as the semaphore was made with tokens, each of the other tokens is in
  -- the semaphore, and an attempt to acquire succeeds exactly if fewer are inside.
  pub entered_lem :
      {n desired : ℕ} {s : System K}
      → Reach K n desired s
      → (entered n s ≤ desired)
        × (count s.sem + entered n s ≡ desired)
        × (((take s.sem).1 ≡ true) ↔ (entered n s < desired))
  entered_lem {n} {desired} {s} r =
      let q = Reach-count r in
      (
        omega arith,
        q,
        (
          (λ e. omega (arith, count-take s.sem e)),
          λ lt. elim (Bool-cases (take s.sem).1) [
            | inl e ↦ e
            | inr e ↦ absurd (omega (arith, take_empty s.sem e))
          ],
        ),
      )
