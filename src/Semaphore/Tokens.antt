-- ===== src/Semaphore/Tokens.antt =====
-- How many tokens the semaphores of impl/freertos/semaphore.h hold.
use Prim.Native.Nat.{min}
use roo_threads.Base.{ℕ, zero, suc, ◌+◌, ◌≤◌, ◌≡◌, ◌∙◌, arith}
use roo_threads.Kernel.{SemaphoreKernel}
use roo_threads.Semaphore.{counting_semaphore, binary_semaphore, release}

module _ (K : SemaphoreKernel) where
  open K use {World, count, capacity, count-give, capacity-give}

  -- `release` called `n` times, while nobody acquires.
  pub releases : ℕ → World → World
  releases zero w = w
  releases (suc n) w = releases n (release K w)

  capacity-releases : (n : ℕ) (w : World) → capacity (releases n w) ≡ capacity w
  unfolding releases release
  capacity-releases zero w = ground arith
  capacity-releases (suc n) w = capacity-releases n (release K w) ∙ capacity-give w

  count-releases :
      (n : ℕ) (w : World)
      → count w ≤ capacity w
      → count (releases n w) ≡ min (count w + n) (capacity w)
  unfolding releases release
  count-releases zero w h = omega arith
  count-releases (suc n) w h =
      ground (arith, count-releases n (K.give w).0, count-give w, capacity-give w)

  -- A counting semaphore made with `desired` tokens, at most as many as it may have, and released
  -- `n` times has the sum of both, or its maximum if the sum is more: a `release` beyond the
  -- maximum is lost.
  pub count-counting_semaphore :
      (least_max_value desired n : ℕ) (w : World)
      → desired ≤ least_max_value
      → count (releases n (counting_semaphore K least_max_value desired w))
        ≡ min (desired + n) least_max_value
  unfolding counting_semaphore
  count-counting_semaphore least_max_value desired n w h =
      let s = K.create_counting least_max_value desired w in
      ground (
        arith,
        count-releases n s,
        K.count-create_counting least_max_value desired w,
        K.capacity-create_counting least_max_value desired w,
      )

  -- A binary semaphore has one token or none. It starts with one exactly if any are desired, and has
  -- one after any `release`.
  pub count-binary_semaphore :
      (desired n : ℕ) (w : World)
      → count (releases n (binary_semaphore K desired w)) ≡ min (desired + n) 1
  unfolding binary_semaphore
  count-binary_semaphore desired n w =
      let s = K.create_binary w in
      ground (
        arith,
        count-releases n s,
        count-releases n (K.give s).0,
        K.count-create_binary w,
        K.capacity-create_binary w,
        count-give s,
        capacity-give s,
      )
