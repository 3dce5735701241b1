-- ===== src/Refresh/Permits.antt =====
-- How many refreshes run at once, whatever the order of refreshes and of changes of the limit.
use unified_api.Refresh.Limits.{Coordinator, Semaphore, at_least_one, pay_debt, resize}
use unified_api.Prelude.{
  Bool-cases, arith, inl, inr, leb, ltb, min, some, suc, ℕ, ◌+◌, ◌-◌, ◌<◌, ◌≡◌, ◌≤◌, ◌⊎◌,
}

module _ (semaphore : Semaphore) where
  open semaphore use {State, available, take, release}

  -- The coordinator, and how many permits are out.
  pub record Running : Type 0 where
    pub coordinator : Coordinator semaphore
    pub held : ℕ

  pub data Step : Running → Running → Type 0 where
    resizes :
        (max_concurrent timeout_seconds : ℕ) (r : Running)
        → Step r (record r {
          coordinator = resize semaphore max_concurrent timeout_seconds r.coordinator;
        })
    pays : (r : Running) → Step r (record r { coordinator = pay_debt semaphore r.coordinator })
    takes :
        (r : Running) (s : State)
        → take r.coordinator.limiter ≡ some s
        → Step r
            (record r { coordinator = record r.coordinator { limiter = s }; held = r.held + 1 })
    releases :
        (r : Running) (n : ℕ)
        → r.held ≡ suc n
        → Step r (record r {
          coordinator = record r.coordinator { limiter = release r.coordinator.limiter };
          held = n;
        })

  pub data Reach (r : Running) : Running → Type 0 where
    here : Reach r r
    next : {t u : Running} → Reach r t → Step t u → Reach r u

  -- `RefreshCoordinator::new`, on a semaphore of that many permits
  unfoldable pub new : ℕ → ℕ → State → Running
  new max_concurrent timeout_seconds limiter = record {
    coordinator = record {
      limiter = limiter;
      capacity = at_least_one semaphore max_concurrent;
      shrink_debt = 0;
      budget_seconds = timeout_seconds;
    };
    held = 0;
  }

  record Balanced (r : Running) : Type 0 where
    pub permits :
        available r.coordinator.limiter + r.held
        ≡ r.coordinator.capacity + r.coordinator.shrink_debt
    pub some_capacity : 0 < r.coordinator.capacity

  Balanced-resize :
      (n t : ℕ) (r : Running)
      → Balanced r
      → Balanced (record r { coordinator = resize semaphore n t r.coordinator })
  unfolding resize
  Balanced-resize n t r b =
      let c = r.coordinator in
      let target : ℕ = at_least_one semaphore n in
      let one : 0 < target = ground arith in
      let grow : ℕ = target - c.capacity in
      let shrink : ℕ = c.capacity - target in
      elim (Bool-cases (leb c.capacity target)) [
        | inl e ↦
            let le : c.capacity ≤ target = ground (arith, e) in
            rw e (record {
              permits = omega (
                arith,
                le,
                b.permits,
                semaphore.available-add (grow - min grow c.shrink_debt) c.limiter,
              );
              some_capacity = one;
            })
        | inr e ↦
            let gt : target < c.capacity = ground (arith, e) in
            rw e (record {
              permits = omega (
                arith,
                gt,
                b.permits,
                semaphore.forgotten shrink c.limiter,
                semaphore.available-forget shrink c.limiter,
              );
              some_capacity = one;
            })
      ]

  Balanced-pay :
      (r : Running)
      → Balanced r
      → Balanced (record r { coordinator = pay_debt semaphore r.coordinator })
  unfolding pay_debt
  Balanced-pay r b =
      let c = r.coordinator in
      elim (Bool-cases (ltb 0 c.shrink_debt)) [
        | inl e ↦ rw e (record {
          permits = omega (
            arith,
            b.permits,
            semaphore.forgotten c.shrink_debt c.limiter,
            semaphore.available-forget c.shrink_debt c.limiter,
          );
          some_capacity = b.some_capacity;
        })
        | inr e ↦ rw e b
      ]

  Balanced-Step : {r s : Running} → Step r s → Balanced r → Balanced s
  Balanced-Step (resizes n t r) b = Balanced-resize n t r b
  Balanced-Step (pays r) b = Balanced-pay r b
  Balanced-Step (takes r s e) b = record {
    permits = omega (arith, b.permits, semaphore.available-take r.coordinator.limiter s e);
    some_capacity = b.some_capacity;
  }
  Balanced-Step (releases r n e) b = record {
    permits = omega (arith, e, b.permits, semaphore.available-release r.coordinator.limiter);
    some_capacity = b.some_capacity;
  }

  Balanced-Reach : {r s : Running} → Reach r s → Balanced r → Balanced s
  Balanced-Reach here b = b
  Balanced-Reach (next reach step) b = Balanced-Step step (Balanced-Reach reach b)

  Balanced-new :
      (max_concurrent timeout_seconds : ℕ) (limiter : State)
      → available limiter ≡ at_least_one semaphore max_concurrent
      → Balanced (new max_concurrent timeout_seconds limiter)
  unfolding new
  Balanced-new n t limiter e = record { permits = omega (arith, e); some_capacity = ground arith }

  -- From a semaphore of as many permits as the limit, which is one at least, any sequence of
  -- refreshes that begin and end, and of changes of the limit, keeps the permits in balance: those
  -- that are free and those that are out make up the limit and what a smaller limit still owes. So
  -- no more refreshes run than that, and once a beginning refresh has paid, what is still owed is
  -- nothing, or no permit is free.
  pub permits_balance :
      (max_concurrent timeout_seconds : ℕ) (limiter : State) (r : Running)
      → available limiter ≡ at_least_one semaphore max_concurrent
      → Reach (new max_concurrent timeout_seconds limiter) r
      → (available r.coordinator.limiter + r.held
          ≡ r.coordinator.capacity + r.coordinator.shrink_debt)
        × (0 < r.coordinator.capacity)
        × (((pay_debt semaphore r.coordinator).shrink_debt ≡ 0)
            ⊎ (available (pay_debt semaphore r.coordinator).limiter ≡ 0))
  unfolding pay_debt
  permits_balance n t limiter r fits reach =
      let b = Balanced-Reach reach (Balanced-new n t limiter fits) in
      let c = r.coordinator in
      (
        b.permits,
        b.some_capacity,
        elim (Bool-cases (ltb 0 c.shrink_debt)) [
          | inr e ↦ inl (rw e (ground (arith, e)))
          | inl e ↦ rw e (elim (Bool-cases (leb c.shrink_debt (available c.limiter))) [
            | inl f ↦ inl (ground (arith, f, semaphore.forgotten c.shrink_debt c.limiter))
            | inr f ↦ inr (
                ground (
                  arith,
                  f,
                  semaphore.forgotten c.shrink_debt c.limiter,
                  semaphore.available-forget c.shrink_debt c.limiter,
                ))
          ])
        ],
      )
