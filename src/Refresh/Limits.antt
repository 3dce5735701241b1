-- ===== src/Refresh/Limits.antt =====
-- application/refresh.rs: `RefreshCoordinator`, the limit on refreshes that run at once, which a
-- reload of the configuration changes. The semaphore is tokio's: a parameter, with what its
-- documentation says.
use unified_api.Prelude.{Option, if◌then◌else◌, leb, ltb, min, some, ℕ, ◌+◌, ◌-◌, ◌≡◌}

pub record Semaphore : Type 1 where
  pub State : Type 0
  pub available : State → ℕ
  pub add_permits : ℕ → State → State
  -- the state, and how many permits were there to forget
  pub forget_permits : ℕ → State → State × ℕ
  -- a permit is taken, if one is available, or given back
  pub take : State → Option State
  pub release : State → State
  pub available-add : (n : ℕ) (s : State) → available (add_permits n s) ≡ available s + n
  pub forgotten : (n : ℕ) (s : State) → (forget_permits n s).1 ≡ min n (available s)
  pub available-forget :
      (n : ℕ) (s : State) → available (forget_permits n s).0 + (forget_permits n s).1 ≡ available s
  pub available-take : (s t : State) → take s ≡ some t → available s ≡ available t + 1
  pub available-release : (s : State) → available (release s) ≡ available s + 1

module _ (semaphore : Semaphore) where
  open semaphore use {State, available, add_permits, forget_permits}

  pub record Coordinator : Type 0 where
    pub limiter : State
    pub capacity : ℕ
    pub shrink_debt : ℕ
    pub budget_seconds : ℕ

  -- `max_concurrent.max(1)`
  abbrev pub at_least_one : ℕ → ℕ
  at_least_one n = if ltb n 1 then 1 else n

  unfoldable pub resize : ℕ → ℕ → Coordinator → Coordinator
  resize max_concurrent timeout_seconds c =
      let target = at_least_one max_concurrent in
      let grow = target - c.capacity in
      let cancelled = min grow c.shrink_debt in
      let shrink = c.capacity - target in
      let forgot = forget_permits shrink c.limiter in
      if leb c.capacity target
      then record {
        limiter = add_permits (grow - cancelled) c.limiter;
        capacity = target;
        shrink_debt = c.shrink_debt - cancelled;
        budget_seconds = timeout_seconds;
      }
      else record {
        limiter = forgot.0;
        capacity = target;
        shrink_debt = c.shrink_debt + (shrink - forgot.1);
        budget_seconds = timeout_seconds;
      }

  -- the start of `acquire`: what a smaller limit still owes
  unfoldable pub pay_debt : Coordinator → Coordinator
  pay_debt c =
      let forgot = forget_permits c.shrink_debt c.limiter in
      if ltb 0 c.shrink_debt
      then record c { limiter = forgot.0; shrink_debt = c.shrink_debt - forgot.1 }
      else c
