-- ===== src/Tests/Permits.antt =====
-- The property of the permits of refreshes, with a semaphore that counts.
use unified_api.Refresh.Limits.{Semaphore, pay_debt, resize}
use unified_api.Refresh.Permits
use unified_api.Refresh.Permits.{Reach, Running, here, next, permits_balance, resizes, takes}
use unified_api.Prelude.{
  Option, arith, min, none, refl, some, suc, zero, ℕ, ◌+◌, ◌-◌, ◌<◌, ◌≡◌, ◌⊎◌,
}

-- A semaphore that is its number of free permits.
abbrev take_one : ℕ → Option ℕ
take_one zero = none
take_one (suc n) = some n

take_one_lem : (s t : ℕ) → take_one s ≡ some t → s ≡ t + 1
take_one_lem zero t e = absurd (ground (arith, e))
take_one_lem (suc n) t e = ground (arith, e)

abbrev counting : Semaphore
counting = record {
  State = ℕ;
  available = λ s. s;
  add_permits = λ n s. s + n;
  forget_permits = λ n s. (s - min n s, min n s);
  take = take_one;
  release = λ s. s + 1;
  available-add = λ n s. refl;
  forgotten = λ n s. refl;
  available-forget = λ n s. omega arith;
  available-take = take_one_lem;
  available-release = λ s. refl;
}

-- Three of four refreshes run, and the limit goes from four to two.
abbrev fresh : Running counting
unfolding Permits.new
fresh = Permits.new counting 4 30 4

abbrev busy : Running counting
unfolding Permits.new
busy = record { coordinator = record fresh.coordinator { limiter = 1 }; held = 3 }

abbrev resized : Running counting
unfolding Permits.new resize
resized = record busy { coordinator = resize counting 2 30 busy.coordinator }

Reach-resized : Reach counting fresh resized
unfolding Permits.new resize
Reach-resized =
    next (next (next (next here (takes fresh 3 refl)) (takes _ 2 refl)) (takes _ 1 refl))
      (resizes 2 30 busy)

permits_balance_example :
    (counting.available resized.coordinator.limiter + resized.held
      ≡ resized.coordinator.capacity + resized.coordinator.shrink_debt)
    × (0 < resized.coordinator.capacity)
    × (((pay_debt counting resized.coordinator).shrink_debt ≡ 0)
        ⊎ (counting.available (pay_debt counting resized.coordinator).limiter ≡ 0))
unfolding Permits.new fresh
permits_balance_example = permits_balance counting 4 30 4 resized refl Reach-resized
