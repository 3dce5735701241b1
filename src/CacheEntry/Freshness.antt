-- ===== src/CacheEntry/Freshness.antt =====
-- How old an entry and a host read, and when they count as fresh.
use mathlib.Core.Option
use unified_api.HashMap
use unified_api.Prelude.{
  Option, Option-cases, String, arith, distinct, if◌then◌else◌, leb, none, refl, some, true, ℕ, ◌+◌,
  ◌-◌, ◌<◌, ◌==◌, ◌↔◌, ◌≡◌, ◌≤◌,
}
use unified_api.HashMap.{HashMap}
use unified_api.HashMap.Laws.{get-collect, get-insert}
use unified_api.Dataset.{Dataset, HostVars}
use unified_api.CacheEntry.{
  CacheEntry, Env, as_secs, checked_sub, elapsed, from_secs, host_age_seconds, is_fresh,
  is_host_fresh, restore, restored_clock,
}
use unified_api.CacheEntry.Hosts.{backdated, update_host_aged}

-- An instant `a` seconds back reads `a` seconds older than now at every later time.
pub age_of_backdated :
    (now t a : ℕ)
    → now ≤ t
    → from_secs a ≤ now
    → as_secs (elapsed t (backdated now a)) ≡ a + as_secs (t - now)
unfolding from_secs as_secs backdated checked_sub
age_of_backdated now t a later fits = ground arith

-- Where the clock cannot reach back that far, the host counts as gathered now.
pub age_of_unreachable :
    (now t a : ℕ) → now < from_secs a → as_secs (elapsed t (backdated now a)) ≡ as_secs (t - now)
unfolding from_secs as_secs backdated checked_sub
age_of_unreachable now t a h = ground arith

-- From the restart on, a restored entry whose age the clock can represent is fresh exactly while
-- its whole age, from before the restart and since, is below the TTL; one that is older than the
-- clock never is.
pub restore_fresh_iff :
    (env : Env) (d : Dataset) (ttl age t : ℕ) (ages : HashMap ℕ)
    → env.now ≤ t
    → (is_fresh t (restore env d ttl age ages) ≡ true)
      ↔ ((from_secs age ≤ env.now) × (from_secs age + (t - env.now) < from_secs ttl))
unfolding is_fresh restore restored_clock checked_sub
restore_fresh_iff env d ttl age t ages later = ground arith

-- What a snapshot's age for a host, if it has one, reads as at a later time.
abbrev pub restored_age : ℕ → ℕ → Option ℕ → Option ℕ
restored_age now t none = none
restored_age now t (some a) = if leb (from_secs a) now then some (a + as_secs (t - now)) else none

restored_age_lem :
    (now t : ℕ) (o : Option ℕ)
    → now ≤ t
    → Option.map (λ i. as_secs (elapsed t i)) (Option.bind o (λ a. checked_sub now (from_secs a)))
      ≡ restored_age now t o
unfolding checked_sub from_secs as_secs Option.bind
restored_age_lem now t none later = refl
restored_age_lem now t (some a) later = ground arith

-- From a snapshot that names no host twice, a restored host reads its age at the snapshot and the
-- time since the restart; a host older than the clock, or with no age in the snapshot, has no
-- time at all.
pub restore_host_age :
    (env : Env) (d : Dataset) (ttl age t : ℕ) (ages : HashMap ℕ) (h : String)
    → distinct (HashMap.keys ages) ≡ true
    → env.now ≤ t
    → host_age_seconds t (restore env d ttl age ages) h
      ≡ restored_age env.now t (HashMap.get h ages)
unfolding host_age_seconds restore restored_clock
restore_host_age env d ttl age t ages h dist later =
    rw (get-collect (λ a. checked_sub env.now (from_secs a)) h ages dist)
      (restored_age_lem env.now t (HashMap.get h ages) later)

-- At every later time, a host written with an age reads that age and the time since, if the clock
-- can represent it, and only the time since otherwise; the age of every other host is as before.
pub update_host_aged_age :
    (env : Env) (h x : String) (vars : HostVars) (a t : ℕ) (e : CacheEntry)
    → env.now ≤ t
    → host_age_seconds t (update_host_aged env h vars a e) x ≡ (
        if h == x
        then some ((if leb (from_secs a) env.now then a else 0) + as_secs (t - env.now))
        else host_age_seconds t e x)
unfolding host_age_seconds update_host_aged
update_host_aged_age env h x vars a t e later =
    rw (get-insert x h (backdated env.now a) e.host_timestamps)
      (ground (arith, age_of_backdated env.now t a, age_of_unreachable env.now t a))

-- Time alone never makes a host fresh: one that is fresh later was fresh before.
pub host_fresh_antitone :
    (e : CacheEntry) (h : String) (o : Option ℕ) (s t : ℕ)
    → s ≤ t
    → is_host_fresh t e h o ≡ true
    → is_host_fresh s e h o ≡ true
unfolding is_host_fresh
host_fresh_antitone e h o s t le f = ground (arith, Option-cases (HashMap.get h e.host_timestamps))
