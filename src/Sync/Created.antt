-- ===== src/Sync/Created.antt =====
-- The entry that a sync of named hosts has to create.
use mathlib.Core.Option
use unified_api.MemoryCache
use unified_api.HashMap
use unified_api.HashMap.{HashMap}
use unified_api.CacheEntry.Freshness.{update_host_aged_age}
use unified_api.CacheEntry.Hosts.{update_host_aged}
use unified_api.CacheEntry.{
  CacheEntry, Env, as_secs, from_secs, host_age_seconds, mark_partial, new,
}
use unified_api.Sync.Apply.{HostUpdate, backdate, reported_age, updates_of, write_hosts}
use unified_api.Sync.Scoped.{answered, hostvars-update}
use unified_api.Sync.{ConnectorOutput}
use unified_api.Source.{Source}
use unified_api.MemoryCache.{MemoryCache}
use unified_api.MemoryCache.Atomic.{get-merge_absent, get-update_self}
use unified_api.Prelude.{
  List, Option-cases, String, [], ap, arith, contains, eq_iff, false, if◌then◌else◌, inl, inr,
  is_empty, leb, none, refl, some, ℕ, ◌+◌, ◌-◌, ◌∙◌, ◌∷◌, ◌≡◌, ◌≤◌,
}

module _ (env : Env) (t : ℕ) (x : String) (output : ConnectorOutput) (later : env.now ≤ t) where
  -- `backdate` leaves all variables, and gives the hosts that came the ages they came with
  backdate_lem :
      (hosts : List String) (e : CacheEntry)
      → ((y : String) → HashMap.get y e.dataset.hostvars ≡ HashMap.get y output.dataset.hostvars)
      → (HashMap.get x (backdate env (updates_of output hosts) e).dataset.hostvars
          ≡ HashMap.get x output.dataset.hostvars)
        × (host_age_seconds t (backdate env (updates_of output hosts) e) x ≡ (
            if answered output hosts x
            then some (
                (if leb (from_secs (reported_age output.ages x)) env.now
                  then reported_age output.ages x
                  else 0)
                + as_secs (t - env.now))
            else host_age_seconds t e x))
  unfolding backdate updates_of contains
  backdate_lem [] e same = (same x, refl)
  backdate_lem (h ∷ hosts) e same = elim (Option-cases (HashMap.get h output.dataset.hostvars)) [
    | inl gone ↦
        let (vars, age) = backdate_lem hosts e same in
        rw (gone, updates_of) (vars, age ∙ ground (arith, gone, eq_iff h x))
    | inr (v, came) ↦
        let here = same h ∙ came in
        let written = update_host_aged env h v (reported_age output.ages h) e in
        let (vars, age) = backdate_lem hosts written (λ y.
          hostvars-update env h y v (reported_age output.ages h) e
          ∙ ground (arith, same y, came, eq_iff h y)) in
        rw (came, updates_of)
          (rw (here, backdate)
            (
              vars,
              age
                  ∙ rw (update_host_aged_age env h x v (reported_age output.ages h) t e later)
                      (ground (arith, came, eq_iff h x)),
            ))
  ]

groups-backdate :
    (env : Env) (us : List HostUpdate) (e : CacheEntry)
    → (backdate env us e).dataset.groups ≡ e.dataset.groups
unfolding backdate update_host_aged
groups-backdate env [] e = refl
groups-backdate env (u ∷ us) e = elim (Option-cases (HashMap.get u.hostname e.dataset.hostvars)) [
  | inl f ↦ rw (f, backdate) (groups-backdate env us e)
  | inr (v, f) ↦
      rw (f, backdate) (groups-backdate env us (update_host_aged env u.hostname v u.age e))
]

-- A sync of named hosts, some of which came, into a cache that has no entry for the source, creates
-- one that is not complete and has the variables and groups that came. A host that was asked for and
-- came has, at every later time, the age that the connector reported (zero if it reports none, or one
-- that the clock cannot represent) and the time since; any other reads as in a new entry.
pub created_lem :
    (env after : Env) (id : String) (source : Source) (hosts : List String)
    (output : ConnectorOutput) (c : MemoryCache) (x : String) (t : ℕ)
    → MemoryCache.get id c ≡ none
    → is_empty (updates_of output hosts) ≡ false
    → after.now ≤ t
    → (e : CacheEntry) × (MemoryCache.get id (write_hosts env after id source hosts output c)
        ≡ some e)
      × (e.complete ≡ false)
      × (HashMap.get x e.dataset.hostvars ≡ HashMap.get x output.dataset.hostvars)
      × (e.dataset.groups ≡ output.dataset.groups)
      × (host_age_seconds t e x ≡ (
          if answered output hosts x
          then some (
              (if leb (from_secs (reported_age output.ages x)) after.now
                then reported_age output.ages x
                else 0)
              + as_secs (t - after.now))
          else host_age_seconds t (new env output.dataset source.ttl_seconds) x))
unfolding write_hosts mark_partial new host_age_seconds
created_lem env after id source hosts output c x t gone some_came later =
    let fresh = new env output.dataset source.ttl_seconds in
    let (vars, age) = backdate_lem after t x output later hosts fresh (λ y. refl) in
    (
      mark_partial (backdate after (updates_of output hosts) fresh),
      rw (some_came, gone)
          (get-update_self id _ _
            ∙ ap
                (Option.map
                  (λ entry. mark_partial (backdate after (updates_of output hosts) entry)))
                (get-merge_absent id c env output.dataset source.ttl_seconds _ gone)),
      refl,
      vars,
      groups-backdate after (updates_of output hosts) fresh,
      age,
    )
