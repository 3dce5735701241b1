-- ===== src/CacheEntry/Retention.antt =====
-- A host that is captured before a replace and put back after it.
use unified_api.HashMap
use unified_api.HashMap.Laws.{get-insert}
use unified_api.CacheEntry.Membership.{contains-groups_of, in_group-join_groups, is_member}
use unified_api.CacheEntry.Freshness.{update_host_aged_age}
use unified_api.Prelude.{
  Option-cases, String, arith, contains, distinct, eq_iff, if◌then◌else◌, leb, some, true,
  unwrap_or, ℕ, ◌&&◌, ◌+◌, ◌-◌, ◌==◌, ◌||◌, ◌≡◌, ◌≤◌,
}
use unified_api.HashMap.{HashMap}
use unified_api.CacheEntry.{CacheEntry, Env, as_secs, from_secs, host_age_seconds}
use unified_api.CacheEntry.Hosts.{
  RetainedHost, capture_host, groups_of, restore_host, update_host_aged,
}

module _ (env : Env) (r : RetainedHost) (e : CacheEntry) where
  hostvars-restore_host :
      (x : String)
      → HashMap.get x (restore_host env r e).dataset.hostvars
        ≡ (if r.hostname == x then some r.vars else HashMap.get x e.dataset.hostvars)
  unfolding restore_host update_host_aged
  hostvars-restore_host x = get-insert x r.hostname r.vars e.dataset.hostvars

  age-restore_host :
      (t : ℕ) (x : String)
      → env.now ≤ t
      → host_age_seconds t (restore_host env r e) x ≡ (
          if r.hostname == x
          then some (
              (if leb (from_secs r.age_seconds) env.now then r.age_seconds else 0)
              + as_secs (t - env.now))
          else host_age_seconds t e x)
  unfolding restore_host host_age_seconds
  age-restore_host t x later =
      unfold host_age_seconds in
      update_host_aged_age env r.hostname x r.vars r.age_seconds t e later

  member-restore_host :
      (x g : String)
      → is_member x g (restore_host env r e)
        ≡ (r.hostname == x && contains g r.groups || is_member x g e)
  unfolding restore_host update_host_aged
  member-restore_host x g = in_group-join_groups r.hostname x g r.groups e.dataset.groups

-- The age of a captured host is one that the clock can represent.
age_fits :
    (now : ℕ) (h : String) (e : CacheEntry)
    → from_secs (unwrap_or (host_age_seconds now e h) 0) ≤ now
unfolding host_age_seconds from_secs as_secs
age_fits now h e = ground (arith, Option-cases (HashMap.get h e.host_timestamps))

pub captured :
    (now : ℕ) (h : String) (e : CacheEntry) (r : RetainedHost)
    → capture_host now h e ≡ some r
    → (r.hostname ≡ h)
      × (HashMap.get h e.dataset.hostvars ≡ some r.vars)
      × (r.age_seconds ≡ unwrap_or (host_age_seconds now e h) 0)
      × (r.groups ≡ groups_of h e.dataset.groups)
unfolding capture_host
captured now h e r p = ground arith

-- A host captured from an entry that names no group twice, and put back into whatever entry at or
-- after the time of the capture, has the variables that it had; at every later time it reads the
-- age it had at the capture and the time since it was put back; it is again in every group it was
-- in, beside the groups of the entry; and no other host's variables, age or membership changes.
pub capture-restore :
    (env : Env) (now t : ℕ) (h : String) (old e : CacheEntry) (r : RetainedHost) (x g : String)
    → capture_host now h old ≡ some r
    → distinct (HashMap.keys old.dataset.groups) ≡ true
    → now ≤ env.now
    → env.now ≤ t
    → (HashMap.get x (restore_host env r e).dataset.hostvars
        ≡ HashMap.get x (if h == x then old else e).dataset.hostvars)
      × (host_age_seconds t (restore_host env r e) x ≡ (
          if h == x
          then some (unwrap_or (host_age_seconds now old h) 0 + as_secs (t - env.now))
          else host_age_seconds t e x))
      × (is_member x g (restore_host env r e) ≡ (h == x && is_member h g old || is_member x g e))
capture-restore env now t h old e r x g p dist before later =
    let (name, vars, age, groups) = captured now h old r p in
    (
      ground (arith, hostvars-restore_host env r e x, eq_iff h x),
      ground (arith, age-restore_host env r e t x later, age_fits now h old),
      ground
          (arith, member-restore_host env r e x g, contains-groups_of h g old.dataset.groups dist),
    )
