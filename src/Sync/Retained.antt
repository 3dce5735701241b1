-- ===== src/Sync/Retained.antt =====
-- What a replacing sync leaves of the hosts that the connector could not reach.
use unified_api.HashMap
use unified_api.HashMap.{HashMap, contains_key}
use unified_api.CacheEntry.Retention.{capture-restore, captured}
use unified_api.CacheEntry.Membership.{in_group, is_member}
use unified_api.CacheEntry.Hosts.{capture_host, restore_host}
use unified_api.CacheEntry.{CacheEntry, Env, as_secs, host_age_seconds, new, restore, set_ttl}
use unified_api.Sync.Apply.{gathered_entry, restore_hosts, retained_hosts, write_full}
use unified_api.Dataset.{Dataset}
use unified_api.MemoryCache.Atomic.{get-merge_there, get-set_self}
use unified_api.Source.{Source, SyncMode}
use unified_api.Sync.{ConnectorOutput, DatasetAges}
use unified_api.MemoryCache
use unified_api.MemoryCache.{MemoryCache}
use unified_api.Prelude.{
  Bool, Bool-cases, List, List-cases, Option, Option-cases, String, [], ap, arith, contains,
  distinct, eq_iff, if◌then◌else◌, inl, inr, is_empty, none, not, refl, some, true, unwrap_or, ℕ,
  ◌&&◌, ◌+◌, ◌-◌, ◌||◌, ◌∙◌, ◌∷◌, ◌≡◌, ◌≤◌,
}

-- Is the host one that keeps its previous state?
abbrev pub keeps : List String → Dataset → CacheEntry → String → Bool
keeps unreachable d old x =
    contains x unreachable && not (contains_key x d.hostvars) && contains_key x old.dataset.hostvars

not_captured :
    (now : ℕ) (h : String) (e : CacheEntry)
    → capture_host now h e ≡ none
    → HashMap.get h e.dataset.hostvars ≡ none
unfolding capture_host
not_captured now h e p = ground (arith, p, Option-cases (HashMap.get h e.dataset.hostvars))

-- What a reader sees of one host at one later time.
record Kept (env : Env) (t : ℕ) (x g : String) (kept : Bool) (old e : CacheEntry) (e' : CacheEntry)
    : Type 0 where
  pub vars_of :
      HashMap.get x e'.dataset.hostvars
      ≡ (if kept then HashMap.get x old.dataset.hostvars else HashMap.get x e.dataset.hostvars)
  pub age_of : host_age_seconds t e' x ≡ (
      if kept
      then some (unwrap_or (host_age_seconds env.now old x) 0 + as_secs (t - env.now))
      else host_age_seconds t e x)
  pub member_of : is_member x g e' ≡ (kept && is_member x g old || is_member x g e)

module _ (env : Env) (t : ℕ) (x g : String) (d : Dataset) (old : CacheEntry)
    (dist : distinct (HashMap.keys old.dataset.groups) ≡ true) (later : env.now ≤ t) where
  restore_hosts_lem :
      (unreachable : List String) (e : CacheEntry)
      → Kept env t x g
          (keeps unreachable d old x)
          old
          e
          (restore_hosts env (retained_hosts env.now unreachable d old) e)
  unfolding restore_hosts retained_hosts contains
  restore_hosts_lem [] e = record { vars_of = refl; age_of = refl; member_of = refl }
  restore_hosts_lem (h ∷ hosts) e = elim (Bool-cases (contains_key h d.hostvars)) [
    | inl came ↦
        let ih = restore_hosts_lem hosts e in
        rw came (record {
          vars_of = ih.vars_of ∙ ground (arith, came, eq_iff h x);
          age_of = ih.age_of ∙ ground (arith, came, eq_iff h x);
          member_of = ih.member_of ∙ ground (arith, came, eq_iff h x);
        })
    | inr missed ↦ elim (Option-cases (capture_host env.now h old)) [
      | inl p ↦
          let ih = restore_hosts_lem hosts e in
          let gone = not_captured env.now h old p in
          rw (missed, p)
            (record {
              vars_of = ih.vars_of ∙ ground (arith, gone, missed, eq_iff h x);
              age_of = ih.age_of ∙ ground (arith, gone, missed, eq_iff h x);
              member_of = ih.member_of ∙ ground (arith, gone, missed, eq_iff h x);
            })
      | inr (r, p) ↦
          let ih = restore_hosts_lem hosts (restore_host env r e) in
          let (vars, age, member) =
            capture-restore env env.now t h old e r x g p dist (omega arith) later in
          let there = (captured env.now h old r p).1 in
          rw (missed, p)
            (record {
              vars_of = ih.vars_of ∙ ground (arith, vars, there, missed, eq_iff h x);
              age_of = ih.age_of ∙ ground (arith, age, there, missed, eq_iff h x);
              member_of = ih.member_of ∙ ground (arith, member, there, missed, eq_iff h x);
            })
    ]
  ]

-- what a replacing sync makes of the entry that is there
abbrev replaced : Env → Source → ConnectorOutput → CacheEntry → CacheEntry
replaced env source output old =
    if is_empty output.unreachable
    then gathered_entry env source.ttl_seconds output.ages output.dataset
    else restore_hosts env
        (retained_hosts env.now output.unreachable output.dataset (set_ttl source.ttl_seconds old))
        (gathered_entry env source.ttl_seconds output.ages output.dataset)

get-write_full :
    (env : Env) (id : String) (source : Source) (output : ConnectorOutput) (c : MemoryCache)
    (old : CacheEntry)
    → source.sync_mode ≡ SyncMode.replace
    → MemoryCache.get id c ≡ some old
    → MemoryCache.get id (write_full env id source output c) ≡ some (replaced env source output old)
unfolding write_full
get-write_full env id source output c old mode there =
    elim (Bool-cases (is_empty output.unreachable)) [
      | inl e ↦ rw (mode, e) (get-set_self id c _)
      | inr e ↦
          rw (mode, e) (get-merge_there id c env output.dataset source.ttl_seconds _ old there)
    ]

dataset-gathered_entry :
    (env : Env) (ttl : ℕ) (ages : Option DatasetAges) (d : Dataset)
    → (gathered_entry env ttl ages d).dataset ≡ d
unfolding gathered_entry new restore
dataset-gathered_entry env ttl none d = refl
dataset-gathered_entry env ttl (some a) d = refl

replaced_lem :
    (env : Env) (t : ℕ) (x g : String) (source : Source) (output : ConnectorOutput)
    (old : CacheEntry)
    → distinct (HashMap.keys old.dataset.groups) ≡ true
    → env.now ≤ t
    → Kept env t x g
        (keeps output.unreachable output.dataset old x)
        old
        (gathered_entry env source.ttl_seconds output.ages output.dataset)
        (replaced env source output old)
unfolding contains set_ttl host_age_seconds
replaced_lem env t x g source output old dist later = elim (List-cases output.unreachable) [
  | inl e ↦ rw e (record { vars_of = refl; age_of = refl; member_of = refl })
  | inr (h, hosts, e) ↦
      let lem =
        restore_hosts_lem env t x g output.dataset (set_ttl source.ttl_seconds old) dist later
          (h ∷ hosts) (gathered_entry env source.ttl_seconds output.ages output.dataset) in
      rw e (record { vars_of = lem.vars_of; age_of = lem.age_of; member_of = lem.member_of })
]

-- A full sync that replaces an entry, which names no group twice, leaves one. A host that the
-- connector could not reach, did not return, and the old entry had, has its old variables, at every
-- later time the age that it had and the time since, and is in every group it was in, beside the
-- groups that came. Every other host has exactly the variables and groups that came, if any, and the
-- age of an entry built from the connector's answer alone.
pub replace_retains :
    (env : Env) (id : String) (source : Source) (output : ConnectorOutput) (c : MemoryCache)
    (old : CacheEntry) (x g : String) (t : ℕ)
    → source.sync_mode ≡ SyncMode.replace
    → MemoryCache.get id c ≡ some old
    → distinct (HashMap.keys old.dataset.groups) ≡ true
    → env.now ≤ t
    → (e : CacheEntry) × (MemoryCache.get id (write_full env id source output c) ≡ some e)
      × (HashMap.get x e.dataset.hostvars ≡ (
          if keeps output.unreachable output.dataset old x
          then HashMap.get x old.dataset.hostvars
          else HashMap.get x output.dataset.hostvars))
      × (host_age_seconds t e x ≡ (
          if keeps output.unreachable output.dataset old x
          then some (unwrap_or (host_age_seconds env.now old x) 0 + as_secs (t - env.now))
          else host_age_seconds t
              (gathered_entry env source.ttl_seconds output.ages output.dataset)
              x))
      × (is_member x g e ≡ (
          keeps output.unreachable output.dataset old x && is_member x g old
          || in_group x g output.dataset.groups))
replace_retains env id source output c old x g t mode there dist later =
    let lem = replaced_lem env t x g source output old dist later in
    let plain = dataset-gathered_entry env source.ttl_seconds output.ages output.dataset in
    (
      replaced env source output old,
      get-write_full env id source output c old mode there,
      lem.vars_of
          ∙ ap
              (λ (d : Dataset).
                if keeps output.unreachable output.dataset old x
                then HashMap.get x old.dataset.hostvars
                else HashMap.get x d.hostvars)
              plain,
      lem.age_of,
      lem.member_of
          ∙ ap
              (λ (d : Dataset).
                keeps output.unreachable output.dataset old x && is_member x g old
                || in_group x g d.groups)
              plain,
    )
