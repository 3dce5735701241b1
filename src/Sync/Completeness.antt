-- ===== src/Sync/Completeness.antt =====
-- Which entries a sync writes, and whether the entry of its source counts as complete.
use mathlib.Core.Option
use unified_api.HashMap.{contains_key}
use unified_api.CacheEntry.Hosts.{RetainedHost, restore_host, update_host_aged}
use unified_api.CacheEntry.Groups.{set_host_groups, update_group}
use unified_api.CacheEntry.Merge.{merge_group_var_fields}
use unified_api.CacheEntry.{
  CacheEntry, Env, is_complete, mark_gathered, mark_partial, new, restore, set_ttl,
}
use unified_api.Sync.Apply.{
  HostUpdate, apply_hosts, apply_memberships, apply_to_cache, apply_updates, backdate,
  gathered_entry, restore_hosts, updates_of, write_full, write_group, write_hosts,
}
use unified_api.Dataset.{Dataset}
use unified_api.MemoryCache.Atomic.{
  get-merge_absent, get-merge_other, get-merge_there, get-set_other, get-set_self, get-update_other,
  get-update_self,
}
use unified_api.Source.{Source, SyncMode}
use unified_api.Sync.{ConnectorOutput, DatasetAges, SyncScope, full, of_group, of_hosts}
use unified_api.MemoryCache
use unified_api.MemoryCache.{MemoryCache}
use unified_api.Prelude.{
  Bool, Bool-cases, List, Option, Option-cases, String, [], ap, false, if◌then◌else◌, inl, inr,
  is_empty, none, refl, some, true, ℕ, ◌==◌, ◌∙◌, ◌∷◌, ◌≡◌, ◌⊎◌,
}

complete-apply_updates :
    (env : Env) (us : List HostUpdate) (e : CacheEntry)
    → (apply_updates env us e).complete ≡ e.complete
unfolding apply_updates update_host_aged
complete-apply_updates env [] e = refl
complete-apply_updates env (u ∷ us) e =
    complete-apply_updates env us (update_host_aged env u.hostname u.vars u.age e)

complete-apply_memberships :
    (env : Env) (ms : List (String × List String)) (e : CacheEntry)
    → (apply_memberships env ms e).complete ≡ e.complete
unfolding apply_memberships set_host_groups
complete-apply_memberships env [] e = refl
complete-apply_memberships env ((h, ns) ∷ ms) e =
    complete-apply_memberships env ms (set_host_groups env h ns e)

complete-apply_hosts :
    (env : Env) (us : List HostUpdate) (ms : List (String × List String)) (o : Option Dataset)
    (e : CacheEntry)
    → (apply_hosts env us ms o e).complete ≡ e.complete
unfolding apply_hosts merge_group_var_fields
complete-apply_hosts env us ms none e =
    complete-apply_memberships env ms (apply_updates env us e) ∙ complete-apply_updates env us e
complete-apply_hosts env us ms (some d) e =
    complete-apply_memberships env ms (apply_updates env us e) ∙ complete-apply_updates env us e

complete-restore_hosts :
    (env : Env) (rs : List RetainedHost) (e : CacheEntry)
    → (restore_hosts env rs e).complete ≡ e.complete
unfolding restore_hosts restore_host update_host_aged
complete-restore_hosts env [] e = refl
complete-restore_hosts env (r ∷ rs) e = complete-restore_hosts env rs (restore_host env r e)

complete-gathered_entry :
    (env : Env) (ttl : ℕ) (ages : Option DatasetAges) (d : Dataset)
    → (gathered_entry env ttl ages d).complete ≡ true
unfolding gathered_entry new restore
complete-gathered_entry env ttl none d = refl
complete-gathered_entry env ttl (some a) d = refl

-- Whether the entry is complete after a sync that wrote, from what was there before.
abbrev pub complete_after : SyncScope → Option CacheEntry → Bool
complete_after full before = true
complete_after _ none = false
complete_after _ (some e) = e.complete

-- Has the connector's answer nothing for this scope?
abbrev pub brings_nothing : SyncScope → ConnectorOutput → Bool
brings_nothing full output = false
brings_nothing (of_hosts names) output = is_empty (updates_of output names)
brings_nothing (of_group name) output = false

mode_cases : (m : SyncMode) → (m ≡ SyncMode.replace) ⊎ (m ≡ SyncMode.merge)
mode_cases SyncMode.replace = inl refl
mode_cases SyncMode.merge = inr refl

full_complete :
    (env : Env) (id : String) (source : Source) (output : ConnectorOutput) (c : MemoryCache)
    → Option.map is_complete (MemoryCache.get id (write_full env id source output c)) ≡ some true
unfolding write_full new mark_gathered
full_complete env id source output c = elim (mode_cases source.sync_mode) [
  | inl m ↦ elim (Bool-cases (is_empty output.unreachable)) [
    | inl e ↦
        rw (m, e)
          (ap (Option.map is_complete) (get-set_self id c _)
            ∙ ap some (complete-gathered_entry env source.ttl_seconds output.ages output.dataset))
    | inr e ↦
        rw (m, e)
          (elim (Option-cases (MemoryCache.get id c)) [
            | inl gone ↦
                ap (Option.map is_complete)
                  (get-merge_absent id c env output.dataset source.ttl_seconds _ gone)
            | inr (old, there) ↦
                ap (Option.map is_complete)
                  (get-merge_there id c env output.dataset source.ttl_seconds _ old there)
                ∙ ap some (
                    complete-restore_hosts env _ _
                    ∙ complete-gathered_entry env source.ttl_seconds output.ages output.dataset)
          ])
  ]
  | inr m ↦ rw m (elim (Option-cases (MemoryCache.get id c)) [
    | inl gone ↦
        ap (Option.map is_complete)
          (get-merge_absent id c env output.dataset source.ttl_seconds _ gone)
    | inr (old, there) ↦
        ap (Option.map is_complete)
          (get-merge_there id c env output.dataset source.ttl_seconds _ old there)
  ])
]

group_complete :
    (env : Env) (id : String) (source : Source) (name : String) (output : ConnectorOutput)
    (c : MemoryCache)
    → Option.map is_complete (MemoryCache.get id (write_group env id source name output c))
      ≡ some (complete_after (of_group name) (MemoryCache.get id c))
unfolding write_group new mark_partial update_group set_ttl
group_complete env id source name output c = elim (Option-cases (MemoryCache.get id c)) [
  | inl e ↦ rw e (
      ap (Option.map is_complete) (
        get-update_self id _ mark_partial
        ∙ ap (Option.map mark_partial)
            (get-merge_absent id c env output.dataset source.ttl_seconds _ e)))
  | inr (old, e) ↦ rw e (
      ap (Option.map is_complete)
        (get-merge_there id c env output.dataset source.ttl_seconds _ old e))
]

hosts_complete :
    (env after : Env) (id : String) (source : Source) (names : List String)
    (output : ConnectorOutput) (c : MemoryCache)
    → Option.map is_complete (MemoryCache.get id (write_hosts env after id source names output c))
      ≡ (if is_empty (updates_of output names)
          then Option.map is_complete (MemoryCache.get id c)
          else some (complete_after (of_hosts names) (MemoryCache.get id c)))
unfolding write_hosts new mark_partial set_ttl
hosts_complete env after id source names output c =
    elim (Bool-cases (is_empty (updates_of output names))) [
      | inl e ↦ rw e refl
      | inr e ↦ elim (Option-cases (MemoryCache.get id c)) [
        | inl gone ↦
            rw (e, gone)
              (ap (Option.map is_complete) (
                get-update_self id _ _
                ∙ ap
                    (Option.map
                      (λ entry. mark_partial (backdate after (updates_of output names) entry)))
                    (get-merge_absent id c env output.dataset source.ttl_seconds _ gone)))
        | inr (old, there) ↦
            rw (e, there)
              (ap (Option.map is_complete)
                  (get-merge_there id c env output.dataset source.ttl_seconds _ old there)
                ∙ ap some (complete-apply_hosts env _ _ _ (set_ttl source.ttl_seconds old)))
      ]
    ]

untouched :
    (env after : Env) (id j : String) (source : Source) (scope : SyncScope)
    (output : ConnectorOutput) (c : MemoryCache)
    → (id == j) ≡ false
    → MemoryCache.get j (apply_to_cache env after id source scope output c) ≡ MemoryCache.get j c
unfolding apply_to_cache write_full write_hosts write_group
untouched env after id j source full output c other = elim (mode_cases source.sync_mode) [
  | inl m ↦ elim (Bool-cases (is_empty output.unreachable)) [
    | inl e ↦ rw (m, e) (get-set_other id j c other _)
    | inr e ↦ rw (m, e) (get-merge_other id j c other env output.dataset source.ttl_seconds _)
  ]
  | inr m ↦ rw m (get-merge_other id j c other env output.dataset source.ttl_seconds _)
]
untouched env after id j source (of_hosts names) output c other =
    elim (Bool-cases (is_empty (updates_of output names))) [
      | inl e ↦ rw e refl
      | inr e ↦ elim (Bool-cases (contains_key id c.store)) [
        | inl f ↦ rw (e, f) (get-merge_other id j c other env output.dataset source.ttl_seconds _)
        | inr f ↦
            rw (e, f)
              (get-update_other id j _ other _
                ∙ get-merge_other id j c other env output.dataset source.ttl_seconds _)
      ]
    ]
untouched env after id j source (of_group name) output c other =
    elim (Bool-cases (contains_key id c.store)) [
      | inl f ↦ rw f (get-merge_other id j c other env output.dataset source.ttl_seconds _)
      | inr f ↦ rw f (
          get-update_other id j _ other _
          ∙ get-merge_other id j c other env output.dataset source.ttl_seconds _)
    ]

nothing_written :
    (env after : Env) (id : String) (source : Source) (names : List String)
    (output : ConnectorOutput) (c : MemoryCache)
    → (if is_empty (updates_of output names)
        then write_hosts env after id source names output c
        else c)
      ≡ c
unfolding write_hosts
nothing_written env after id source names output c =
    elim (Bool-cases (is_empty (updates_of output names))) [ inl e ↦ rw e refl | inr e ↦ rw e refl ]

-- A sync writes no entry but its source's. A full sync leaves that entry complete, whatever its mode
-- and whatever was there; a sync of hosts or of a group leaves an entry that was there as complete as
-- it was, and one that it creates incomplete; a sync of hosts none of which came leaves the cache as
-- it was.
pub apply_to_cache_lem :
    (env after : Env) (id j : String) (source : Source) (scope : SyncScope)
    (output : ConnectorOutput) (c : MemoryCache)
    → (id == j) ≡ false
    → (Option.map is_complete
          (MemoryCache.get id (apply_to_cache env after id source scope output c))
        ≡ (if brings_nothing scope output
            then Option.map is_complete (MemoryCache.get id c)
            else some (complete_after scope (MemoryCache.get id c))))
      × (MemoryCache.get j (apply_to_cache env after id source scope output c)
          ≡ MemoryCache.get j c)
      × ((if brings_nothing scope output
            then apply_to_cache env after id source scope output c
            else c)
          ≡ c)
unfolding apply_to_cache
apply_to_cache_lem env after id j source full output c other = (
  full_complete env id source output c,
  untouched env after id j source full output c other,
  refl,
)
apply_to_cache_lem env after id j source (of_hosts names) output c other = (
  hosts_complete env after id source names output c,
  untouched env after id j source (of_hosts names) output c other,
  nothing_written env after id source names output c,
)
apply_to_cache_lem env after id j source (of_group name) output c other = (
  group_complete env id source name output c,
  untouched env after id j source (of_group name) output c other,
  refl,
)
