-- ===== src/Enrich/Declared.antt =====
-- What a declarative enrichment makes of its target.
use mathlib.Core.Option
use unified_api.HashMap
use unified_api.HashMap.{HashMap, contains_key}
use unified_api.HashMap.Laws.{contains-keys}
use unified_api.CacheEntry.Enriching.{merge_hostvar_fields_lem, var_of}
use unified_api.CacheEntry.Merge.{merge_group_var_fields}
use unified_api.CacheEntry.{CacheEntry}
use unified_api.MemoryCache.Atomic.{get-update_self}
use unified_api.Enrich.{
  EnrichOutcome, Enricher, Moment, admits, execute_declarative_merge, group_vars_for_target,
  merge_declaration, merge_declared, merge_from, partial_hostvars,
}
use unified_api.Enrich.Fields.{distinct-partial_hostvars, var_of-partial_hostvars}
use unified_api.MemoryCache
use unified_api.MemoryCache.{MemoryCache}
use unified_api.Prelude.{
  Option, String, [], ap, if◌then◌else◌, length, map_or, none, refl, some, ◌&&◌, ◌∙◌, ◌≡◌,
}

-- the outcome and the cache of a run that has its target and its source
succeeded :
    (at : Moment) (enricher : Enricher) (c : MemoryCache) (source_id : String)
    (target source : CacheEntry)
    → enricher.source_id ≡ some source_id
    → MemoryCache.get enricher.target_id c ≡ some target
    → MemoryCache.get source_id c ≡ some source
    → execute_declarative_merge at enricher c ≡ (
      some (record {
        hosts_updated = length (
            partial_hostvars enricher source.dataset.hostvars
              (HashMap.keys target.dataset.hostvars));
        hosts_removed = 0;
        duration_ms = at.duration_ms;
        error = none;
      }),
      (MemoryCache.update enricher.target_id
          (merge_declared at.env (group_vars_for_target target.dataset source.dataset enricher) (
            partial_hostvars enricher source.dataset.hostvars
              (HashMap.keys target.dataset.hostvars)))
          (at.between c)).0,
    )
unfolding execute_declarative_merge
succeeded at enricher c source_id target source p q r =
    ap (λ o. merge_declaration at enricher o c) p
    ∙ ap (λ o. merge_from at enricher source_id o (MemoryCache.get source_id c) c) q
    ∙ ap (λ o. merge_from at enricher source_id (some target) o c) r

-- A declarative enricher whose target and source are in the cache succeeds, and leaves the target's
-- entry, as it stands at the write, with exactly the hosts and the ages that it had. A variable of a
-- host is the source's, if the enricher takes that variable, the target had the host when it was read,
-- and the source has the variable; any other is as it was.
pub declared_lem :
    (at : Moment) (enricher : Enricher) (c : MemoryCache) (source_id : String)
    (target source written : CacheEntry) (x k : String)
    → enricher.source_id ≡ some source_id
    → MemoryCache.get enricher.target_id c ≡ some target
    → MemoryCache.get source_id c ≡ some source
    → MemoryCache.get enricher.target_id (at.between c) ≡ some written
    → (Option.map (λ o. o.error) (execute_declarative_merge at enricher c).0 ≡ some none)
      × ((e : CacheEntry) × (MemoryCache.get enricher.target_id
              (execute_declarative_merge at enricher c).1
            ≡ some e)
          × (contains_key x e.dataset.hostvars ≡ contains_key x written.dataset.hostvars)
          × (e.host_timestamps ≡ written.host_timestamps)
          × (var_of x k e.dataset.hostvars ≡ (
              if contains_key x written.dataset.hostvars
              then map_or (var_of x k written.dataset.hostvars) some (
                  if contains_key x target.dataset.hostvars
                    && admits k enricher.fields enricher.fields_excluded
                  then var_of x k source.dataset.hostvars
                  else none)
              else none)))
unfolding merge_declared merge_group_var_fields Option.bind
declared_lem at enricher c source_id target source written x k is_declared there source_there
      now_there =
    let done = succeeded at enricher c source_id target source is_declared there source_there in
    let hosts = HashMap.keys target.dataset.hostvars in
    let came = partial_hostvars enricher source.dataset.hostvars hosts in
    let groups = group_vars_for_target target.dataset source.dataset enricher in
    let lem =
      merge_hostvar_fields_lem at.env (record { hostvars = came; groups = []; remove_hosts = [] })
        (merge_group_var_fields at.env
          (record { hostvars = []; groups = groups; remove_hosts = [] }) written)
        x k (distinct-partial_hostvars enricher source.dataset.hostvars hosts) in
    (
      ap (λ (r : Option EnrichOutcome × MemoryCache). Option.map (λ o. o.error) r.0) done,
      (
        merge_declared at.env groups came written,
        ap (λ (r : Option EnrichOutcome × MemoryCache). MemoryCache.get enricher.target_id r.1) done
            ∙ get-update_self enricher.target_id (at.between c) _
            ∙ rw now_there refl,
        lem.1,
        lem.2,
        lem.0
            ∙ ap
                (λ o.
                  if contains_key x written.dataset.hostvars
                  then map_or (var_of x k written.dataset.hostvars) some o
                  else none)
                (var_of-partial_hostvars x k enricher source.dataset.hostvars hosts
                  ∙ rw (contains-keys x target.dataset.hostvars) refl),
      ),
    )
