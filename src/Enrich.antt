-- ===== src/Enrich.antt =====
-- application/enrich.rs, domain/enricher.rs: what adds variables to a gathered entry.
-- The script and the file system are parameters: `Port` holds what a run asks of them.
pub mod Fields
pub mod Declared
pub mod Frame
use mathlib.Core.Option
use unified_api.HashMap
use unified_api.HashMap.{HashMap}
use unified_api.Prelude.{
  Bool, List, Option, Result, String, [], contains, decimal, err, false, if◌then◌else◌, is_empty,
  is_some, leb_text, length, map_or, none, not, ok, some, true, ℕ, ◌&&◌, ◌+++◌, ◌+◌, ◌==◌, ◌∷◌,
}
use unified_api.Dataset.{Dataset, Group, HostVars}
use unified_api.CacheEntry.{CacheEntry, Env}
use unified_api.CacheEntry.Merge.{merge_enrichment, merge_group_var_fields, merge_hostvar_fields}
use unified_api.SyncHealth.{SyncHealthRegistry, health, name, record_failure, record_success}
use unified_api.MemoryCache
use unified_api.MemoryCache.{MemoryCache}

pub record Enricher : Type 0 where
  pub target_id : String
  pub script_path : Option String
  pub script_args : List String
  pub project_id : Option String
  pub source_id : Option String
  pub fields : Option (List String)
  pub fields_excluded : Option (List String)
  pub groups : Option (List String)
  pub groups_excluded : Option (List String)
  pub config : HashMap String
  pub timeout_seconds : ℕ

-- `Enricher::is_declarative`
abbrev pub is_declarative : Enricher → Bool
is_declarative enricher = is_some enricher.source_id

pub record EnrichOutcome : Type 0 where
  pub hosts_updated : ℕ
  pub hosts_removed : ℕ
  pub duration_ms : ℕ
  pub error : Option String

-- an outcome that changed nothing
abbrev pub refused : ℕ → String → EnrichOutcome
refused duration_ms message = record {
  hosts_updated = 0;
  hosts_removed = 0;
  duration_ms = duration_ms;
  error = some message;
}

-- `execute` of ports/enricher.rs within the timeout (none: it did not end in time), and
-- application/scripts.rs, which looks at the checkouts on disk.
pub record Port : Type 0 where
  pub execute : String → List String → HashMap String → Dataset → Option (Result Dataset)
  pub resolve_script_path : String → String → String → String
  pub venv_bin_dir : String → Option String

-- The clock and the cell of one run, what the run took, and what other threads do to the cache
-- between its reads and its write.
pub record Moment : Type 0 where
  pub env : Env
  pub duration_ms : ℕ
  pub between : MemoryCache → MemoryCache

unfoldable pub admits : String → Option (List String) → Option (List String) → Bool
admits name allowed excluded =
    if map_or false (contains name) excluded then false else map_or true (contains name) allowed

-- the loop of `selected`
unfoldable pub wanted : Option (List String) → Option (List String) → HostVars → HostVars
wanted fields excluded [] = []
wanted fields excluded ((key, value) ∷ vars) =
    let rest = wanted fields excluded vars in
    if admits key fields excluded then HashMap.insert key value rest else rest

unfoldable pub selected : HostVars → Option (List String) → Option (List String) → HostVars
selected vars fields excluded =
    if not (is_some fields) && not (is_some excluded) then vars else wanted fields excluded vars

-- the loop over the source's groups
unfoldable pub group_vars_loop : Dataset → Enricher → HashMap Group → HashMap Group
group_vars_loop target enricher [] = []
group_vars_loop target enricher ((name, group) ∷ groups) =
    let rest = group_vars_loop target enricher groups in
    elim group.vars [
      | none ↦ rest
      | some vars ↦
          let owned = selected vars enricher.fields enricher.fields_excluded in
          if not (admits name enricher.groups enricher.groups_excluded)
          then rest
          else if is_empty owned
          then rest
          else HashMap.insert name
              (record {
                hosts = if name == "all" then HashMap.keys target.hostvars else [];
                children = [];
                vars = some owned;
              })
              rest
    ]

unfoldable pub group_vars_for_target : Dataset → Dataset → Enricher → HashMap Group
group_vars_for_target target source enricher = group_vars_loop target enricher source.groups

-- the loop over the target's hosts
unfoldable pub partial_hostvars : Enricher → HashMap HostVars → List String → HashMap HostVars
partial_hostvars enricher source [] = []
partial_hostvars enricher source (hostname ∷ hosts) =
    let rest = partial_hostvars enricher source hosts in
    elim (HashMap.get hostname source) [
      | none ↦ rest
      | some source_vars ↦
          let owned = selected source_vars enricher.fields enricher.fields_excluded in
          if is_empty owned then rest else HashMap.insert hostname owned rest
    ]

-- the closure of a declarative enrichment
unfoldable pub merge_declared : Env → HashMap Group → HashMap HostVars → CacheEntry → CacheEntry
merge_declared env groups hostvars entry =
    merge_hostvar_fields env (record { hostvars = hostvars; groups = []; remove_hosts = [] })
      (merge_group_var_fields env (record { hostvars = []; groups = groups; remove_hosts = [] })
        entry)

-- the source's id is there, with the two entries that the cache has
unfoldable pub merge_from :
    Moment
    → Enricher
    → String
    → Option CacheEntry
    → Option CacheEntry
    → MemoryCache
    → Option EnrichOutcome × MemoryCache
merge_from at enricher source_id none source cache = (none, cache)
merge_from at enricher source_id (some target) none cache =
    (some (refused at.duration_ms ("source '" +++ source_id +++ "' not in cache")), cache)
merge_from at enricher source_id (some target) (some source) cache =
    let hostvars =
      partial_hostvars enricher source.dataset.hostvars (HashMap.keys target.dataset.hostvars) in
    let groups = group_vars_for_target target.dataset source.dataset enricher in
    (
      some (record {
        hosts_updated = length hostvars;
        hosts_removed = 0;
        duration_ms = at.duration_ms;
        error = none;
      }),
      (MemoryCache.update enricher.target_id (merge_declared at.env groups hostvars)
          (at.between cache)).0,
    )

unfoldable pub merge_declaration :
    Moment → Enricher → Option String → MemoryCache → Option EnrichOutcome × MemoryCache
merge_declaration at enricher none cache =
    (some (refused at.duration_ms "declarative enricher missing source_id"), cache)
merge_declaration at enricher (some source_id) cache =
    merge_from at enricher source_id (MemoryCache.get enricher.target_id cache)
      (MemoryCache.get source_id cache) cache

unfoldable pub execute_declarative_merge :
    Moment → Enricher → MemoryCache → Option EnrichOutcome × MemoryCache
unfolding merge_declaration merge_from
execute_declarative_merge at enricher cache = merge_declaration at enricher enricher.source_id cache

-- the configuration that the script sees
unfoldable pub script_config : Port → Enricher → Option String → HashMap String
script_config port enricher trigger =
    let with_bin =
      map_or enricher.config (λ bin. HashMap.insert "python_venv_bin" bin enricher.config)
        (Option.bind enricher.project_id port.venv_bin_dir) in
    map_or with_bin (λ t. HashMap.insert "trigger" t with_bin) trigger

-- what becomes of the script's answer
unfoldable pub finish_run :
    Moment → Enricher → Option (Result Dataset) → MemoryCache → Option EnrichOutcome × MemoryCache
finish_run at enricher none cache = (
  some (
      refused at.duration_ms
        ("enricher timed out after " +++ decimal enricher.timeout_seconds +++ "s")),
  cache,
)
finish_run at enricher (some (err message)) cache = (some (refused at.duration_ms message), cache)
finish_run at enricher (some (ok partial)) cache = (
  some (record {
    hosts_updated = length partial.hostvars;
    hosts_removed = length partial.remove_hosts;
    duration_ms = at.duration_ms;
    error = none;
  }),
  (MemoryCache.update enricher.target_id (merge_enrichment at.env partial) cache).0,
)

unfoldable pub run_script :
    Moment
    → Port
    → String
    → Enricher
    → Option String
    → Option CacheEntry
    → Option String
    → MemoryCache
    → Option EnrichOutcome × MemoryCache
run_script at port enricher_id enricher trigger none path cache = (none, cache)
run_script at port enricher_id enricher trigger (some current) none cache =
    (some (refused 0 "script-based enricher missing script_path"), cache)
run_script at port enricher_id enricher trigger (some current) (some path) cache =
    let resolved =
      map_or path (λ project. port.resolve_script_path enricher_id project path)
        enricher.project_id in
    finish_run at enricher
      (port.execute resolved enricher.script_args (script_config port enricher trigger)
        current.dataset)
      (at.between cache)

unfoldable pub execute_enricher :
    Moment
    → Port
    → String
    → Enricher
    → Option String
    → MemoryCache
    → Option EnrichOutcome × MemoryCache
unfolding run_script finish_run
execute_enricher at port enricher_id enricher trigger cache =
    run_script at port enricher_id enricher trigger (MemoryCache.get enricher.target_id cache)
      enricher.script_path cache

-- what a run records of itself, under the enricher's id
unfoldable pub record_outcome :
    ℕ → String → Enricher → Option EnrichOutcome → SyncHealthRegistry → SyncHealthRegistry
record_outcome now id enricher none health =
    record_failure now id ("target '" +++ enricher.target_id +++ "' is not in the cache") health
record_outcome now id enricher (some outcome) health = elim outcome.error [
  | none ↦ record_success now id health
  | some message ↦ record_failure now id message health
]

unfoldable pub run_enricher :
    Moment
    → Port
    → String
    → Enricher
    → Option String
    → MemoryCache × SyncHealthRegistry
    → Option EnrichOutcome × MemoryCache × SyncHealthRegistry
run_enricher at port id enricher trigger (cache, health) =
    let (outcome, written) =
      if is_declarative enricher
      then execute_declarative_merge at enricher cache
      else execute_enricher at port id enricher trigger cache in
    (outcome, written, record_outcome at.env.now id enricher outcome health)

-- `sort_by` on the ids
unfoldable pub insert_by_id :
    String → Enricher → List (String × Enricher) → List (String × Enricher)
insert_by_id id enricher [] = (id, enricher) ∷ []
insert_by_id id enricher ((other, e) ∷ rest) =
    if leb_text id other
    then (id, enricher) ∷ (other, e) ∷ rest
    else (other, e) ∷ insert_by_id id enricher rest

-- the enrichers of a target, in the order of their ids
unfoldable pub matching_enrichers : String → HashMap Enricher → List (String × Enricher)
matching_enrichers target_id [] = []
matching_enrichers target_id ((id, enricher) ∷ enrichers) =
    let rest = matching_enrichers target_id enrichers in
    if enricher.target_id == target_id then insert_by_id id enricher rest else rest

-- the loop of `run_enrichers_for_target`, with a moment for each run
unfoldable pub run_all :
    (String → Moment)
    → Port
    → Option String
    → List (String × Enricher)
    → MemoryCache × SyncHealthRegistry
    → ℕ × MemoryCache × SyncHealthRegistry
run_all at port trigger [] (cache, health) = (0, cache, health)
run_all at port trigger ((id, enricher) ∷ rest) state =
    let (outcome, cache, health) = run_enricher (at id) port id enricher trigger state in
    let (applied, last_cache, last_health) = run_all at port trigger rest (cache, health) in
    ((if is_some outcome then applied + 1 else applied), last_cache, last_health)

unfoldable pub run_enrichers_for_target :
    (String → Moment)
    → Port
    → HashMap Enricher
    → String
    → Option String
    → MemoryCache × SyncHealthRegistry
    → ℕ × MemoryCache × SyncHealthRegistry
run_enrichers_for_target at port enrichers target_id trigger state =
    run_all at port trigger (matching_enrichers target_id enrichers) state
