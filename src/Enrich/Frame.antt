-- ===== src/Enrich/Frame.antt =====
-- Which entries a run of an enricher may change.
use unified_api.MemoryCache.Atomic.{get-update_other, outcome, run}
use unified_api.CacheEntry.{CacheEntry}
use unified_api.Dataset.{Dataset}
use unified_api.SyncHealth.{SyncHealthRegistry, health}
use unified_api.Enrich.{
  EnrichOutcome, Enricher, Moment, Port, execute_declarative_merge, execute_enricher, finish_run,
  is_declarative, merge_declaration, merge_from, run_enricher, run_script, script_config,
}
use unified_api.MemoryCache
use unified_api.MemoryCache.{MemoryCache}
use unified_api.Prelude.{
  Bool, Option, Result, String, ap, arith, err, false, if◌then◌else◌, is_some, map_or, none, not,
  ok, refl, some, true, ◌&&◌, ◌==◌, ◌∙◌, ◌≡◌,
}

-- `EnrichOutcome::success`, of a run that found its target
abbrev pub succeeds : Option EnrichOutcome → Bool
succeeds none = false
succeeds (some outcome) = not (is_some outcome.error)

-- Neither kind of run changes the entry `j`, unless it is the target and the run succeeds.
abbrev Leaves : String → String → MemoryCache → Option EnrichOutcome × MemoryCache → Type 0
Leaves target j c run =
    (target == j && succeeds run.0) ≡ false → MemoryCache.get j run.1 ≡ MemoryCache.get j c

module _ (at : Moment) (enricher : Enricher) (c : MemoryCache) (j : String)
    (idle : MemoryCache.get j (at.between c) ≡ MemoryCache.get j c) where
  Leaves-merge_from :
      (source_id : String) (target source : Option CacheEntry)
      → Leaves enricher.target_id j c (merge_from at enricher source_id target source c)
  unfolding merge_from
  Leaves-merge_from source_id none source h = refl
  Leaves-merge_from source_id (some target) none h = refl
  Leaves-merge_from source_id (some target) (some source) h =
      get-update_other enricher.target_id j (at.between c) (ground (arith, h)) _ ∙ idle

  Leaves-merge_declaration :
      (o : Option String) → Leaves enricher.target_id j c (merge_declaration at enricher o c)
  unfolding merge_declaration
  Leaves-merge_declaration none h = refl
  Leaves-merge_declaration (some source_id) h =
      Leaves-merge_from source_id (MemoryCache.get enricher.target_id c)
        (MemoryCache.get source_id c) h

  Leaves-finish_run :
      (answer : Option (Result Dataset))
      → Leaves enricher.target_id j c (finish_run at enricher answer (at.between c))
  unfolding finish_run
  Leaves-finish_run none h = idle
  Leaves-finish_run (some (err message)) h = idle
  Leaves-finish_run (some (ok partial)) h =
      get-update_other enricher.target_id j (at.between c) (ground (arith, h)) _ ∙ idle

  Leaves-run_script :
      (port : Port) (id : String) (trigger : Option String) (entry : Option CacheEntry)
      (path : Option String)
      → Leaves enricher.target_id j c (run_script at port id enricher trigger entry path c)
  unfolding run_script
  Leaves-run_script port id trigger none path h = refl
  Leaves-run_script port id trigger (some e) none h = refl
  Leaves-run_script port id trigger (some e) (some path) h = Leaves-finish_run _ h

Leaves-if :
    (target j : String) (c : MemoryCache) (b : Bool) (r s : Option EnrichOutcome × MemoryCache)
    → Leaves target j c r
    → Leaves target j c s
    → Leaves target j c (if b then r else s)
Leaves-if target j c true r s p q = p
Leaves-if target j c false r s p q = q

-- an answer in time, without an error
abbrev pub answered : Option (Result Dataset) → Bool
answered (some (ok _)) = true
answered _ = false

-- A declarative enricher has its source, and both entries are in the cache.
abbrev pub has_entries : Enricher → MemoryCache → Bool
has_entries enricher c =
    map_or false (λ source_id. is_some (MemoryCache.get source_id c)) enricher.source_id
    && is_some (MemoryCache.get enricher.target_id c)

-- the script is there, and answers for the target's dataset
abbrev pub script_answers :
    Port → String → Enricher → Option String → Option CacheEntry → Option String → Bool
script_answers port id enricher trigger (some current) (some path) = answered (
    port.execute
      (map_or path (λ project. port.resolve_script_path id project path) enricher.project_id)
      enricher.script_args (script_config port enricher trigger) current.dataset)
script_answers port id enricher trigger _ _ = false

-- what a run needs in order to succeed
abbrev pub can_run : Port → String → Enricher → Option String → MemoryCache → Bool
can_run port id enricher trigger c =
    if is_some enricher.source_id
    then has_entries enricher c
    else script_answers port id enricher trigger (MemoryCache.get enricher.target_id c)
        enricher.script_path

module _ (at : Moment) (enricher : Enricher) (c : MemoryCache) where
  succeeds-merge_from :
      (source_id : String) (target source : Option CacheEntry)
      → succeeds (merge_from at enricher source_id target source c).0
        ≡ (is_some source && is_some target)
  unfolding merge_from
  succeeds-merge_from source_id none none = refl
  succeeds-merge_from source_id none (some source) = refl
  succeeds-merge_from source_id (some target) none = refl
  succeeds-merge_from source_id (some target) (some source) = refl

  succeeds-merge_declaration :
      (o : Option String)
      → succeeds (merge_declaration at enricher o c).0 ≡ (
          map_or false (λ source_id. is_some (MemoryCache.get source_id c)) o
          && is_some (MemoryCache.get enricher.target_id c))
  unfolding merge_declaration
  succeeds-merge_declaration none = refl
  succeeds-merge_declaration (some source_id) =
      succeeds-merge_from source_id (MemoryCache.get enricher.target_id c)
        (MemoryCache.get source_id c)

  succeeds-finish_run :
      (answer : Option (Result Dataset)) (after : MemoryCache)
      → succeeds (finish_run at enricher answer after).0 ≡ answered answer
  unfolding finish_run
  succeeds-finish_run none after = refl
  succeeds-finish_run (some (err message)) after = refl
  succeeds-finish_run (some (ok partial)) after = refl

  succeeds-run_script :
      (port : Port) (id : String) (trigger : Option String) (entry : Option CacheEntry)
      (path : Option String)
      → succeeds (run_script at port id enricher trigger entry path c).0
        ≡ script_answers port id enricher trigger entry path
  unfolding run_script
  succeeds-run_script port id trigger none none = refl
  succeeds-run_script port id trigger none (some path) = refl
  succeeds-run_script port id trigger (some e) none = refl
  succeeds-run_script port id trigger (some e) (some path) = succeeds-finish_run _ (at.between c)

succeeds-if :
    (b p q : Bool) (r s : Option EnrichOutcome × MemoryCache)
    → succeeds r.0 ≡ p
    → succeeds s.0 ≡ q
    → succeeds (if b then r else s).0 ≡ (if b then p else q)
succeeds-if true p q r s e f = e
succeeds-if false p q r s e f = f

-- A run of an enricher succeeds exactly if it has what it needs: a declarative one, its target and
-- its source in the cache; one of a script, its target in the cache, the script, and the script's
-- answer in time and without an error. It changes no entry of the cache but its target's, and not
-- that one either if it does not succeed; every such entry that no other thread changes is as before.
pub run_enricher_lem :
    (at : Moment) (port : Port) (id : String) (enricher : Enricher) (trigger : Option String)
    (c : MemoryCache) (health : SyncHealthRegistry) (j : String)
    → MemoryCache.get j (at.between c) ≡ MemoryCache.get j c
    → (enricher.target_id == j && can_run port id enricher trigger c) ≡ false
    → (succeeds (run_enricher at port id enricher trigger (c, health)).0
        ≡ can_run port id enricher trigger c)
      × (MemoryCache.get j (run_enricher at port id enricher trigger (c, health)).1
          ≡ MemoryCache.get j c)
unfolding run_enricher execute_declarative_merge execute_enricher
run_enricher_lem at port id enricher trigger c health j idle h =
    let script = execute_enricher at port id enricher trigger c in
    let ends : succeeds (run_enricher at port id enricher trigger (c, health)).0
        ≡ can_run port id enricher trigger c =
      succeeds-if (is_declarative enricher) (has_entries enricher c)
        (script_answers port id enricher trigger (MemoryCache.get enricher.target_id c)
          enricher.script_path)
        (execute_declarative_merge at enricher c) script
        (succeeds-merge_declaration at enricher c enricher.source_id)
        (succeeds-run_script at enricher c port id trigger (MemoryCache.get enricher.target_id c)
          enricher.script_path) in
    (
      ends,
      Leaves-if enricher.target_id j c (is_declarative enricher)
          (execute_declarative_merge at enricher c) script
          (Leaves-merge_declaration at enricher c j idle enricher.source_id)
          (Leaves-run_script at enricher c j idle port id trigger
            (MemoryCache.get enricher.target_id c) enricher.script_path)
          (ap (λ b. enricher.target_id == j && b) ends ∙ h),
    )
