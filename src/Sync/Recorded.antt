-- ===== src/Sync/Recorded.antt =====
-- What a sync leaves in the state of the process.
use unified_api.HashMap.Laws.{get-upsert_same}
use unified_api.Source.{AdvertisedScopes, Source}
use unified_api.SyncHealth.{
  RunRecord, SyncHealthRegistry, health, history, history_size, kept_run, record_run, shorten,
}
use unified_api.Sync.{ConnectorOutput, SyncOutcome, SyncRequest, SyncScope, success}
use unified_api.Sync.Run.{Landed, Moments, Ports, run_sync}
use unified_api.Sync.Failure.{Leaves, answer_of, run_sync_lem}
use unified_api.Sync.Service.{
  Enrichment, SyncState, enrich_again, record_attempt, record_sync, run_of, sync_now,
}
use unified_api.MemoryCache.{MemoryCache}
use unified_api.Prelude.{
  List, Option, Option-cases, String, [], ap, arith, false, inl, inr, none, refl, some, take,
  unwrap_or, ℕ, ◌∙◌, ◌∷◌, ◌≡◌,
}

abbrev pub head : List RunRecord → Option RunRecord
head [] = none
head (run ∷ _) = some run

-- the newest run of a source
abbrev pub newest : String → SyncHealthRegistry → Option RunRecord
newest id health = head (history id health)

newest-record_run :
    (id : String) (run : RunRecord) (r : SyncHealthRegistry)
    → newest id (record_run id run r) ≡ some (kept_run run)
unfolding history record_run
newest-record_run id run r =
    ap (λ o. head (unwrap_or o []))
      (get-upsert_same id [] (λ runs. take history_size (kept_run run ∷ runs)) r.runs)

enrich_again-failed :
    (e : Option Enrichment) (id : String) (request : SyncRequest) (outcome : SyncOutcome)
    (state : MemoryCache × SyncHealthRegistry)
    → success outcome ≡ false
    → enrich_again e id request outcome state ≡ state
unfolding enrich_again
enrich_again-failed none id request outcome state h = refl
enrich_again-failed (some e) id request outcome state h = rw h refl

failed_run :
    (started_at : ℕ) (id : String) (request : SyncRequest) (outcome : SyncOutcome)
    (r : SyncHealthRegistry)
    → success outcome ≡ false
    → (message : String) × (outcome.error ≡ some message)
      × (newest id (record_run id (run_of started_at request outcome) r)
          ≡ some (record {
            started_at = started_at;
            duration_ms = outcome.duration_ms;
            trigger = request.run_trigger;
            by = request.by;
            scope = some outcome.scope;
            error = some (shorten message);
            hosts = none;
            groups = none;
            revision_before = none;
            revision = none;
          }))
unfolding run_of kept_run
failed_run started_at id request outcome r h = elim (Option-cases outcome.error) [
  | inl e ↦ absurd (ground (arith, h, e))
  | inr (message, e) ↦
      (message, e, newest-record_run id (run_of started_at request outcome) r ∙ rw e refl)
]

-- the part of a sync that fails
unchanged_on_failure :
    (at : Moments) (id : String) (source : Source) (scope : SyncScope)
    (state : MemoryCache × AdvertisedScopes) (landed : Landed) (o : Option ConnectorOutput)
    → success landed.0 ≡ false
    → Leaves at id source scope state landed o
    → (landed.1 ≡ at.between state.0) × (landed.2 ≡ state.1)
unchanged_on_failure at id source scope (c, scopes) landed none h (_, cache, same) = (cache, same)
unchanged_on_failure at id source scope (c, scopes) landed (some output) h (succeeded, _) =
    absurd (ground (arith, h, succeeded))

-- A sync that fails leaves the cache as other threads left it, the advertised scopes, the enrichers'
-- registry and the counter as they were, so that no waiting request is answered from it, and is the
-- newest run in its source's history, with its start, its trigger, its scope and its error, cut to
-- the length that the history keeps.
pub failed_sync_lem :
    (ports : Ports) (at : Moments) (enrichment : Option Enrichment) (started_at : ℕ) (id : String)
    (source : Source) (request : SyncRequest) (s : SyncState)
    → success (sync_now ports at enrichment started_at id source request s).0 ≡ false
    → ((sync_now ports at enrichment started_at id source request s).1.cache ≡ at.between s.cache)
      × ((sync_now ports at enrichment started_at id source request s).1.scopes ≡ s.scopes)
      × ((sync_now ports at enrichment started_at id source request s).1.enrich_health
          ≡ s.enrich_health)
      × ((sync_now ports at enrichment started_at id source request s).1.full_syncs ≡ s.full_syncs)
      × ((message : String) × ((sync_now ports at enrichment started_at id source request s).0.error
            ≡ some message)
          × (newest id (sync_now ports at enrichment started_at id source request s).1.health
              ≡ some (record {
                started_at = started_at;
                duration_ms =
                    (sync_now ports at enrichment started_at id source request s).0.duration_ms;
                trigger = request.run_trigger;
                by = request.by;
                scope = some (sync_now ports at enrichment started_at id source request s).0.scope;
                error = some (shorten message);
                hosts = none;
                groups = none;
                revision_before = none;
                revision = none;
              })))
unfolding sync_now record_sync
failed_sync_lem ports at enrichment started_at id source request s h =
    let landed = run_sync ports at id source request (s.cache, s.scopes) in
    let (cache, scopes) =
      unchanged_on_failure at id source request.scope (s.cache, s.scopes) landed
        (answer_of ports source request source.hosts_from_source s.cache) h
        (run_sync_lem ports at id source request s.cache s.scopes) in
    let idle = enrich_again-failed enrichment id request landed.0 (landed.1, s.enrich_health) h in
    (
      ap (λ r. r.0) idle ∙ cache,
      scopes,
      ap (λ r. r.1) idle,
      ground (arith, h),
      failed_run started_at id request landed.0
          (record_attempt at.env.now id landed.0.error s.health) h,
    )
