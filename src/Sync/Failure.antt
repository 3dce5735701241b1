-- ===== src/Sync/Failure.antt =====
-- What a sync that fails leaves behind, and when a sync succeeds.
use mathlib.Core.Option
use unified_api.Source.Hosts.{resolve}
use unified_api.MemoryCache
use unified_api.Credentials.{resolve_credentials}
use unified_api.Source.{AdvertisedScopes, HostsFromSource, Source}
use unified_api.Sync.{ConnectorOutput, SyncOutcome, SyncRequest, SyncScope, failed, success}
use unified_api.Sync.Run.{
  Gathered, Landed, Moments, Ports, answer, args_for_scope, completed, config_for, execute_with,
  executed, gather, gather_from, land, run_sync, stopped, with_hosts,
}
use unified_api.CacheEntry.{CacheEntry}
use unified_api.MemoryCache.{MemoryCache}
use unified_api.Sync.Apply.{apply_to_cache}
use unified_api.Prelude.{
  Bool-cases, Option, Option-cases, Result, Result-cases, String, ap, arith, err, false,
  if◌then◌else◌, inl, inr, is_empty, none, ok, refl, some, true, ◌≡◌,
}

-- `Result::ok`
abbrev pub ok_of {ℓ} : {A : Type ℓ} → Result A → Option A
ok_of (ok a) = some a
ok_of (err _) = none

-- the hosts of the other source, if it is in the cache and has any, as serde_json writes them
abbrev pub other_hosts : Ports → HostsFromSource → MemoryCache → Option String
other_hosts ports hfs c = Option.bind (MemoryCache.get hfs.source c) (λ (entry : CacheEntry).
    if is_empty (resolve hfs entry.dataset).0
    then none
    else ok_of (ports.to_json (resolve hfs entry.dataset).0))

-- what the connector answers, with the credentials, in time and without an error
abbrev pub answer_with : Ports → Source → SyncRequest → Option String → Option ConnectorOutput
answer_with ports source request spec =
    Option.bind (ok_of (resolve_credentials ports.secrets source.credential_ids)) (λ credentials.
      Option.bind
        (ports.execute source.script_path (args_for_scope source request.scope)
          (config_for source request spec) credentials)
        ok_of)

-- What a sync has to work with, if it has all that it needs.
abbrev pub answer_of :
    Ports → Source → SyncRequest → Option HostsFromSource → MemoryCache → Option ConnectorOutput
answer_of ports source request none c = answer_with ports source request none
answer_of ports source request (some hfs) c =
    Option.bind (other_hosts ports hfs c) (λ spec. answer_with ports source request (some spec))

-- a gather that has, or has not, that answer
abbrev Gives : Option ConnectorOutput → Gathered → Type 0
Gives none g = (outcome : SyncOutcome) × (g ≡ stopped outcome) × (success outcome ≡ false)
Gives (some output) g = g ≡ answer output

Gives-executed :
    (at : Moments) (source : Source) (scope : SyncScope) (o : Option (Result ConnectorOutput))
    → Gives (Option.bind o ok_of) (executed at source scope o)
unfolding executed Option.bind
Gives-executed at source scope none = (_, refl, refl)
Gives-executed at source scope (some (err message)) = (_, refl, refl)
Gives-executed at source scope (some (ok output)) = refl

Gives-execute_with :
    (ports : Ports) (at : Moments) (source : Source) (request : SyncRequest) (spec : Option String)
    → Gives (answer_with ports source request spec) (execute_with ports at source request spec)
unfolding execute_with Option.bind
Gives-execute_with ports at source request spec =
    elim (Result-cases (resolve_credentials ports.secrets source.credential_ids)) [
      | inr (m, e) ↦ rw (e, execute_with) (_, refl, refl)
      | inl (credentials, e) ↦ rw (e, execute_with) (Gives-executed at source request.scope _)
    ]

Gives-with_hosts :
    (ports : Ports) (at : Moments) (source : Source) (request : SyncRequest) (hfs : HostsFromSource)
    (c : MemoryCache)
    → Gives
        (answer_of ports source request (some hfs) c)
        (with_hosts ports at source request hfs (MemoryCache.get hfs.source c))
unfolding with_hosts Option.bind
Gives-with_hosts ports at source request hfs c =
    elim (Option-cases (MemoryCache.get hfs.source c)) [
      | inl gone ↦ rw (gone, with_hosts) (_, refl, refl)
      | inr (entry, there) ↦ elim (Bool-cases (is_empty (resolve hfs entry.dataset).0)) [
        | inl e ↦ rw (there, with_hosts, e) (_, refl, refl)
        | inr e ↦ elim (Result-cases (ports.to_json (resolve hfs entry.dataset).0)) [
          | inr (m, f) ↦ rw (there, with_hosts, e, f) (_, refl, refl)
          | inl (spec, f) ↦
              rw (there, with_hosts, e, f) (Gives-execute_with ports at source request (some spec))
        ]
      ]
    ]

Gives-gather :
    (ports : Ports) (at : Moments) (source : Source) (request : SyncRequest)
    (o : Option HostsFromSource) (c : MemoryCache)
    → Gives (answer_of ports source request o c) (gather_from ports at source request o c)
unfolding gather_from
Gives-gather ports at source request none c = Gives-execute_with ports at source request none
Gives-gather ports at source request (some hfs) c = Gives-with_hosts ports at source request hfs c

-- what a sync leaves, with an answer of the connector or without
abbrev pub Leaves :
    Moments
    → String
    → Source
    → SyncScope
    → MemoryCache × AdvertisedScopes
    → Landed
    → Option ConnectorOutput
    → Type 0
Leaves at id source scope (c, scopes) landed none =
    (success landed.0 ≡ false) × (landed.1 ≡ at.between c) × (landed.2 ≡ scopes)
Leaves at id source scope (c, scopes) landed (some output) =
    (success landed.0 ≡ true)
    × (landed.1
        ≡ apply_to_cache at.env at.after id source scope (completed scope output) (at.between c))

Leaves-land :
    (at : Moments) (id : String) (source : Source) (scope : SyncScope) (g : Gathered)
    (c : MemoryCache) (scopes : AdvertisedScopes) (o : Option ConnectorOutput)
    → Gives o g
    → Leaves at id source scope (c, scopes) (land at id source scope g (c, scopes)) o
unfolding land
Leaves-land at id source scope (stopped outcome) c scopes none (told, e, failed) =
    (ground (arith, e, failed), refl, refl)
Leaves-land at id source scope (answer came) c scopes none (told, e, failed) = absurd cc
Leaves-land at id source scope (stopped outcome) c scopes (some output) e = absurd cc
Leaves-land at id source scope (answer came) c scopes (some output) e =
    let same : came ≡ output = cc in
    (
      refl,
      ap (λ o. apply_to_cache at.env at.after id source scope (completed scope o) (at.between c))
          same,
    )

-- A sync without what it needs, which is the entry of its other source with hosts to connect to
-- that serde_json can write, if it names such a source, its credentials, and a connector that answers in time without an error, fails, and
-- leaves the cache as other threads left it and records no advertised scope. A sync with all of it
-- succeeds, and the connector's answer, completed for a full sync, is applied to the cache.
pub run_sync_lem :
    (ports : Ports) (at : Moments) (id : String) (source : Source) (request : SyncRequest)
    (c : MemoryCache) (scopes : AdvertisedScopes)
    → Leaves at id source request.scope
        (c, scopes)
        (run_sync ports at id source request (c, scopes))
        (answer_of ports source request source.hosts_from_source c)
unfolding run_sync gather
run_sync_lem ports at id source request c scopes =
    Leaves-land at id source request.scope (gather ports at source request c) c scopes
      (answer_of ports source request source.hosts_from_source c)
      (Gives-gather ports at source request source.hosts_from_source c)
