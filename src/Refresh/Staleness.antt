-- ===== src/Refresh/Staleness.antt =====
-- Which hosts a refresh asks for, and how it accounts for all of them.
use unified_api.HashMap.{HashMap}
use unified_api.CacheEntry.{CacheEntry, as_secs, is_host_fresh}
use unified_api.Source.{Source, effective_ttl, group_ttl_by_host}
use unified_api.Sync.{SyncOutcome, SyncRequest, of_hosts, success}
use unified_api.Refresh.{
  Look, RefreshOutcome, none_refreshed, refresh_hosts, refresh_stale, request_for, settle,
  stale_among, stale_hosts,
}
use unified_api.Prelude.{
  Bool, List, Option, String, [], arith, contains, eq_iff, false, if◌then◌else◌, inl, inr, is_empty,
  length, none, not, refl, some, subst, sym, true, unwrap_or, ℕ, ◌&&◌, ◌+◌, ◌∙◌, ◌∷◌, ◌≡◌, ◌≤◌, ◌⊎◌,
}

-- At one look at the cache, is the host due for a refresh?
abbrev pub is_stale : Look → Source → Option ℕ → String → Bool
is_stale look source ttl_override x = elim look.entry [
  | none ↦ true
  | some entry ↦ not (
      is_host_fresh look.now entry x (
        some (
          effective_ttl source x (group_ttl_by_host source entry.dataset)
            (unwrap_or ttl_override (as_secs entry.ttl)))))
]

contains-stale_among :
    (x : String) (now : ℕ) (e : CacheEntry) (source : Source) (ttls : HashMap ℕ) (ttl : ℕ)
    (hosts : List String)
    → contains x (stale_among now e source ttls ttl hosts)
      ≡ (contains x hosts && not (is_host_fresh now e x (some (effective_ttl source x ttls ttl))))
unfolding stale_among contains
contains-stale_among x now e source ttls ttl [] = refl
contains-stale_among x now e source ttls ttl (h ∷ hosts) =
    ground (arith, contains-stale_among x now e source ttls ttl hosts, eq_iff h x)

length-stale_among-le :
    (now : ℕ) (e : CacheEntry) (source : Source) (ttls : HashMap ℕ) (ttl : ℕ) (hosts : List String)
    → length (stale_among now e source ttls ttl hosts) ≤ length hosts
unfolding stale_among
length-stale_among-le now e source ttls ttl [] = omega arith
length-stale_among-le now e source ttls ttl (h ∷ hosts) =
    ground (arith, length-stale_among-le now e source ttls ttl hosts)

stale_lem :
    (x : String) (now : ℕ) (o : Option CacheEntry) (source : Source) (hosts : List String)
    (ttl : Option ℕ)
    → (contains x (stale_hosts now o source hosts ttl)
        ≡ (contains x hosts && is_stale (record { now = now; entry = o }) source ttl x))
      × (length (stale_hosts now o source hosts ttl) ≤ length hosts)
unfolding stale_hosts
stale_lem x now none source hosts ttl = (ground arith, omega arith)
stale_lem x now (some e) source hosts ttl = (
  contains-stale_among x now e source (group_ttl_by_host source e.dataset)
      (unwrap_or ttl (as_secs e.ttl)) hosts,
  length-stale_among-le now e source (group_ttl_by_host source e.dataset)
      (unwrap_or ttl (as_secs e.ttl)) hosts,
)

contains-empty :
    (x : String) (names : List String) → is_empty names ≡ true → contains x names ≡ false
unfolding contains
contains-empty x [] h = refl
contains-empty x (n ∷ ns) h = absurd (ground (arith, h))

-- there was nothing to refresh, or a sync of just these hosts was asked for, and ended well
abbrev pub IsSynced : (SyncRequest → Option SyncOutcome) → List String → Type 0
IsSynced sync refreshed =
    (is_empty refreshed ≡ true)
    ⊎ ((request : SyncRequest) × ((outcome : SyncOutcome) × (request.scope ≡ of_hosts refreshed)
          × (sync request ≡ some outcome)
          × (success outcome ≡ true)))

-- what a refresh has done, unless it reports an error
abbrev Accounts : (SyncRequest → Option SyncOutcome) → String → Bool → ℕ → RefreshOutcome → Type 0
Accounts sync x due asked out =
    out.error ≡ none
    → (contains x out.refreshed ≡ due)
      × (length out.refreshed + out.already_fresh ≡ asked)
      × IsSynced sync out.refreshed

Accounts-if :
    (sync : SyncRequest → Option SyncOutcome) (x : String) (due : Bool) (asked : ℕ) (b : Bool)
    (p q : RefreshOutcome)
    → (b ≡ true → Accounts sync x due asked p)
    → (b ≡ false → Accounts sync x due asked q)
    → Accounts sync x due asked (if b then p else q)
Accounts-if sync x due asked true p q f g = f refl
Accounts-if sync x due asked false p q f g = g refl

Accounts-settle :
    (sync : SyncRequest → Option SyncOutcome) (x : String) (budget asked : ℕ) (still : List String)
    (o : Option SyncOutcome)
    → length still ≤ asked
    → sync (request_for still) ≡ o
    → Accounts sync x (contains x still) asked (settle budget asked still o)
unfolding settle request_for
Accounts-settle sync x budget asked still none le ran h = absurd (ground (arith, h))
Accounts-settle sync x budget asked still (some outcome) le ran h =
    Accounts-if sync x (contains x still) asked (success outcome) _ _
      (λ e h'. (refl, omega (arith, le), inr (request_for still, (outcome, refl, ran, e))))
      (λ e h'. absurd (ground (arith, h'))) h

length-empty : (names : List String) → is_empty names ≡ true → length names ≡ 0
length-empty [] h = refl
length-empty (n ∷ ns) h = absurd (ground (arith, h))

Accounts-none :
    (sync : SyncRequest → Option SyncOutcome) (x : String) (due : Bool) (n : ℕ)
    → due ≡ false
    → Accounts sync x due n (none_refreshed n)
unfolding contains
Accounts-none sync x due n e h = (sym e, omega arith, inl refl)

-- A refresh that reports no error has refreshed exactly the hosts that were asked for and were stale
-- at both looks at the cache, with the TTL that holds for each; the others it counts as fresh
-- already, so that the two numbers make up all that were asked for. Where it has refreshed any, it
-- asked for a sync of just these, which ended in time and succeeded.
pub refresh_hosts_lem :
    (one two : Look) (source : Source) (hosts : List String) (ttl : Option ℕ) (permit : Bool)
    (budget : ℕ) (sync : SyncRequest → Option SyncOutcome) (x : String)
    → (refresh_hosts one two source hosts ttl permit budget sync).error ≡ none
    → (contains x (refresh_hosts one two source hosts ttl permit budget sync).refreshed
        ≡ (contains x hosts && is_stale one source ttl x && is_stale two source ttl x))
      × (length (refresh_hosts one two source hosts ttl permit budget sync).refreshed
            + (refresh_hosts one two source hosts ttl permit budget sync).already_fresh
          ≡ length hosts)
      × IsSynced sync (refresh_hosts one two source hosts ttl permit budget sync).refreshed
unfolding refresh_hosts refresh_stale
refresh_hosts_lem one two source hosts ttl permit budget sync x =
    let stale = stale_hosts one.now one.entry source hosts ttl in
    let still = stale_hosts two.now two.entry source stale ttl in
    let due : Bool = contains x hosts && is_stale one source ttl x && is_stale two source ttl x in
    let (in_stale, stale_le) = stale_lem x one.now one.entry source hosts ttl in
    let (in_still, still_le) = stale_lem x two.now two.entry source stale ttl in
    let same_due : contains x still ≡ due = in_still ∙ rw in_stale (ground arith) in
    Accounts-if sync x due (length hosts) (is_empty hosts) _ _
      (λ e.
        rw (length-empty hosts e)
          (Accounts-none sync x due 0 (ground (arith, contains-empty x hosts e))))
      (λ _.
        Accounts-if sync x due (length hosts) (is_empty stale) _ _
          (λ e.
            Accounts-none sync x due (length hosts)
              (ground (arith, in_stale, contains-empty x stale e)))
          (λ _.
            Accounts-if sync x due (length hosts) (is_empty still) _ _
              (λ e.
                Accounts-none sync x due (length hosts)
                  (ground (arith, same_due, contains-empty x still e)))
              (λ _.
                Accounts-if sync x due (length hosts) (not permit) _ _
                  (λ e h. absurd (ground (arith, h)))
                  (λ _.
                    subst
                      (λ d.
                        Accounts sync x d (length hosts)
                          (settle budget (length hosts) still (sync (request_for still))))
                      same_due
                      (Accounts-settle sync x budget (length hosts) still (sync (request_for still))
                        (omega (arith, stale_le, still_le)) refl)))))
