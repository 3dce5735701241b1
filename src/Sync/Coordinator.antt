-- ===== src/Sync/Coordinator.antt =====
-- application/sync.rs: `SyncCoordinator` and the part of `sync_source` that decides who gathers. One
-- source: its lock, its 64-bit counter of full syncs, and any number of requests, each a thread. A
-- request reads the counter, waits for the lock, and then either answers from what another sync left
-- or gathers. `clock` counts the steps, so that it orders what happens.
use unified_api.Prelude.{
  Bool, List, Option, [], false, if◌then◌else◌, nat_eq, none, some, true, ℕ, ◌%◌, ◌&&◌, ◌+◌, ◌^◌,
  ◌∷◌, ◌≡◌, ◌≢◌, ◌⊎◌,
}

-- One full sync that counted: when it began to gather, and when it ended.
pub record FullSync : Type 0 where
  pub started : ℕ
  pub ended : ℕ

-- Where a request is. `coalescable`: a full sync that does not ask the origin to gather.
pub data Phase : Type 0 where
  absent : Phase
  -- since `began`, having read the counter at `before`
  waiting : (coalescable : Bool) → (began before : ℕ) → Phase
  -- it holds the lock, and gathers since `started`
  gathering : (coalescable : Bool) → (began started : ℕ) → Phase
  -- answered from another sync
  coalesced : (began : ℕ) → Phase
  -- its own sync has ended
  answered : (began : ℕ) → Phase

pub record System : Type 0 where
  pub clock : ℕ
  -- who holds the lock
  pub lock : Option ℕ
  -- `full_syncs`, an `AtomicU64`
  pub full_syncs : ℕ
  -- the syncs that it has counted, the last one first
  pub counted : List FullSync
  pub threads : ℕ → Phase

abbrev pub start : System
start = record { clock = 0; lock = none; full_syncs = 0; counted = []; threads = λ _. absent }

-- a thread's phase is set, and the clock goes on
abbrev pub advance : ℕ → Phase → System → System
advance i p s = record s {
  clock = s.clock + 1;
  threads = λ j. if nat_eq i j then p else s.threads j;
}

-- the answer from the cache: the lock is free again at once
abbrev pub answer_coalesced : ℕ → ℕ → System → System
answer_coalesced i began s = advance i (coalesced began) s

abbrev pub begin_gather : ℕ → Bool → ℕ → System → System
begin_gather i coalescable began s = record (advance i (gathering coalescable began s.clock) s) {
  lock = some i;
}

-- the end of a sync: the counter moves for a full sync that succeeded, before the lock is free
unfoldable pub end_gather : ℕ → Bool → Bool → ℕ → ℕ → System → System
end_gather i coalescable success began started s =
    let ended = record (advance i (answered began) s) { lock = none } in
    if coalescable && success
    then record ended {
      full_syncs = (s.full_syncs + 1) % 2 ^ 64;
      counted = record { started = started; ended = s.clock } ∷ s.counted;
    }
    else ended

pub data Step : System → System → Type 0 where
  -- `full_syncs.load` before the lock
  arrive :
      (i : ℕ) (coalescable : Bool) (s : System)
      → s.threads i ≡ absent
      → Step s (advance i (waiting coalescable s.clock s.full_syncs) s)
  -- the lock is free, and the counter is another one
  coalesce :
      (i began before : ℕ) (s : System)
      → s.threads i ≡ waiting true began before
      → s.lock ≡ none
      → s.full_syncs ≢ before
      → Step s (answer_coalesced i began s)
  -- the lock is free, and no full sync has ended, or none could stand in
  lead :
      (i : ℕ) (coalescable : Bool) (began before : ℕ) (s : System)
      → s.threads i ≡ waiting coalescable began before
      → s.lock ≡ none
      → (coalescable ≡ false) ⊎ (s.full_syncs ≡ before)
      → Step s (begin_gather i coalescable began s)
  -- the sync ends, well or not
  finish :
      (i : ℕ) (coalescable success : Bool) (began started : ℕ) (s : System)
      → s.threads i ≡ gathering coalescable began started
      → Step s (end_gather i coalescable success began started s)
  -- the caller gives up while it waits
  leave :
      (i : ℕ) (coalescable : Bool) (began before : ℕ) (s : System)
      → s.threads i ≡ waiting coalescable began before
      → Step s (advance i absent s)
  -- the caller gives up while it gathers: the guard is dropped
  drop :
      (i : ℕ) (coalescable : Bool) (began started : ℕ) (s : System)
      → s.threads i ≡ gathering coalescable began started
      → Step s (record (advance i absent s) { lock = none })

pub data Reach (s : System) : System → Type 0 where
  here : Reach s s
  next : {t u : System} → Reach s t → Step t u → Reach s u
