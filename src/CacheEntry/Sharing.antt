-- ===== src/CacheEntry/Sharing.antt =====
-- domain/cache_entry.rs: the entries that are alive and the cells that they share, and the steps
-- that threads take: new entries, writes to clones, and the publication of a serialization.
use mathlib.Core.List.{Memᴰ}
use unified_api.Prelude.{List, Result, none, ok, ℕ, ◌∷◌, ◌≡◌, ◌≢◌}
use unified_api.Dataset.{Dataset}
use unified_api.CacheEntry.{CacheEntry, Env}
use unified_api.CacheEntry.Writes.{Write, perform}
use unified_api.CacheEntry.Serialized.{Cells, SerializedJson, serialize, set_cell}

pub record System : Type 0 where
  pub live : List CacheEntry
  pub cells : Cells

-- An address that the allocator may hand out: its cell is empty and no live entry has it.
pub record IsUnused (s : System) (address : ℕ) : Type 0 where
  pub empty : s.cells address ≡ none
  pub unshared : (e : CacheEntry) → Memᴰ e s.live → e.serialized ≢ address

-- One step of one thread. A writer works on a clone that it holds alone; dropping an entry is not
-- a step, since an entry that nobody asks again does no harm.
pub data Step (to_vec : Dataset → Result (List ℕ)) (finish : List ℕ → ℕ) (s t : System)
    : Type 0 where
  creates :
      (env : Env) (e : CacheEntry)
      → IsUnused s env.cell
      → e.serialized ≡ env.cell
      → t ≡ record s { live = e ∷ s.live }
      → Step to_vec finish s t
  writes :
      (env : Env) (w : Write) (e : CacheEntry)
      → IsUnused s env.cell
      → Memᴰ e s.live
      → t ≡ record s { live = perform env w e ∷ s.live }
      → Step to_vec finish s t
  publishes :
      (e : CacheEntry) (json : SerializedJson)
      → Memᴰ e s.live
      → serialize to_vec finish e.dataset ≡ ok json
      → t ≡ record s { cells = set_cell e.serialized json s.cells }
      → Step to_vec finish s t

pub data Reach (to_vec : Dataset → Result (List ℕ)) (finish : List ℕ → ℕ) (s : System)
    : System → Type 0 where
  here : Reach to_vec finish s s
  next : {t u : System} → Reach to_vec finish s t → Step to_vec finish t u → Reach to_vec finish s u
