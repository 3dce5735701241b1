-- ===== src/Tests/Stores.antt =====
-- The properties of the cache, and of the serialization that its entries share, at the small
-- inventory.
use mathlib.Core.List.{Memᴰ}
use unified_api.HashMap
use unified_api.HashMap.{HashMap}
use unified_api.CacheEntry.Sharing.{Reach, System, creates, here, next, publishes, writes}
use unified_api.CacheEntry.Coherence.{nothing, serialized_json_is_current}
use unified_api.CacheEntry.Writes.{perform, put_host}
use unified_api.CacheEntry.Cells.{mem_cases}
use unified_api.Prelude.{
  List, Result, String, [], ap, arith, contains, decimal, hex_16, inl, inr, length, map, none, ok,
  refl, some, ℕ, ◌+++◌, ◌||◌, ◌∷◌, ◌≡◌, ◌≢◌,
}
use unified_api.Dataset.{Dataset}
use unified_api.CacheEntry.{CacheEntry, new, set_ttl}
use unified_api.CacheEntry.Hosts.{update_host, update_host_aged}
use unified_api.CacheEntry.Merge.{merge_dataset}
use unified_api.CacheEntry.Serialized.{SerializedJson, serialize, serialized_json, set_cell}
use unified_api.MemoryCache.{MemoryCache, get}
use unified_api.MemoryCache.Atomic.{
  Call, HostWrite, get-run, hosts_of, merges, outcome, removes, run, updates, updates_lose_nothing,
  write_call,
}
use unified_api.Tests.{entry, env, inventory, later, partial_inventory}

-- Two sources' entries, and one more write until the counter of writes wraps around.
abbrev cache : MemoryCache
cache = record {
  store = ("estate", entry) ∷ ("lab", entry) ∷ [];
  generation = 18446744073709551615;
}

abbrev lab_write : Call
lab_write = updates "lab" (update_host later "web9" [])

abbrev calls : List Call
calls =
    lab_write
    ∷ merges later "estate" partial_inventory 60 (λ e d. merge_dataset later d e)
    ∷ removes "lab"
    ∷ []

get-run_example :
    get "estate" (run calls cache) ≡ some (merge_dataset later partial_inventory (set_ttl 60 entry))
unfolding outcome HashMap.get
get-run_example = get-run calls cache "estate"

abbrev host_writes : List HostWrite
host_writes =
    record { env = later; host = "web8"; vars = [] }
    ∷ record { env = later; host = "web9"; vars = [] }
    ∷ []

updates_lose_nothing_example :
    (e' : CacheEntry) × (get "estate" (run (map (write_call "estate") host_writes) cache) ≡ some e')
    × ((h : String)
        → HashMap.contains_key h e'.dataset.hostvars
          ≡ (contains h ("web8" ∷ "web9" ∷ []) || HashMap.contains_key h inventory.hostvars))
unfolding HashMap.get hosts_of new
updates_lose_nothing_example = updates_lose_nothing "estate" host_writes cache entry refl

-- A serializer that writes one byte for each host, and a checksum that adds nothing up.
abbrev to_vec : Dataset → Result (List ℕ)
to_vec d = ok (map (λ _. 104) d.hostvars)

abbrev finish : List ℕ → ℕ
finish bytes = length bytes

abbrev json_of : Dataset → SerializedJson
json_of d = record {
  bytes = map (λ _. 104) d.hostvars;
  etag = "\"" +++ hex_16 (length d.hostvars) +++ "-" +++ decimal (length d.hostvars) +++ "\"";
}

-- An entry, a clone of it that a host is written to, and the publication of the first's JSON.
abbrev changed : CacheEntry
changed = update_host later "web9" [] entry

abbrev begun : System
begun = record { live = entry ∷ []; cells = λ _. none }

abbrev cloned : System
cloned = record { live = changed ∷ entry ∷ []; cells = λ _. none }

abbrev published : System
published = record {
  live = changed ∷ entry ∷ [];
  cells = set_cell 7 (json_of inventory) (λ _. none);
}

begun_reached : Reach to_vec finish (nothing to_vec finish) begun
unfolding new
begun_reached =
    next here (creates env entry (record { empty = refl; unshared = λ e m. elim m [ ] }) refl refl)

clone_unshared : (e : CacheEntry) → Memᴰ e begun.live → e.serialized ≢ later.cell
unfolding new
clone_unshared e m same = elim (mem_cases m) [
  | inl p ↦ ground (arith, ap (λ (c : CacheEntry). c.serialized) p, same)
  | inr q ↦ elim q [ ]
]

cloned_reached : Reach to_vec finish (nothing to_vec finish) cloned
unfolding perform update_host_aged
cloned_reached = next begun_reached (
    writes later (put_host "web9" [] 0) entry (record { empty = refl; unshared = clone_unshared })
      (Memᴰ.head refl) refl)

published_reached : Reach to_vec finish cloned published
unfolding serialize new
published_reached =
    next here (publishes entry (json_of inventory) (Memᴰ.tail (Memᴰ.head refl)) refl refl)

-- A reader of the first entry that looked before the publication, and writes after it.
serialized_json_is_current_example :
    (serialized_json to_vec finish entry cloned.cells published.cells).0
    ≡ some (serialize to_vec finish inventory)
unfolding new
serialized_json_is_current_example =
    serialized_json_is_current to_vec finish cloned published entry cloned_reached published_reached
      (Memᴰ.tail (Memᴰ.head refl))
