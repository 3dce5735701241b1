-- ===== src/MemoryCache/Atomic.antt =====
-- What readers see of the cache, and that concurrent updates lose nothing.
use mathlib.Core.Option
use unified_api.HashMap
use unified_api.HashMap.{HashMap}
use unified_api.HashMap.Laws.{get-insert, get-modify, get-remove}
use unified_api.CacheEntry.Hosts.{update_host, update_host_aged}
use unified_api.Prelude.{
  Bool, List, Option, Option-cases, String, [], ap, arith, contains, eq_iff, eq_refl, false,
  if◌then◌else◌, inl, inr, map, none, refl, some, true, ℕ, ◌%◌, ◌+◌, ◌==◌, ◌^◌, ◌||◌, ◌∙◌, ◌∷◌, ◌≡◌,
}
use unified_api.Dataset.{Dataset, HostVars}
use unified_api.CacheEntry.{CacheEntry, Env, new, set_ttl}
use unified_api.MemoryCache.{MemoryCache, get, merge_or_insert, remove, set, update}

-- One locked call of one thread.
pub data Call : Type 0 where
  sets : String → CacheEntry → Call
  removes : String → Call
  updates : String → (CacheEntry → CacheEntry) → Call
  merges : Env → String → Dataset → ℕ → (CacheEntry → Dataset → CacheEntry) → Call

unfoldable pub call : Call → MemoryCache → MemoryCache
call (sets key entry) c = set key entry c
call (removes key) c = remove key c
call (updates key f) c = (update key f c).0
call (merges env key d ttl f) c = merge_or_insert env key d ttl f c

-- The entry that one key holds after a call, from the one that it held.
abbrev pub effect : String → Call → Option CacheEntry → Option CacheEntry
effect j (sets key entry) o = if key == j then some entry else o
effect j (removes key) o = if key == j then none else o
effect j (updates key f) o = if key == j then Option.map f o else o
effect j (merges env key d ttl f) o =
    if key == j
    then elim o [ none ↦ some (new env d ttl) | some e ↦ some (f (set_ttl ttl e) d) ]
    else o

-- Does the call change the store?
abbrev pub is_write : Call → MemoryCache → Bool
is_write (sets _ _) c = true
is_write (removes key) c = HashMap.contains_key key c.store
is_write (updates key _) c = HashMap.contains_key key c.store
is_write (merges _ _ _ _ _) c = true

-- Each call changes its own key alone, as the key's entry alone decides, and counts one write
-- exactly if the store is written.
pub call_lem :
    (k : Call) (c : MemoryCache) (j : String)
    → (get j (call k c) ≡ effect j k (get j c))
      × ((call k c).generation
          ≡ (if is_write k c then (c.generation + 1) % 2 ^ 64 else c.generation))
unfolding call set remove update merge_or_insert
call_lem (sets key entry) c j = (get-insert j key entry c.store, refl)
call_lem (removes key) c j = ground (arith, get-remove j key c.store, eq_iff key j)
call_lem (updates key f) c j = ground (arith, get-modify j key f c.store, eq_iff key j)
call_lem (merges env key d ttl f) c j = elim (Option-cases (HashMap.get key c.store)) [
  | inl e ↦
      rw (e, merge_or_insert)
        (ground (arith, get-insert j key (new env d ttl) c.store, eq_iff key j))
  | inr (old, e) ↦
      rw (e, merge_or_insert)
        (ground (arith, get-insert j key (f (set_ttl ttl old) d) c.store, eq_iff key j))
]

-- A call leaves every key but its own.
module _ (key j : String) (c : MemoryCache) (other : (key == j) ≡ false) where
  pub get-set_other : (e : CacheEntry) → get j (set key e c) ≡ get j c
  unfolding call
  get-set_other e = (call_lem (sets key e) c j).0 ∙ rw other refl

  pub get-update_other : (f : CacheEntry → CacheEntry) → get j (update key f c).0 ≡ get j c
  unfolding call
  get-update_other f = (call_lem (updates key f) c j).0 ∙ rw other refl

  pub get-merge_other :
      (env : Env) (d : Dataset) (ttl : ℕ) (f : CacheEntry → Dataset → CacheEntry)
      → get j (merge_or_insert env key d ttl f c) ≡ get j c
  unfolding call
  get-merge_other env d ttl f = (call_lem (merges env key d ttl f) c j).0 ∙ rw other refl

module _ (key : String) (c : MemoryCache) where
  pub get-set_self : (e : CacheEntry) → get key (set key e c) ≡ some e
  unfolding call
  get-set_self e = (call_lem (sets key e) c key).0 ∙ ground (arith, eq_refl key)

  pub get-update_self :
      (f : CacheEntry → CacheEntry) → get key (update key f c).0 ≡ Option.map f (get key c)
  unfolding call
  get-update_self f = (call_lem (updates key f) c key).0 ∙ ground (arith, eq_refl key)

  module _ (env : Env) (d : Dataset) (ttl : ℕ) (f : CacheEntry → Dataset → CacheEntry) where
    merged :
        get key (merge_or_insert env key d ttl f c)
        ≡ effect key (merges env key d ttl f) (get key c)
    unfolding call
    merged = (call_lem (merges env key d ttl f) c key).0

    pub get-merge_there :
        (e : CacheEntry)
        → get key c ≡ some e
        → get key (merge_or_insert env key d ttl f c) ≡ some (f (set_ttl ttl e) d)
    get-merge_there e there = merged ∙ rw (there, eq_refl key) refl

    pub get-merge_absent :
        get key c ≡ none → get key (merge_or_insert env key d ttl f c) ≡ some (new env d ttl)
    get-merge_absent gone = merged ∙ rw (gone, eq_refl key) refl

-- One interleaving of the calls of all threads.
unfoldable pub run : List Call → MemoryCache → MemoryCache
run [] c = c
run (k ∷ ks) c = run ks (call k c)

-- what the calls on one key make of its entry
unfoldable pub outcome : String → List Call → Option CacheEntry → Option CacheEntry
outcome j [] o = o
outcome j (k ∷ ks) o = outcome j ks (effect j k o)

-- Whatever the interleaving, an entry is what the calls on its key, in their order, make of the
-- entry that was there: no call on another key has a part in it, and no call is lost.
pub get-run :
    (ks : List Call) (c : MemoryCache) (j : String) → get j (run ks c) ≡ outcome j ks (get j c)
unfolding run outcome
get-run [] c j = refl
get-run (k ∷ ks) c j = get-run ks (call k c) j ∙ ap (outcome j ks) (call_lem k c j).0

-- A write of one host to one entry, as a sync of a single host makes it.
pub record HostWrite : Type 0 where
  pub env : Env
  pub host : String
  pub vars : HostVars

unfoldable pub write_call : String → HostWrite → Call
write_call key w = updates key (update_host w.env w.host w.vars)

unfoldable pub hosts_of : List HostWrite → List String
hosts_of [] = []
hosts_of (w ∷ ws) = w.host ∷ hosts_of ws

effect_update :
    (key : String) (f : CacheEntry → CacheEntry) (e : CacheEntry)
    → effect key (updates key f) (some e) ≡ some (f e)
effect_update key f e = ground (arith, eq_refl key)

written_hosts :
    (key : String) (ws : List HostWrite) (e : CacheEntry)
    → (e' : CacheEntry) × (outcome key (map (write_call key) ws) (some e) ≡ some e')
      × ((h : String)
          → HashMap.contains_key h e'.dataset.hostvars
            ≡ (contains h (hosts_of ws) || HashMap.contains_key h e.dataset.hostvars))
unfolding outcome write_call hosts_of contains update_host_aged
written_hosts key [] e = (e, refl, λ h. refl)
written_hosts key (w ∷ ws) e =
    let e₁ = update_host w.env w.host w.vars e in
    let (e', reached, hosts) = written_hosts key ws e₁ in
    (
      e',
      ap (outcome key (map (write_call key) ws))
            (effect_update key (update_host w.env w.host w.vars) e)
          ∙ reached,
      λ h. ground (arith, hosts h, get-insert h w.host w.vars e.dataset.hostvars),
    )

-- Concurrent updates of one entry lose no host: after any interleaving of any number of writes the
-- entry is there, and has exactly the hosts that it had and those that were written.
pub updates_lose_nothing :
    (key : String) (ws : List HostWrite) (c : MemoryCache) (e : CacheEntry)
    → get key c ≡ some e
    → (e' : CacheEntry) × (get key (run (map (write_call key) ws) c) ≡ some e')
      × ((h : String)
          → HashMap.contains_key h e'.dataset.hostvars
            ≡ (contains h (hosts_of ws) || HashMap.contains_key h e.dataset.hostvars))
updates_lose_nothing key ws c e there =
    let (e', reached, hosts) = written_hosts key ws e in
    (e', get-run (map (write_call key) ws) c key ∙ (rw there reached), hosts)
