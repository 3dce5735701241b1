-- ===== src/CacheEntry/Cells.antt =====
-- Which cell an entry has after each write, and what a cell holds after it has been set.
use mathlib.Core.List.{Memᴰ}
use unified_api.Prelude.{
  Bool, List, Option-cases, Result, String, [], arith, inl, inr, refl, some, ℕ, ◌∷◌, ◌≡◌, ◌⊎◌,
}
use unified_api.Dataset.{Dataset}
use unified_api.CacheEntry.{CacheEntry, Env, mark_gathered, mark_partial, set_ttl}
use unified_api.CacheEntry.Hosts.{remove_host, restore_host, update_host_aged}
use unified_api.CacheEntry.Groups.{set_host_groups, update_group}
use unified_api.CacheEntry.Merge.{
  drop_hosts, merge_group_var_fields, merge_hostvar_fields, merge_into,
}
use unified_api.CacheEntry.Writes.{
  Write, adopt_ttl, drop_host, gathered, merge, partial, patch_group_vars, patch_vars, perform,
  put_back, put_host, set_groups, update_one_group,
}
use unified_api.CacheEntry.Serialized.{Cells, SerializedJson, set_cell}
use unified_api.CacheEntry.Sharing.{Reach, Step, System, creates, here, next, publishes, writes}

pub cell-drop_hosts :
    (hosts : List String) (e : CacheEntry) → (drop_hosts hosts e).serialized ≡ e.serialized
unfolding drop_hosts
cell-drop_hosts [] e = refl
cell-drop_hosts (h ∷ hosts) e = cell-drop_hosts hosts _

pub cell-merge_into :
    (env : Env) (d : Dataset) (restamp : Bool) (e : CacheEntry)
    → (merge_into env d restamp e).serialized ≡ env.cell
unfolding merge_into
cell-merge_into env d restamp e = cell-drop_hosts d.remove_hosts _

-- A write leaves the cell only if it leaves the dataset.
pub perform_cell :
    (env : Env) (w : Write) (e : CacheEntry)
    → ((perform env w e).serialized ≡ env.cell)
      ⊎ (((perform env w e).serialized ≡ e.serialized) × ((perform env w e).dataset ≡ e.dataset))
unfolding perform update_host_aged restore_host remove_host set_host_groups update_group
    merge_hostvar_fields merge_group_var_fields set_ttl mark_partial mark_gathered
perform_cell env (put_host h vars age) e = inl refl
perform_cell env (put_back r) e = inl refl
perform_cell env (drop_host h) e = inl refl
perform_cell env (set_groups h names) e = inl refl
perform_cell env (update_one_group g d) e = inl refl
perform_cell env (patch_vars d) e = inl refl
perform_cell env (patch_group_vars d) e = inl refl
perform_cell env (merge restamp d) e = inl (cell-merge_into env d restamp e)
perform_cell env (adopt_ttl ttl) e = inr (refl, refl)
perform_cell env partial e = inr (refl, refl)
perform_cell env gathered e = inr (refl, refl)

pub mem_cases : {a e : CacheEntry} {l : List CacheEntry} → Memᴰ a (e ∷ l) → (a ≡ e) ⊎ Memᴰ a l
mem_cases (Memᴰ.head p) = inl p
mem_cases (Memᴰ.tail m) = inr m

pub set_cell_cases :
    (address x : ℕ) (json json' : SerializedJson) (cells : Cells)
    → set_cell address json cells x ≡ some json'
    → (cells x ≡ some json') ⊎ ((x ≡ address) × (json' ≡ json))
unfolding set_cell
set_cell_cases address x json json' cells h = ground (arith, Option-cases (cells x))

pub set_cell_self :
    (address : ℕ) (json : SerializedJson) (cells : Cells)
    → (j : SerializedJson) × (set_cell address json cells address ≡ some j)
unfolding set_cell
set_cell_self address json cells = elim (Option-cases (cells address)) [
  | inl empty ↦ (json, ground arith)
  | inr (j, written) ↦ (j, ground arith)
]

pub Step-live :
    {to_vec : Dataset → Result (List ℕ)} {finish : List ℕ → ℕ} {s t : System} {e : CacheEntry}
    → Step to_vec finish s t
    → Memᴰ e s.live
    → Memᴰ e t.live
Step-live {e = e} (creates env _ u at now) m = rw now (Memᴰ.tail m)
Step-live {e = e} (writes env w _ u _ now) m = rw now (Memᴰ.tail m)
Step-live {e = e} (publishes _ json _ p now) m = rw now m

-- an entry that is alive stays so
pub Reach-live :
    {to_vec : Dataset → Result (List ℕ)} {finish : List ℕ → ℕ} {s t : System} {e : CacheEntry}
    → Memᴰ e s.live
    → Reach to_vec finish s t
    → Memᴰ e t.live
Reach-live m here = m
Reach-live m (next r st) = Step-live st (Reach-live m r)
