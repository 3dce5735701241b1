-- ===== src/CacheEntry/Writes.antt =====
-- Every mutating operation of an entry, as one type of calls, and sequences of them. Each call has
-- its own clock and cell.
use unified_api.Prelude.{Bool, List, String, [], ℕ, ◌∷◌}
use unified_api.Dataset.{Dataset, HostVars}
use unified_api.CacheEntry.{CacheEntry, Env, mark_gathered, mark_partial, set_ttl}
use unified_api.CacheEntry.Hosts.{RetainedHost, remove_host, restore_host, update_host_aged}
use unified_api.CacheEntry.Groups.{set_host_groups, update_group}
use unified_api.CacheEntry.Merge.{merge_group_var_fields, merge_hostvar_fields, merge_into}

pub data Write : Type 0 where
  put_host : String → HostVars → ℕ → Write
  put_back : RetainedHost → Write
  drop_host : String → Write
  set_groups : String → List String → Write
  update_one_group : String → Dataset → Write
  patch_vars : Dataset → Write
  patch_group_vars : Dataset → Write
  merge : Bool → Dataset → Write
  adopt_ttl : ℕ → Write
  partial : Write
  gathered : Write

unfoldable pub perform : Env → Write → CacheEntry → CacheEntry
perform env (put_host h vars age) e = update_host_aged env h vars age e
perform env (put_back r) e = restore_host env r e
perform env (drop_host h) e = remove_host env h e
perform env (set_groups h names) e = set_host_groups env h names e
perform env (update_one_group g d) e = update_group env g d e
perform env (patch_vars d) e = merge_hostvar_fields env d e
perform env (patch_group_vars d) e = merge_group_var_fields env d e
perform env (merge restamp d) e = merge_into env d restamp e
perform env (adopt_ttl ttl) e = set_ttl ttl e
perform env partial e = mark_partial e
perform env gathered e = mark_gathered env e

unfoldable pub perform_all : List (Env × Write) → CacheEntry → CacheEntry
perform_all [] e = e
perform_all ((env, w) ∷ ws) e = perform_all ws (perform env w e)
