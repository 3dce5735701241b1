-- ===== src/CacheEntry/Stamps.antt =====
-- Every host has a timestamp and every timestamp a host, whatever is written to an entry.
use unified_api.HashMap
use unified_api.Prelude.{
  Bool, List, Option-cases, String, [], arith, eq_iff, inl, inr, refl, sym, ℕ, ◌||◌, ◌∙◌, ◌∷◌, ◌≡◌,
}
use unified_api.HashMap.{HashMap, contains_key, extend, get}
use unified_api.HashMap.Laws.{contains_key-collect, get-extend, get-insert, get-modify, get-remove}
use unified_api.Dataset.{Dataset, HostVars}
use unified_api.CacheEntry.{CacheEntry, Env, mark_gathered, mark_partial, new, set_ttl}
use unified_api.CacheEntry.Hosts.{backdated, remove_host, restore_host, update_host_aged}
use unified_api.CacheEntry.Groups.{
  hosts_in, refresh_host, refresh_hosts, set_host_groups, update_group,
}
use unified_api.CacheEntry.Merge.{
  drop_hosts, merge_group_var_fields, merge_hostvar_fields, merge_into, patch_hosts, stamp_hosts,
}
use unified_api.CacheEntry.Writes.{
  Write, adopt_ttl, drop_host, gathered, merge, partial, patch_group_vars, patch_vars, perform,
  perform_all, put_back, put_host, set_groups, update_one_group,
}

pub record IsStamped (e : CacheEntry) : Type 0 where
  pub same_hosts :
      (h : String) → contains_key h e.host_timestamps ≡ contains_key h e.dataset.hostvars

pub IsStamped-new : (env : Env) (d : Dataset) (ttl : ℕ) → IsStamped (new env d ttl)
unfolding new
IsStamped-new env d ttl = record { same_hosts = λ h. contains_key-collect env.now h d.hostvars }

module _ {e : CacheEntry} (s : IsStamped e) (env : Env) where
  IsStamped-update_host_aged :
      (h : String) (vars : HostVars) (age : ℕ) → IsStamped (update_host_aged env h vars age e)
  unfolding update_host_aged
  IsStamped-update_host_aged h vars age = record {
    same_hosts = λ x. ground (
      arith,
      get-insert x h vars e.dataset.hostvars,
      get-insert x h (backdated env.now age) e.host_timestamps,
      s.same_hosts x,
    );
  }

  IsStamped-remove_host : (h : String) → IsStamped (remove_host env h e)
  unfolding remove_host
  IsStamped-remove_host h = record {
    same_hosts = λ x. ground (
      arith,
      get-remove x h e.dataset.hostvars,
      get-remove x h e.host_timestamps,
      s.same_hosts x,
    );
  }

-- the hosts that a patch leaves are those that were there
contains_key-patch_hosts :
    (x : String) (hostvars came : HashMap HostVars)
    → contains_key x (patch_hosts hostvars came) ≡ contains_key x hostvars
unfolding patch_hosts
contains_key-patch_hosts x hostvars [] = refl
contains_key-patch_hosts x hostvars ((h, vars) ∷ came) = ground (
  arith,
  get-modify x h (λ existing. HashMap.extend existing vars) (patch_hosts hostvars came),
  contains_key-patch_hosts x hostvars came,
)

contains_key-stamp_hosts :
    (now : ℕ) (restamp : Bool) (x : String) (came : HashMap HostVars) (timestamps : HashMap ℕ)
    → contains_key x (stamp_hosts now restamp came timestamps)
      ≡ (contains_key x came || contains_key x timestamps)
unfolding stamp_hosts HashMap.get
contains_key-stamp_hosts now restamp x [] timestamps = refl
contains_key-stamp_hosts now restamp x ((h, _) ∷ came) timestamps = ground (
  arith,
  get-insert x h now (stamp_hosts now restamp came timestamps),
  contains_key-stamp_hosts now restamp x came timestamps,
  eq_iff h x,
)

IsStamped-drop_hosts :
    (hosts : List String) {e : CacheEntry} → IsStamped e → IsStamped (drop_hosts hosts e)
unfolding drop_hosts
IsStamped-drop_hosts [] s = s
IsStamped-drop_hosts (h ∷ hosts) {e} s = IsStamped-drop_hosts hosts (record {
  same_hosts = λ x.
      ground (
        arith,
        get-remove x h e.dataset.hostvars,
        get-remove x h e.host_timestamps,
        s.same_hosts x,
      );
})

IsStamped-merge_into :
    {e : CacheEntry} (env : Env) (d : Dataset) (restamp : Bool)
    → IsStamped e
    → IsStamped (merge_into env d restamp e)
unfolding merge_into
IsStamped-merge_into {e} env d restamp s = IsStamped-drop_hosts d.remove_hosts (record {
  same_hosts = λ x. ground (
    arith,
    contains_key-stamp_hosts env.now restamp x d.hostvars e.host_timestamps,
    get-extend x e.dataset.hostvars d.hostvars,
    s.same_hosts x,
  );
})

refresh_host_stamped :
    (now : ℕ) (came : HashMap HostVars) (h x : String) (s : HashMap HostVars × HashMap ℕ)
    → contains_key x s.1 ≡ contains_key x s.0
    → contains_key x (refresh_host now came h s).1 ≡ contains_key x (refresh_host now came h s).0
unfolding refresh_host
refresh_host_stamped now came h x s p = elim (Option-cases (HashMap.get h came)) [
  | inl e ↦ rw (e, refresh_host) p
  | inr (vars, e) ↦
      rw (e, refresh_host) (ground (arith, get-insert x h vars s.0, get-insert x h now s.1))
]

refresh_hosts_stamped :
    (now : ℕ) (came : HashMap HostVars) (hosts : List String) (s : HashMap HostVars × HashMap ℕ)
    (x : String)
    → contains_key x s.1 ≡ contains_key x s.0
    → contains_key x (refresh_hosts now came hosts s).1
      ≡ contains_key x (refresh_hosts now came hosts s).0
unfolding refresh_hosts
refresh_hosts_stamped now came [] s x p = p
refresh_hosts_stamped now came (h ∷ hosts) s x p =
    refresh_hosts_stamped now came hosts (refresh_host now came h s) x
      (refresh_host_stamped now came h x s p)

IsStamped-perform :
    {e : CacheEntry} (env : Env) (w : Write) → IsStamped e → IsStamped (perform env w e)
unfolding perform
IsStamped-perform env (put_host h vars age) s = IsStamped-update_host_aged s env h vars age
IsStamped-perform env (put_back r) s =
    unfold restore_host in
    record {
      same_hosts = (IsStamped-update_host_aged s env r.hostname r.vars r.age_seconds).same_hosts;
    }
IsStamped-perform env (drop_host h) s = IsStamped-remove_host s env h
IsStamped-perform env (set_groups h names) s =
    unfold set_host_groups in record { same_hosts = s.same_hosts }
IsStamped-perform {e} env (update_one_group g d) s =
    unfold update_group in
    record {
      same_hosts = λ x.
          refresh_hosts_stamped env.now d.hostvars (hosts_in g e.dataset.groups)
            (e.dataset.hostvars, e.host_timestamps) x (s.same_hosts x);
    }
IsStamped-perform {e} env (patch_vars d) s =
    unfold merge_hostvar_fields in
    record {
      same_hosts =
          λ x. s.same_hosts x ∙ sym (contains_key-patch_hosts x e.dataset.hostvars d.hostvars);
    }
IsStamped-perform env (patch_group_vars d) s =
    unfold merge_group_var_fields in record { same_hosts = s.same_hosts }
IsStamped-perform env (merge restamp d) s = IsStamped-merge_into env d restamp s
IsStamped-perform env (adopt_ttl ttl) s = unfold set_ttl in record { same_hosts = s.same_hosts }
IsStamped-perform env partial s = unfold mark_partial in record { same_hosts = s.same_hosts }
IsStamped-perform env gathered s = unfold mark_gathered in record { same_hosts = s.same_hosts }

IsStamped-perform_all :
    (ws : List (Env × Write)) {e : CacheEntry} → IsStamped e → IsStamped (perform_all ws e)
unfolding perform_all
IsStamped-perform_all [] s = s
IsStamped-perform_all ((env, w) ∷ ws) s = IsStamped-perform_all ws (IsStamped-perform env w s)

-- After whatever writes to a new entry, in whatever order and at whatever times, exactly the hosts
-- that have variables have a timestamp.
pub new-IsStamped :
    (env : Env) (d : Dataset) (ttl : ℕ) (ws : List (Env × Write))
    → IsStamped (perform_all ws (new env d ttl))
new-IsStamped env d ttl ws = IsStamped-perform_all ws (IsStamped-new env d ttl)
