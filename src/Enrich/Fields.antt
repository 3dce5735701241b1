-- ===== src/Enrich/Fields.antt =====
-- What of a source's variables an enricher takes.
use unified_api.HashMap
use unified_api.HashMap.{HashMap}
use unified_api.HashMap.Laws.{distinct-insert, get-insert}
use unified_api.Dataset.{HostVars}
use unified_api.Enrich.{Enricher, admits, partial_hostvars, selected, wanted}
use unified_api.CacheEntry.Enriching.{var_of}
use unified_api.Prelude.{
  Bool-cases, List, List-cases, Option, Option-cases, String, [], ap, arith, contains, distinct,
  eq_iff, if◌then◌else◌, inl, inr, is_empty, map_or, none, refl, some, sym, true, ◌&&◌, ◌==◌, ◌∙◌,
  ◌∷◌, ◌≡◌,
}

get-wanted :
    (k : String) (fields excluded : Option (List String)) (vars : HostVars)
    → HashMap.get k (wanted fields excluded vars)
      ≡ (if admits k fields excluded then HashMap.get k vars else none)
unfolding wanted HashMap.get
get-wanted k fields excluded [] = ground arith
get-wanted k fields excluded ((j, v) ∷ vars) = elim (Bool-cases (admits j fields excluded)) [
  | inl e ↦ rw e (
      get-insert k j v (wanted fields excluded vars) ∙ elim (Bool-cases (j == k)) [
        | inl f ↦ rw f (rw (← ((eq_iff j k).0 f)) (rw e refl))
        | inr f ↦ rw f (get-wanted k fields excluded vars)
      ])
  | inr e ↦ rw e (
      get-wanted k fields excluded vars ∙ elim (Bool-cases (j == k)) [
        | inl f ↦ rw f (rw (← ((eq_iff j k).0 f)) (rw e refl))
        | inr f ↦ rw f refl
      ])
]

pub get-selected :
    (k : String) (vars : HostVars) (fields excluded : Option (List String))
    → HashMap.get k (selected vars fields excluded)
      ≡ (if admits k fields excluded then HashMap.get k vars else none)
unfolding selected admits
get-selected k vars none none = refl
get-selected k vars (some f) none = get-wanted k (some f) none vars
get-selected k vars none (some x) = get-wanted k none (some x) vars
get-selected k vars (some f) (some x) = get-wanted k (some f) (some x) vars

-- one host of the partial dataset
abbrev brought : Enricher → Option HostVars → Option HostVars
brought enricher none = none
brought enricher (some vars) =
    if is_empty (selected vars enricher.fields enricher.fields_excluded)
    then none
    else some (selected vars enricher.fields enricher.fields_excluded)

get-partial_hostvars :
    (x : String) (enricher : Enricher) (source : HashMap HostVars) (hosts : List String)
    → HashMap.get x (partial_hostvars enricher source hosts)
      ≡ (if contains x hosts then brought enricher (HashMap.get x source) else none)
unfolding partial_hostvars contains HashMap.get
get-partial_hostvars x enricher source [] = refl
get-partial_hostvars x enricher source (h ∷ hosts) = elim (Option-cases (HashMap.get h source)) [
  | inl e ↦
      rw (e, partial_hostvars)
        (get-partial_hostvars x enricher source hosts ∙ ground (arith, e, eq_iff h x))
  | inr (vars, e) ↦
      elim (Bool-cases (is_empty (selected vars enricher.fields enricher.fields_excluded))) [
        | inl f ↦
            rw (e, partial_hostvars)
              (rw f
                (get-partial_hostvars x enricher source hosts ∙ ground (arith, e, f, eq_iff h x)))
        | inr f ↦
            rw (e, partial_hostvars)
              (rw f (
                get-insert x h (selected vars enricher.fields enricher.fields_excluded)
                  (partial_hostvars enricher source hosts)
                ∙ ground (arith, get-partial_hostvars x enricher source hosts, e, f, eq_iff h x)))
      ]
]

pub distinct-partial_hostvars :
    (enricher : Enricher) (source : HashMap HostVars) (hosts : List String)
    → distinct (HashMap.keys (partial_hostvars enricher source hosts)) ≡ true
unfolding partial_hostvars distinct
distinct-partial_hostvars enricher source [] = refl
distinct-partial_hostvars enricher source (h ∷ hosts) = elim (Option-cases (HashMap.get h source)) [
  | inl e ↦ rw (e, partial_hostvars) (distinct-partial_hostvars enricher source hosts)
  | inr (vars, e) ↦
      elim (Bool-cases (is_empty (selected vars enricher.fields enricher.fields_excluded))) [
        | inl f ↦ rw (e, partial_hostvars) (rw f (distinct-partial_hostvars enricher source hosts))
        | inr f ↦
            rw (e, partial_hostvars)
              (rw f (
                distinct-insert h _ (partial_hostvars enricher source hosts)
                  (distinct-partial_hostvars enricher source hosts)))
      ]
]

-- one variable of a host that the target has
brought_var :
    (k : String) (enricher : Enricher) (o : Option HostVars)
    → map_or none (HashMap.get k) (brought enricher o) ≡ (
        if admits k enricher.fields enricher.fields_excluded
        then map_or none (HashMap.get k) o
        else none)
unfolding HashMap.get
brought_var k enricher none = ground arith
brought_var k enricher (some vars) =
    elim (List-cases (selected vars enricher.fields enricher.fields_excluded)) [
      | inl e ↦ rw e (
          ap (HashMap.get k) (sym e) ∙ get-selected k vars enricher.fields enricher.fields_excluded)
      | inr (p, rest, e) ↦ rw e (
          ap (HashMap.get k) (sym e) ∙ get-selected k vars enricher.fields enricher.fields_excluded)
    ]

pub var_of-partial_hostvars :
    (x k : String) (enricher : Enricher) (source : HashMap HostVars) (hosts : List String)
    → var_of x k (partial_hostvars enricher source hosts) ≡ (
        if contains x hosts && admits k enricher.fields enricher.fields_excluded
        then var_of x k source
        else none)
var_of-partial_hostvars x k enricher source hosts =
    ap (map_or none (HashMap.get k)) (get-partial_hostvars x enricher source hosts)
    ∙ elim (Bool-cases (contains x hosts)) [
      | inl e ↦ rw e (brought_var k enricher (HashMap.get x source))
      | inr e ↦ rw e refl
    ]
