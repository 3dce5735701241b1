-- ===== src/StaticInventory/Listed.antt =====
-- Every host that a group lists is in the dataset.
use unified_api.HashMap
use unified_api.HashMap.{HashMap, contains_key}
use unified_api.HashMap.Laws.{get-insert, get-remove, get-upsert}
use unified_api.Dataset.{HostVars}
use unified_api.Json.{Fields, Value, end, entries, field, null, object}
use unified_api.StaticInventory.Reading.{
  GroupInfo, Walk, add_hosts, add_vars, has_bracket, note_child, note_host, put_group, refused_key,
  take_group, walk_children, walk_group, walk_key, walk_keys, walk_leaf,
}
use unified_api.StaticInventory.Vars.{yaml_vars}
use unified_api.Prelude.{
  Bool, Bool-cases, Option-cases, Result, String, [], arith, contains, contains-append, eq_iff, err,
  false, if◌then◌else◌, inl, inr, map_err, ok, ok-injective, refl, some, subst, sym, true,
  value_before, ◌+++◌, ◌++◌, ◌==◌, ◌∙◌, ◌∷◌, ◌≡◌,
}

-- the hosts of the group are noted
abbrev pub Known : Walk → GroupInfo → Type 0
Known walk info =
    (x : String) → contains x info.hosts ≡ true → contains_key x walk.host_memberships ≡ true

unfoldable pub Sound : Walk → Type 0
Sound walk =
    (name : String) (info : GroupInfo) → HashMap.get name walk.groups ≡ some info → Known walk info

-- no host is lost
abbrev pub Grows : Walk → Walk → Type 0
Grows before walk =
    (x : String)
    → contains_key x before.host_memberships ≡ true
    → contains_key x walk.host_memberships ≡ true

-- what the walk has at a group that it came to with `before`
abbrev pub Good : Walk → GroupInfo × Walk → Type 0
Good before state = Known state.1 state.0 × Sound state.1 × Grows before state.1

Good-take_group : (name : String) (walk : Walk) → Sound walk → Good walk (take_group name walk)
unfolding Sound take_group contains
Good-take_group name walk sound = (
  (elim (Option-cases (HashMap.get name walk.groups)) [
    | inl e ↦ rw e (λ x h. absurd (ground (arith, h)))
    | inr (info, e) ↦ rw e (sound name info e)
  ]),
  (λ g info h. sound g info (ground (arith, h, get-remove g name walk.groups))),
  (λ _ h. h),
)

Sound-put_group :
    (before : Walk) (name : String) (state : GroupInfo × Walk)
    → Good before state
    → Sound (put_group name state) × Grows before (put_group name state)
unfolding Sound put_group
Sound-put_group before name (info, walk) (known, sound, grows) = (
  (λ g i h. elim (Bool-cases (name == g)) [
    | inl e ↦
        let written : some info ≡ some i =
          sym (get-insert g name info walk.groups ∙ rw e refl) ∙ h in
        let is_info : info ≡ i = cc in subst (λ j. Known walk j) is_info known
    | inr e ↦ sound g i (ground (arith, h, e, get-insert g name info walk.groups))
  ]),
  grows,
)

Good-note_host :
    (before : Walk) (group host : String) (vars : HostVars) (state : GroupInfo × Walk)
    → Good before state
    → Good before (note_host group host vars state)
unfolding Sound note_host contains
Good-note_host before group host vars (info, walk) (known, sound, grows) =
    let kept : (x : String)
        → contains_key x walk.host_memberships ≡ true
        → contains_key x (HashMap.upsert host [] (λ gs. gs ++ group ∷ []) walk.host_memberships)
          ≡ true =
      λ x h.
        ground (arith, h, get-upsert x host [] (λ gs. gs ++ group ∷ []) walk.host_memberships) in
    (
      (λ x h. ground (
        arith,
        h,
        known x,
        eq_iff host x,
        contains-append x info.hosts (host ∷ []),
        get-upsert x host [] (λ gs. gs ++ group ∷ []) walk.host_memberships,
      )),
      (λ g i e x h. kept x (sound g i e x h)),
      (λ x h. kept x (grows x h)),
    )

Good-add_hosts :
    (before : Walk) (group : String) (hosts : HashMap Value) (state after : GroupInfo × Walk)
    → add_hosts group hosts state ≡ ok after
    → Good before state
    → Good before after
unfolding add_hosts
Good-add_hosts before group [] state after run good = subst (Good before) (ok-injective run) good
Good-add_hosts before group ((host, host_vars) ∷ hosts) state after run good =
    elim (Bool-cases (has_bracket host)) [
      | inl e ↦ let stopped = rw e at run in absurd cc
      | inr e ↦
          let (vars, _, rest) =
            value_before (map_err (λ m. "host '" +++ host +++ "': " +++ m) (yaml_vars host_vars)) _
              after (rw e at run) in
          Good-add_hosts before group hosts (note_host group host vars state) after rest
            (Good-note_host before group host vars state good)
    ]

Good-add_vars :
    (before : Walk) (group : String) (value : Value) (state after : GroupInfo × Walk)
    → add_vars group value state ≡ ok after
    → Good before state
    → Good before after
unfolding add_vars
Good-add_vars before group value (info, walk) after run (known, sound, grows) =
    let (vars, _, rest) =
      value_before (map_err (λ m. "group '" +++ group +++ "': " +++ m) (yaml_vars value)) _ after
        run in
    subst (Good before) (ok-injective rest) (known, sound, grows)

-- one of four runs, by three tests
by_test {ℓ κ} :
    {A : Type ℓ} {P : Type κ} (b c d : Bool) (r s t u : Result A) (a : A)
    → (r ≡ ok a → P)
    → (s ≡ ok a → P)
    → (t ≡ ok a → P)
    → (u ≡ ok a → P)
    → (if b then r else if c then s else if d then t else u) ≡ ok a
    → P
by_test true c d r s t u a f g h k run = f run
by_test false true d r s t u a f g h k run = g run
by_test false false true r s t u a f g h k run = h run
by_test false false false r s t u a f g h k run = k run

never : {A : Type 0} {P : Type 0} (message : String) (a : A) → err message ≡ ok a → P
never message a run = absurd cc

Good-walk_leaf :
    (before : Walk) (group key : String) (value : Value) (state after : GroupInfo × Walk)
    → walk_leaf group key value state ≡ ok after
    → Good before state
    → Good before after
unfolding walk_leaf refused_key
Good-walk_leaf before group key value state after run good =
    by_test (key == "hosts") (key == "children") (key == "vars") _ _ _ _ after (never _ after)
      (never _ after) (λ h. Good-add_vars before group value state after h good) (never _ after) run

mutual
  unfolding walk_group note_child refused_key

  pub Good-walk_group :
      (name : String) (value : Value) (walk after : Walk)
      → walk_group name value walk ≡ ok after
      → Sound walk
      → Sound after × Grows walk after
  Good-walk_group name null walk after run sound =
      subst (λ w. Sound w × Grows walk w) (ok-injective run)
        (Sound-put_group walk name (take_group name walk) (Good-take_group name walk sound))
  Good-walk_group name (object fs) walk after run sound =
      let (state, first, rest) =
        value_before (walk_keys name fs (take_group name walk)) _ after run in
      subst (λ w. Sound w × Grows walk w) (ok-injective rest)
        (Sound-put_group walk name state (
          Good-walk_keys walk name fs (take_group name walk) state first
            (Good-take_group name walk sound)))
  Good-walk_group name _ walk after run sound = never _ after run

  Good-walk_keys :
      (before : Walk) (group : String) (fs : Fields) (state after : GroupInfo × Walk)
      → walk_keys group fs state ≡ ok after
      → Good before state
      → Good before after
  Good-walk_keys before group end state after run good = subst (Good before) (ok-injective run) good
  Good-walk_keys before group (field key value fs) state after run good =
      let (next, first, rest) = value_before (walk_key group key value state) _ after run in
      Good-walk_keys before group fs next after rest
        (Good-walk_key before group key value state next first good)

  Good-walk_key :
      (before : Walk) (group key : String) (value : Value) (state after : GroupInfo × Walk)
      → walk_key group key value state ≡ ok after
      → Good before state
      → Good before after
  Good-walk_key before group key (object fs) state after run good =
      by_test (key == "hosts") (key == "children") (key == "vars") _ _ _ _ after
        (λ h. Good-add_hosts before group (entries fs) state after h good)
        (λ h. Good-walk_children before fs state after h good)
        (λ h. Good-add_vars before group (object fs) state after h good) (never _ after) run
  Good-walk_key before group key value state after run good =
      Good-walk_leaf before group key value state after run good

  Good-walk_children :
      (before : Walk) (fs : Fields) (state after : GroupInfo × Walk)
      → walk_children fs state ≡ ok after
      → Good before state
      → Good before after
  Good-walk_children before end state after run good = subst (Good before) (ok-injective run) good
  Good-walk_children before (field child node fs) (info, walk) after run good =
      let (walked, first, rest) = value_before (walk_group child node walk) _ after run in
      let (known, sound, grows) = good in
      let (now_sound, now_grows) = Good-walk_group child node walk walked first sound in
      Good-walk_children before fs (note_child child info, walked) after rest
        ((λ x h. now_grows x (known x h)), now_sound, (λ x h. now_grows x (grows x h)))
