-- ===== src/Credentials/Unmixed.antt =====
-- Where the values come from that a connector is handed.
use Prim.Native.String.{len}
use text.Mathlib.Text.{starts_with}
use unified_api.HashMap
use unified_api.HashMap.{HashMap, keys}
use unified_api.Credentials.{
  Delivered, Secrets, deliver, deliver_all, deliver_field, deliver_fields, fetch, holders_of,
  resolve_credentials, unseen,
}
use unified_api.HashMap.Laws.{get-insert}
use unified_api.Prelude.{
  Bool-cases, List, Option-cases, Result-cases, String, [], ap, arith, contains, distinct, eq_iff,
  eq_refl, false, inl, inr, ltb, map_or, nat_eq, not, ok, ok-injective, refl, some, subst, sym,
  true, unwrap_or, value_before, ℕ, ◌&&◌, ◌+++◌, ◌==◌, ◌||◌, ◌∙◌, ◌∷◌, ◌≡◌, ◌⊎◌,
}

-- the value is a field of a credential that the source names, under the field's name or that of
-- the credential and the field
From : Secrets → List String → String → String → String → String → Type 0
From secrets ids name id field value =
    (contains id ids ≡ true)
    × ((name ≡ field) ⊎ (name ≡ (secrets.delivery_id id +++ "_") +++ field))
    × ((fields : HashMap String) × (secrets.resolve id ≡ ok fields)
        × (HashMap.get field fields ≡ some value))

-- Each name that is delivered has the value of the field that its variable is held by.
Held : Secrets → List String → Delivered → Type 0
Held secrets ids d =
    (name value : String)
    → HashMap.get name d.all ≡ some value
    → (id : String) × ((field : String) × (HashMap.get (secrets.variable_part name) d.origin
          ≡ some (id, field))
        × From secrets ids name id field value)

-- each entry of the second is what a lookup in the first finds
Within : HashMap String → HashMap String → Type 0
Within whole [] = Unit
Within whole ((k, v) ∷ m) = (HashMap.get k whole ≡ some v) × Within whole m

Within-extended :
    (whole m : HashMap String) (j w : String)
    → contains j (keys m) ≡ false
    → Within whole m
    → Within ((j, w) ∷ whole) m
unfolding Within contains HashMap.get
Within-extended whole [] j w a within = tt
Within-extended whole ((k, v) ∷ m) j w a (here, within) = (
  ground (arith, a, here, eq_iff k j, eq_iff j k),
  Within-extended whole m j w (ground (arith, a)) within,
)

Within-distinct : (m : HashMap String) → distinct (keys m) ≡ true → Within m m
unfolding Within distinct HashMap.get
Within-distinct [] h = tt
Within-distinct ((k, v) ∷ m) h = (
  ground (arith, eq_refl k),
  Within-extended m m k v (ground (arith, h)) (Within-distinct m (ground (arith, h))),
)

-- what a delivery writes
abbrev after : Secrets → String → String → String → String → Delivered → Delivered
after secrets name value id field d = record {
  origin = HashMap.insert (secrets.variable_part name) (id, field) d.origin;
  all = HashMap.insert name value d.all;
}

-- what a variable is held by, after another is, or after it is again
stays :
    (variable other : String) (holder held : String × String) (m : HashMap (String × String))
    → map_or holder (λ o. o) (HashMap.get variable m) ≡ holder
    → HashMap.get other m ≡ some held
    → HashMap.get other (HashMap.insert variable holder m) ≡ some held
stays variable other holder held m alone there =
    let writes = get-insert other variable holder m in
    elim (Bool-cases (variable == other)) [
      | inl e ↦
          let same : variable ≡ other = (eq_iff variable other).0 e in
          let is_held : held ≡ holder =
            ap (map_or holder (λ o. o)) (sym (ap (λ v. HashMap.get v m) same ∙ there)) ∙ alone in
          writes ∙ rw e (ap some (sym is_held))
      | inr e ↦ writes ∙ rw e there
    ]

-- the field is written where no other holds its variable
Held-after :
    (secrets : Secrets) (ids : List String) (name value id field : String) (d : Delivered)
    → map_or (id, field) (λ o. o) (HashMap.get (secrets.variable_part name) d.origin) ≡ (id, field)
    → From secrets ids name id field value
    → Held secrets ids d
    → Held secrets ids (after secrets name value id field d)
unfolding Held
Held-after secrets ids name value id field d alone from held other_name other there =
    let variable = secrets.variable_part name in
    let writes = get-insert (secrets.variable_part other_name) variable (id, field) d.origin in
    let written = get-insert other_name name value d.all in
    elim (Bool-cases (name == other_name)) [
      | inl e ↦
          let is_name : name ≡ other_name = (eq_iff name other_name).0 e in
          let same : secrets.variable_part name ≡ secrets.variable_part other_name =
            ap secrets.variable_part is_name in
          let is_value : value ≡ other = ground (arith, there, e, written) in
          (
            id,
            (
              field,
              ground (arith, writes, same, eq_iff variable (secrets.variable_part other_name)),
              subst (λ n. From secrets ids n id field other) is_name
                  (subst (From secrets ids name id field) is_value from),
            ),
          )
      | inr e ↦
          let before : HashMap.get other_name d.all ≡ some other =
            ground (arith, there, e, written) in
          let (holder, (held_field, at_origin, from_there)) = held other_name other before in
          (
            holder,
            (
              held_field,
              stays variable (secrets.variable_part other_name) (id, field) (holder, held_field)
                  d.origin alone at_origin,
              from_there,
            ),
          )
    ]

deliver-Held :
    (secrets : Secrets) (ids : List String) (name value id field : String) (d d' : Delivered)
    → deliver secrets name value id field d ≡ ok d'
    → From secrets ids name id field value
    → Held secrets ids d
    → Held secrets ids d'
unfolding deliver
deliver-Held secrets ids name value id field d d' run from held =
    elim (Option-cases (HashMap.get (secrets.variable_part name) d.origin)) [
      | inl e ↦
          let done : deliver secrets name value id field d
              ≡ ok (after secrets name value id field d) =
            rw (deliver, e) refl in
          subst (Held secrets ids) (ok-injective (sym done ∙ run))
            (Held-after secrets ids name value id field d (rw e refl) from held)
      | inr ((other, other_field), e) ↦ elim (Bool-cases (other == id && other_field == field)) [
        | inl f ↦
            let same_id : other ≡ id = (eq_iff other id).0 (ground (arith, f)) in
            let same_field : other_field ≡ field =
              (eq_iff other_field field).0 (ground (arith, f)) in
            let done : deliver secrets name value id field d
                ≡ ok (after secrets name value id field d) =
              rw (deliver, e, same_id, same_field, eq_refl id, eq_refl field) refl in
            subst (Held secrets ids) (ok-injective (sym done ∙ run)) (
              Held-after secrets ids name value id field d (rw (e, same_id, same_field) refl) from
                held)
        | inr f ↦
            let clash : (not (other == id) || not (other_field == field)) ≡ true =
              ground (arith, f) in
            let stopped = rw (deliver, e, clash) at run in absurd cc
      ]
    ]

deliver_field-Held :
    (secrets : Secrets) (ids : List String) (holders : HashMap ℕ) (id field value : String)
    (d d' : Delivered)
    → deliver_field secrets holders id field value d ≡ ok d'
    → contains id ids ≡ true
    → ((fields : HashMap String) × (secrets.resolve id ≡ ok fields)
        × (HashMap.get field fields ≡ some value))
    → Held secrets ids d
    → Held secrets ids d'
unfolding deliver_field From
deliver_field-Held secrets ids holders id field value d d' run named from held =
    let prefix = secrets.delivery_id id +++ "_" in
    let variable = secrets.variable_part field in
    let unshared = nat_eq (unwrap_or (HashMap.get variable holders) 0) 1 in
    let hand_made = unshared && ltb (len prefix) (len variable) && starts_with variable prefix in
    elim (Bool-cases hand_made) [
      | inl e ↦
          deliver-Held secrets ids field value id field d d' (rw (deliver_field, e) at run)
            (named, inl refl, from) held
      | inr e ↦
          let (d1, first, second) =
            value_before (deliver secrets (prefix +++ field) value id field d) _ d'
              (rw (deliver_field, e) at run) in
          let held1 =
            deliver-Held secrets ids (prefix +++ field) value id field d d1 first
              (named, inr refl, from) held in
          elim (Bool-cases unshared) [
            | inl u ↦
                deliver-Held secrets ids field value id field d1 d' (rw u at second)
                  (named, inl refl, from) held1
            | inr u ↦ subst (Held secrets ids) (ok-injective (rw u at second)) held1
          ]
    ]

deliver_fields-Held :
    (secrets : Secrets) (ids : List String) (holders : HashMap ℕ) (id : String)
    (whole fields : HashMap String) (d d' : Delivered)
    → deliver_fields secrets holders id fields d ≡ ok d'
    → contains id ids ≡ true
    → secrets.resolve id ≡ ok whole
    → Within whole fields
    → Held secrets ids d
    → Held secrets ids d'
unfolding deliver_fields Within
deliver_fields-Held secrets ids holders id whole [] d d' run named there within held =
    subst (Held secrets ids) (ok-injective run) held
deliver_fields-Held secrets ids holders id whole ((k, v) ∷ fields) d d' run named there
      (here, within) held =
    let (d1, first, second) = value_before (deliver_field secrets holders id k v d) _ d' run in
    deliver_fields-Held secrets ids holders id whole fields d1 d' second named there within
      (deliver_field-Held secrets ids holders id k v d d1 first named (whole, there, here) held)

-- each credential is named, and has its fields from the backend
Named : Secrets → List String → List (String × HashMap String) → Type 0
Named secrets ids [] = Unit
Named secrets ids ((id, fields) ∷ resolved) =
    (contains id ids ≡ true) × (secrets.resolve id ≡ ok fields) × Named secrets ids resolved

-- what a backend returns is a map
IsMapped : Secrets → Type 0
IsMapped secrets =
    (id : String) (fields : HashMap String)
    → secrets.resolve id ≡ ok fields
    → distinct (keys fields) ≡ true

deliver_all-Held :
    (secrets : Secrets) (ids : List String) (holders : HashMap ℕ)
    (resolved : List (String × HashMap String)) (d d' : Delivered)
    → IsMapped secrets
    → deliver_all secrets holders resolved d ≡ ok d'
    → Named secrets ids resolved
    → Held secrets ids d
    → Held secrets ids d'
unfolding deliver_all Named IsMapped
deliver_all-Held secrets ids holders [] d d' mapped run named held =
    subst (Held secrets ids) (ok-injective run) held
deliver_all-Held secrets ids holders ((id, fields) ∷ resolved) d d' mapped run (named, there, rest)
      held =
    let (d1, first, second) = value_before (deliver_fields secrets holders id fields d) _ d' run in
    deliver_all-Held secrets ids holders resolved d1 d' mapped second rest (
      deliver_fields-Held secrets ids holders id fields fields d d1 first named there
        (Within-distinct fields (mapped id fields there)) held)

fetch-Named :
    (secrets : Secrets) (ids asked : List String) (resolved : List (String × HashMap String))
    → ((x : String) → contains x asked ≡ true → contains x ids ≡ true)
    → fetch secrets asked ≡ ok resolved
    → Named secrets ids resolved
unfolding fetch Named contains
fetch-Named secrets ids [] resolved among run = subst (Named secrets ids) (ok-injective run) tt
fetch-Named secrets ids (id ∷ asked) resolved among run = elim (Result-cases (secrets.resolve id)) [
  | inr (m, e) ↦ let stopped = rw (fetch, e) at run in absurd cc
  | inl (fields, e) ↦
      let (others, first, second) =
        value_before (fetch secrets asked) _ resolved (rw (fetch, e) at run) in
      subst (Named secrets ids) (ok-injective second) (
        among id (ground (arith, eq_refl id)),
        e,
        fetch-Named secrets ids asked others (λ x h. among x (ground (arith, h))) first,
      )
]

contains-unseen :
    (seen ids : List String) (x : String)
    → contains x (unseen seen ids) ≡ true
    → contains x ids ≡ true
unfolding contains unseen
contains-unseen seen [] x h = h
contains-unseen seen (id ∷ ids) x h =
    ground (arith, h, contains-unseen seen ids x, contains-unseen (id ∷ seen) ids x)

-- the field that a variable is held by has one value
same_value :
    (secrets : Secrets) (ids : List String) (name other value other_value : String)
    (holder other_holder : String × String)
    → some holder ≡ some other_holder
    → From secrets ids name holder.0 holder.1 value
    → From secrets ids other other_holder.0 other_holder.1 other_value
    → value ≡ other_value
unfolding From
same_value secrets ids name other value other_value holder other_holder same (_, _, (fields, p, q))
      (_, _, (other_fields, p', q')) =
    let at : holder ≡ other_holder = cc in
    let one : fields ≡ other_fields =
      ok-injective (sym p ∙ ap (λ h. secrets.resolve h.0) at ∙ p') in
    let there : some value ≡ some other_value =
      sym q ∙ ap (λ h. HashMap.get h.1 fields) at ∙ ap (HashMap.get other_holder.1) one ∙ q' in
    cc

-- Where the backend answers with maps: if the credentials resolve, each name that the connector is
-- handed is a field's, or a credential's identity and a field's, and its value is that field's in a
-- credential that the source names; and two names that make one variable have one value.
pub resolve_credentials_lem :
    (secrets : Secrets) (ids : List String) (handed : HashMap String)
    (name other value other_value : String)
    → ((id : String) (fields : HashMap String)
        → secrets.resolve id ≡ ok fields
        → distinct (keys fields) ≡ true)
    → resolve_credentials secrets ids ≡ ok handed
    → HashMap.get name handed ≡ some value
    → HashMap.get other handed ≡ some other_value
    → secrets.variable_part name ≡ secrets.variable_part other
    → (value ≡ other_value)
      × ((id : String) × ((field : String) × (contains id ids ≡ true)
            × ((name ≡ field) ⊎ (name ≡ (secrets.delivery_id id +++ "_") +++ field))
            × ((fields : HashMap String) × (secrets.resolve id ≡ ok fields)
                × (HashMap.get field fields ≡ some value))))
unfolding resolve_credentials From Held IsMapped HashMap.get
resolve_credentials_lem secrets ids handed name other value other_value mapped run there other_there
      same =
    let (resolved, first, second) = value_before (fetch secrets (unseen [] ids)) _ handed run in
    let none_yet : Delivered = record { origin = []; all = [] } in
    let (d, delivered, third) =
      value_before (deliver_all secrets (holders_of secrets resolved []) resolved none_yet) _ handed
        second in
    let held : Held secrets ids d =
      deliver_all-Held secrets ids (holders_of secrets resolved []) resolved none_yet d mapped
        delivered (fetch-Named secrets ids (unseen [] ids) resolved (contains-unseen [] ids) first)
        (λ _ _ h. absurd cc) in
    let all_handed : d.all ≡ handed = ok-injective third in
    let (id, (field, at, from)) = held name value (ap (HashMap.get name) all_handed ∙ there) in
    let (other_id, (other_field, other_at, other_from)) =
      held other other_value (ap (HashMap.get other) all_handed ∙ other_there) in
    (
      same_value secrets ids name other value other_value (id, field) (other_id, other_field)
          (sym at ∙ ap (λ v. HashMap.get v d.origin) same ∙ other_at) from other_from,
      (id, (field, from.0, from.1, from.2)),
    )
