-- ===== src/GroupTrim/Fixpoint.antt =====
-- The second loop of `matching` ends, at a set of groups that no further group joins.
use mathlib.Core.List.{Memᴰ}
use unified_api.HashMap
use unified_api.HashMap.{HashMap, contains_key}
use unified_api.HashMap.Laws.{get-insert}
use unified_api.Prelude.{
  Bool-cases, List, String, [], ap, arith, eq_refl, false, if◌then◌else◌, inl, inr, length, refl,
  some, some_inj, subst, suc, true, zero, ℕ, ◌+◌, ◌<◌, ◌∷◌, ◌≡◌, ◌≤◌,
}
use unified_api.GroupTrim.{Listed, Trimmed, grow, grow_all, join, joins}

-- how many listed groups are not kept yet
unfoldable pub missing : List Listed → HashMap Trimmed → ℕ
missing [] kept = 0
missing (g ∷ listed) kept = (if contains_key g.name kept then 0 else 1) + missing listed kept

pub missing-le-length :
    (listed : List Listed) (kept : HashMap Trimmed) → missing listed kept ≤ length listed
unfolding missing
missing-le-length [] kept = omega arith
missing-le-length (g ∷ listed) kept = ground (arith, missing-le-length listed kept)

-- a group that is kept counts no more
missing-insert :
    (listed : List Listed) (name : String) (t : Trimmed) (kept : HashMap Trimmed)
    → missing listed (HashMap.insert name t kept) ≤ missing listed kept
unfolding missing
missing-insert [] name t kept = omega arith
missing-insert (g ∷ listed) name t kept =
    ground (arith, missing-insert listed name t kept, get-insert g.name name t kept)

missing-join-le :
    (g : Listed) (listed : List Listed) (kept : HashMap Trimmed)
    → missing listed (join g kept) ≤ missing listed kept
unfolding join
missing-join-le g listed kept =
    ground (arith, missing-insert listed g.name (record { hosts = []; children = [] }) kept)

missing-grow-le :
    (rest listed : List Listed) (kept : HashMap Trimmed)
    → missing listed (grow rest kept).0 ≤ missing listed kept
unfolding grow
missing-grow-le [] listed kept = omega arith
missing-grow-le (g ∷ rest) listed kept =
    omega (arith, missing-grow-le rest listed (join g kept), missing-join-le g listed kept)

-- putting in a listed group that was missing makes one missing group less
missing-insert_listed :
    (g : Listed) (listed : List Listed) (t : Trimmed) (kept : HashMap Trimmed)
    → Memᴰ g listed
    → contains_key g.name kept ≡ false
    → missing listed (HashMap.insert g.name t kept) < missing listed kept
unfolding missing
missing-insert_listed g [] t kept m absent = elim m [ ]
missing-insert_listed g (x ∷ listed) t kept (Memᴰ.head p) absent = ground (
  arith,
  missing-insert listed g.name t kept,
  get-insert x.name g.name t kept,
  eq_refl g.name,
  ap (λ (l : Listed). l.name) p,
)
missing-insert_listed g (x ∷ listed) t kept (Memᴰ.tail m) absent =
    ground (arith, missing-insert_listed g listed t kept m absent, get-insert x.name g.name t kept)

missing-join-lt :
    (g : Listed) (listed : List Listed) (kept : HashMap Trimmed)
    → Memᴰ g listed
    → joins g kept ≡ true
    → missing listed (join g kept) < missing listed kept
unfolding join joins
missing-join-lt g listed kept m h =
    ground (arith, missing-insert_listed g listed (record { hosts = []; children = [] }) kept m)

-- A round that grows leaves fewer groups missing.
missing-grow-lt :
    (rest listed : List Listed) (kept : HashMap Trimmed)
    → ((g : Listed) → Memᴰ g rest → Memᴰ g listed)
    → (grow rest kept).1 ≡ true
    → missing listed (grow rest kept).0 < missing listed kept
unfolding grow
missing-grow-lt [] listed kept sub grew = absurd (ground arith)
missing-grow-lt (g ∷ rest) listed kept sub grew = elim (Bool-cases (joins g kept)) [
  | inl yes_it ↦ omega (
    arith,
    missing-grow-le rest listed (join g kept),
    missing-join-lt g listed kept (sub g (Memᴰ.head refl)) yes_it,
  )
  | inr not_it ↦ omega (
    arith,
    missing-grow-lt rest listed (join g kept) (λ x m. sub x (Memᴰ.tail m)) (rw not_it at grew),
    missing-join-le g listed kept,
  )
]

join_still : (g : Listed) (kept : HashMap Trimmed) → joins g kept ≡ false → join g kept ≡ kept
unfolding join
join_still g kept h = rw h

still_head :
    (x g : Listed) {listed : List Listed} (kept : HashMap Trimmed)
    → joins x kept ≡ false
    → ((g : Listed) → Memᴰ g listed → joins g kept ≡ false)
    → Memᴰ g (x ∷ listed)
    → joins g kept ≡ false
still_head x g kept no_join none_joins (Memᴰ.head p) = rw p no_join
still_head x g kept no_join none_joins (Memᴰ.tail m) = none_joins g m

-- A round that does not grow changes nothing, and no listed group is left to join.
grow_still :
    (listed : List Listed) (kept : HashMap Trimmed)
    → (grow listed kept).1 ≡ false
    → ((grow listed kept).0 ≡ kept) × ((g : Listed) → Memᴰ g listed → joins g kept ≡ false)
unfolding grow
grow_still [] kept still = (refl, λ g m. elim m [ ])
grow_still (x ∷ listed) kept still =
    let no_join : joins x kept ≡ false = ground arith in
    let same : join x kept ≡ kept = join_still x kept no_join in
    let later : (grow listed (join x kept)).1 ≡ false = ground arith in
    let (kept_still, none_joins) = grow_still listed kept (rw same at later) in
    (rw same kept_still, λ g m. still_head x g kept no_join none_joins m)

-- The loop ends within one more round than there are groups, where nothing is left to join.
pub grow_all_ends :
    (fuel : ℕ) (listed : List Listed) (kept : HashMap Trimmed)
    → missing listed kept < fuel
    → (end : HashMap Trimmed) × (grow_all fuel listed kept ≡ some end)
      × ((g : Listed) → Memᴰ g listed → joins g end ≡ false)
unfolding grow_all
grow_all_ends zero listed kept h = absurd (omega arith)
grow_all_ends (suc fuel) listed kept h = elim (Bool-cases (grow listed kept).1) [
  | inl grew ↦
      let (end, ends, closed) =
        grow_all_ends fuel listed (grow listed kept).0
          (omega (arith, missing-grow-lt listed listed kept (λ g m. m) grew)) in
      (end, rw grew ends, closed)
  | inr still ↦
      let (same, closed) = grow_still listed kept still in (kept, rw still (ap some same), closed)
]

grow_keeps {ℓ} :
    (P : HashMap Trimmed → Type ℓ) (listed : List Listed)
    → ((g : Listed) (kept : HashMap Trimmed) → Memᴰ g listed → P kept → P (join g kept))
    → (rest : List Listed) (kept : HashMap Trimmed) → ((g : Listed) → Memᴰ g rest → Memᴰ g listed)
    → P kept
    → P (grow rest kept).0
unfolding grow
grow_keeps P listed keep [] kept sub p = p
grow_keeps P listed keep (g ∷ rest) kept sub p =
    grow_keeps P listed keep rest (join g kept) (λ x m. sub x (Memᴰ.tail m))
      (keep g kept (sub g (Memᴰ.head refl)) p)

-- An invariant that a joining group keeps holds at the end.
pub grow_all_keeps {ℓ} :
    (P : HashMap Trimmed → Type ℓ) (listed : List Listed)
    → ((g : Listed) (kept : HashMap Trimmed) → Memᴰ g listed → P kept → P (join g kept))
    → (fuel : ℕ) (kept end : HashMap Trimmed) → grow_all fuel listed kept ≡ some end
    → P kept
    → P end
unfolding grow_all
grow_all_keeps P listed keep zero kept end e p = absurd (ground arith)
grow_all_keeps P listed keep (suc fuel) kept end e p = elim (Bool-cases (grow listed kept).1) [
  | inl grew ↦
      grow_all_keeps P listed keep fuel (grow listed kept).0 end (rw grew at e)
        (grow_keeps P listed keep listed kept (λ g m. m) p)
  | inr still ↦
      let stop : some (grow listed kept).0 ≡ some end = rw still at e in
      subst P (some_inj stop) (grow_keeps P listed keep listed kept (λ g m. m) p)
]
