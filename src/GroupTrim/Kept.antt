-- ===== src/GroupTrim/Kept.antt =====
-- Which groups `matching` keeps: those with a host on the page, and those above a kept one.
use mathlib.Core.List.{Memᴰ}
use unified_api.HashMap
use unified_api.HashMap.{HashMap, contains_key}
use unified_api.HashMap.Laws.{get-insert, get-modify}
use unified_api.GroupTrim.Fixpoint.{grow_all_ends, grow_all_keeps, missing-le-length}
use unified_api.Prelude.{
  Bool-cases, List, String, [], any, ap, arith, contains, eq_iff, eq_refl, false, inl, inr,
  is_empty, length, not, refl, some, sym, true, ◌&&◌, ◌+◌, ◌==◌, ◌||◌, ◌↔◌, ◌∙◌, ◌∷◌, ◌≡◌,
}
use unified_api.GroupTrim.{
  Listed, Trimmed, among, grow_all, join, joins, matching, seed, seed_group, trim_children,
  with_children,
}

-- The groups that a page keeps, by their names.
pub data Keeps (listed : List Listed) (page : List String) : String → Type 0 where
  by_host :
      (g : Listed) {name : String}
      → Memᴰ g listed
      → is_empty (among page g.hosts) ≡ false
      → g.name ≡ name
      → Keeps listed page name
  by_child :
      (g : Listed) (child : String) {name : String}
      → Memᴰ g listed
      → contains child g.children ≡ true
      → Keeps listed page child
      → g.name ≡ name
      → Keeps listed page name

abbrev IsSound : List Listed → List String → HashMap Trimmed → Type 0
IsSound listed page kept = (name : String) → contains_key name kept ≡ true → Keeps listed page name

-- the child that let a group join
child_of :
    (kept : HashMap Trimmed) (children : List String)
    → any (λ c. contains_key c kept) children ≡ true
    → (c : String) × (contains c children ≡ true) × (contains_key c kept ≡ true)
unfolding contains
child_of kept [] h = absurd (ground arith)
child_of kept (c ∷ children) h = elim (Bool-cases (contains_key c kept)) [
  | inl here ↦ (c, ground (arith, eq_refl c), here)
  | inr later ↦
      let (d, listed, there) = child_of kept children (ground arith) in (d, ground arith, there)
]

any_child :
    (kept : HashMap Trimmed) (children : List String) (c : String)
    → contains c children ≡ true
    → contains_key c kept ≡ true
    → any (λ c. contains_key c kept) children ≡ true
unfolding contains
any_child kept [] c m k = absurd (ground arith)
any_child kept (d ∷ children) c m k = ground (arith, any_child kept children c, eq_iff d c)

contains_key-join :
    (g : Listed) (kept : HashMap Trimmed) (name : String)
    → contains_key name (join g kept) ≡ (joins g kept && g.name == name || contains_key name kept)
unfolding join
contains_key-join g kept name =
    ground (arith, get-insert name g.name (record { hosts = []; children = [] }) kept)

contains_key-seed_group :
    (page : List String) (g : Listed) (kept : HashMap Trimmed) (name : String)
    → contains_key name (seed_group page g kept)
      ≡ (not (is_empty (among page g.hosts)) && g.name == name || contains_key name kept)
unfolding seed_group
contains_key-seed_group page g kept name =
    ground
      (arith, get-insert name g.name (record { hosts = among page g.hosts; children = [] }) kept)

pub contains_key-trim_children :
    (names : List String) (listed : List Listed) (kept : HashMap Trimmed) (name : String)
    → contains_key name (trim_children names listed kept) ≡ contains_key name kept
unfolding trim_children
contains_key-trim_children names [] kept name = refl
contains_key-trim_children names (g ∷ listed) kept name =
    let f = with_children names g in
    ground (
      arith,
      contains_key-trim_children names listed (HashMap.modify g.name f kept) name,
      get-modify name g.name f kept,
    )

module _ (listed : List Listed) (page : List String) where
  IsSound-empty : IsSound listed page []
  unfolding HashMap.get
  IsSound-empty name h = absurd (ground arith)

  join-IsSound :
      (g : Listed) (kept : HashMap Trimmed)
      → Memᴰ g listed
      → IsSound listed page kept
      → IsSound listed page (join g kept)
  unfolding joins
  join-IsSound g kept m sound name h = elim (Bool-cases (contains_key name kept)) [
    | inl old ↦ sound name old
    | inr new ↦
        let (child, mine, its) =
          child_of kept g.children (ground (arith, contains_key-join g kept name)) in
        by_child g child m mine (sound child its)
          ((eq_iff g.name name).0 (ground (arith, contains_key-join g kept name)))
  ]

  seed-IsSound :
      (rest : List Listed) (kept : HashMap Trimmed)
      → ((g : Listed) → Memᴰ g rest → Memᴰ g listed)
      → IsSound listed page kept
      → IsSound listed page (seed page rest kept)
  unfolding seed
  seed-IsSound [] kept sub sound = sound
  seed-IsSound (g ∷ rest) kept sub sound =
      seed-IsSound rest (seed_group page g kept) (λ x m. sub x (Memᴰ.tail m))
        λ name h. elim (Bool-cases (contains_key name kept)) [
          | inl old ↦ sound name old
          | inr new ↦
              by_host g (sub g (Memᴰ.head refl))
                (ground (arith, contains_key-seed_group page g kept name))
                ((eq_iff g.name name).0 (ground (arith, contains_key-seed_group page g kept name)))
        ]

  -- a group that the first loop keeps stays, and it keeps each group with a host on the page
  seed_stays :
      (rest : List Listed) (kept : HashMap Trimmed) (name : String)
      → contains_key name kept ≡ true
      → contains_key name (seed page rest kept) ≡ true
  unfolding seed
  seed_stays [] kept name h = h
  seed_stays (g ∷ rest) kept name h =
      seed_stays rest (seed_group page g kept) name
        (ground (arith, contains_key-seed_group page g kept name))

  pub seed_keeps :
      (g : Listed) (rest : List Listed) (kept : HashMap Trimmed)
      → Memᴰ g rest
      → is_empty (among page g.hosts) ≡ false
      → contains_key g.name (seed page rest kept) ≡ true
  unfolding seed
  seed_keeps g [] kept m h = elim m [ ]
  seed_keeps g (x ∷ rest) kept (Memᴰ.head p) h = seed_stays rest (seed_group page x kept) g.name (
      ground (
        arith,
        contains_key-seed_group page x kept g.name,
        eq_refl g.name,
        ap (λ (l : Listed). l.name) p,
        ap (λ (l : Listed). l.hosts) p,
      ))
  seed_keeps g (x ∷ rest) kept (Memᴰ.tail m) h = seed_keeps g rest (seed_group page x kept) m h

  -- with nothing left to join, what a page keeps is kept
  complete :
      (end : HashMap Trimmed)
      → ((name : String)
          → contains_key name (seed page listed []) ≡ true
          → contains_key name end ≡ true)
      → ((g : Listed) → Memᴰ g listed → joins g end ≡ false)
      → {name : String} → Keeps listed page name
      → contains_key name end ≡ true
  unfolding joins
  complete end seeded closed (by_host g m h p) =
      rw (← p) (seeded g.name (seed_keeps g listed [] m h))
  complete end seeded closed (by_child g child m mine k p) = rw (← p) (
      ground
        (arith, closed g m, any_child end g.children child mine (complete end seeded closed k)))

  pub join_stays :
      (name : String) (g : Listed) (kept : HashMap Trimmed)
      → contains_key name kept ≡ true
      → contains_key name (join g kept) ≡ true
  join_stays name g kept h = ground (arith, contains_key-join g kept name)

  pub matching_ends :
      (end : HashMap Trimmed)
      → grow_all (length listed + 1) listed (seed page listed []) ≡ some end
      → matching listed page ≡ some (trim_children (HashMap.keys end) listed end)
  unfolding matching
  matching_ends end e = rw (e, matching)

  -- `matching` always returns, and it keeps exactly the groups that have a host on the page and
  -- the groups that have, at any depth, such a group below them.
  pub matching-Keeps :
      (kept : HashMap Trimmed) × (matching listed page ≡ some kept)
      × ((name : String) → (contains_key name kept ≡ true) ↔ Keeps listed page name)
  matching-Keeps =
      let start = seed page listed [] in
      let (end, ends, closed) =
        grow_all_ends (length listed + 1) listed start
          (omega (arith, missing-le-length listed start)) in
      let sound =
        grow_all_keeps (IsSound listed page) listed join-IsSound (length listed + 1) start end ends
          (seed-IsSound listed [] (λ g m. m) IsSound-empty) in
      let seeded = λ (name : String) (h : contains_key name start ≡ true).
        grow_all_keeps (λ k. contains_key name k ≡ true) listed (λ g k _. join_stays name g k)
          (length listed + 1) start end ends h in
      (
        trim_children (HashMap.keys end) listed end,
        matching_ends end ends,
        λ name.
            let trimmed = contains_key-trim_children (HashMap.keys end) listed end name in
            (λ h. sound name (sym trimmed ∙ h), λ k. trimmed ∙ complete end seeded closed k),
      )
