-- ===== src/GroupTrim/Trimming.antt =====
-- What `matching` leaves of the hosts and the children of a kept group.
use unified_api.GroupTrim.Entries.{
  among_ext, cut, get-seed_group, names, no_hosts, same_group, trimmed_entry,
}
use mathlib.Core.List.{Memᴰ}
use unified_api.HashMap
use unified_api.HashMap.{HashMap, contains_key}
use unified_api.HashMap.Laws.{contains-keys, get-insert}
use unified_api.GroupTrim.Fixpoint.{grow_all_ends, grow_all_keeps, missing-le-length}
use unified_api.Prelude.{
  Bool-cases, List, Option-cases, String, [], ap, arith, distinct, eq_iff, false, inl, inr,
  is_empty, length, refl, some, some_inj, sym, true, ◌+◌, ◌==◌, ◌∙◌, ◌∷◌, ◌≡◌,
}
use unified_api.GroupTrim.{
  Listed, Trimmed, among, join, joins, matching, seed, seed_group, trim_children,
}
use unified_api.GroupTrim.Kept.{contains_key-trim_children, join_stays, matching_ends, seed_keeps}

module _ (listed : List Listed) (page : List String) (d : distinct (names listed) ≡ true) where
  -- each kept group has its hosts on the page, and each group with such a host is kept
  record Fits (kept : HashMap Trimmed) : Type 0 where
    entry :
        (g : Listed) (t : Trimmed)
        → Memᴰ g listed
        → HashMap.get g.name kept ≡ some t
        → t ≡ cut page g
    paged :
        (g : Listed)
        → Memᴰ g listed
        → is_empty (among page g.hosts) ≡ false
        → contains_key g.name kept ≡ true

  joined_entry :
      (g x : Listed) (t : Trimmed) (kept : HashMap Trimmed)
      → Memᴰ g listed
      → Memᴰ x listed
      → Fits kept
      → joins g kept ≡ true
      → g.name ≡ x.name
      → t ≡ record { hosts = []; children = [] }
      → t ≡ cut page x
  unfolding joins
  joined_entry g x t kept m n f it named e = elim (Bool-cases (is_empty (among page g.hosts))) [
    | inl none_on ↦
        let bare : among page x.hosts ≡ [] =
          rw (← same_group listed g x d m n named) (no_hosts (among page g.hosts) none_on) in
        rw (e, bare)
    | inr some_on ↦ absurd (ground (arith, f.paged g m some_on))
  ]

  join-Fits : (g : Listed) (kept : HashMap Trimmed) → Memᴰ g listed → Fits kept → Fits (join g kept)
  unfolding join
  join-Fits g kept m f = elim (Bool-cases (joins g kept)) [
    | inr not_it ↦ rw (not_it, join) f
    | inl it ↦ record {
      entry = λ x t n h. elim (Bool-cases (g.name == x.name)) [
        | inl e ↦
            joined_entry g x t kept m n f it ((eq_iff g.name x.name).0 e)
              (some_inj (sym h ∙ ground (arith, get-insert x.name g.name bare kept)))
        | inr e ↦ f.entry x t n (sym (ground (arith, get-insert x.name g.name bare kept)) ∙ h)
      ];
      paged = λ x n h. join_stays listed page x.name g kept (f.paged x n h);
    }
  ]
    where
      bare : Trimmed
      bare = record { hosts = []; children = [] }

  -- every kept entry is the one of the group of its name
  abbrev Entries : HashMap Trimmed → Type 0
  Entries kept =
      (x : Listed) (t : Trimmed) → Memᴰ x listed → HashMap.get x.name kept ≡ some t → t ≡ cut page x

  seed_group-Entries :
      (g : Listed) (kept : HashMap Trimmed)
      → Memᴰ g listed
      → Entries kept
      → Entries (seed_group page g kept)
  seed_group-Entries g kept m old x t n h = elim (Bool-cases (is_empty (among page g.hosts))) [
    | inl none_on ↦ old x t n (sym (ground (arith, get-seed_group page g kept x.name)) ∙ h)
    | inr some_on ↦ elim (Bool-cases (g.name == x.name)) [
      | inl e ↦
          some_inj (sym h ∙ ground (arith, get-seed_group page g kept x.name))
          ∙ ap (cut page) (same_group listed g x d m n ((eq_iff g.name x.name).0 e))
      | inr e ↦ old x t n (sym (ground (arith, get-seed_group page g kept x.name)) ∙ h)
    ]
  ]

  seed-Entries :
      (rest : List Listed) (kept : HashMap Trimmed)
      → ((g : Listed) → Memᴰ g rest → Memᴰ g listed)
      → Entries kept
      → Entries (seed page rest kept)
  unfolding seed
  seed-Entries [] kept sub old = old
  seed-Entries (g ∷ rest) kept sub old =
      seed-Entries rest (seed_group page g kept) (λ x m. sub x (Memᴰ.tail m))
        (seed_group-Entries g kept (sub g (Memᴰ.head refl)) old)

  seed-Fits : Fits (seed page listed [])
  unfolding HashMap.get
  seed-Fits = record {
    entry = seed-Entries listed [] (λ g m. m) (λ x t n h. absurd (ground arith));
    paged = λ g m h. seed_keeps listed page g listed [] m h;
  }

  final_entry :
      (end : HashMap Trimmed) (g : Listed) (t : Trimmed)
      → Fits end
      → Memᴰ g listed
      → HashMap.get g.name (trim_children (HashMap.keys end) listed end) ≡ some t
      → t ≡ record {
        hosts = among page g.hosts;
        children = among (HashMap.keys (trim_children (HashMap.keys end) listed end)) g.children;
      }
  final_entry end g t fits m h =
      let trimmed = trimmed_entry (HashMap.keys end) listed end g d m in
      elim (Option-cases (HashMap.get g.name end)) [
        | inl a ↦ absurd (ground arith)
        | inr (t₀, a) ↦
            let same =
              among_ext (HashMap.keys end)
                (HashMap.keys (trim_children (HashMap.keys end) listed end)) g.children
                (λ n.
                  contains-keys n end
                  ∙ sym (contains_key-trim_children (HashMap.keys end) listed end n)
                  ∙ sym (contains-keys n (trim_children (HashMap.keys end) listed end))) in
            let is : t₀ ≡ cut page g = fits.entry g t₀ m a in ground arith
      ]

  -- Where no group is listed twice, what `matching` returns for a listed group that it keeps is
  -- the group's hosts that are on the page, and its children that are kept.
  pub matching_trims :
      (kept : HashMap Trimmed) (g : Listed) (t : Trimmed)
      → matching listed page ≡ some kept
      → Memᴰ g listed
      → HashMap.get g.name kept ≡ some t
      → t ≡ record { hosts = among page g.hosts; children = among (HashMap.keys kept) g.children }
  matching_trims kept g t returns m h =
      let start = seed page listed [] in
      let (end, ends, closed) =
        grow_all_ends (length listed + 1) listed start
          (omega (arith, missing-le-length listed start)) in
      let fits =
        grow_all_keeps Fits listed join-Fits (length listed + 1) start end ends seed-Fits in
      let is : kept ≡ trim_children (HashMap.keys end) listed end =
        some_inj (sym returns ∙ matching_ends listed page end ends) in
      rw is (final_entry end g t fits m (rw is at h))
