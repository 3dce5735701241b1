-- ===== src/GroupTrim/Entries.antt =====
-- The entry of one group in what `matching` keeps.
use mathlib.Core.List.{Memᴰ}
use mathlib.Core.Option
use unified_api.HashMap
use unified_api.HashMap.{HashMap}
use unified_api.HashMap.Laws.{get-insert, get-modify}
use unified_api.Prelude.{
  List, String, [], ap, arith, contains, distinct, eq_iff, eq_refl, false, if◌then◌else◌, is_empty,
  map, refl, some, sym, true, ◌==◌, ◌∙◌, ◌∷◌, ◌≡◌,
}
use unified_api.GroupTrim.{Listed, Trimmed, among, seed_group, trim_children, with_children}

abbrev pub names : List Listed → List String
names = map (λ (g : Listed). g.name)

pub name_listed :
    (g : Listed) (listed : List Listed) → Memᴰ g listed → contains g.name (names listed) ≡ true
unfolding contains
name_listed g [] m = elim m [ ]
name_listed g (x ∷ listed) (Memᴰ.head p) =
    ground (arith, eq_refl g.name, ap (λ (l : Listed). l.name) p)
name_listed g (x ∷ listed) (Memᴰ.tail m) = ground (arith, name_listed g listed m)

-- two listed groups of one name are one group
pub same_group :
    (listed : List Listed) (g x : Listed)
    → distinct (names listed) ≡ true
    → Memᴰ g listed
    → Memᴰ x listed
    → g.name ≡ x.name
    → g ≡ x
unfolding distinct
same_group [] g x d m n e = elim m [ ]
same_group (y ∷ listed) g x d (Memᴰ.head p) (Memᴰ.head q) e = p ∙ sym q
same_group (y ∷ listed) g x d (Memᴰ.head p) (Memᴰ.tail n) e =
    absurd (ground (arith, name_listed x listed n, ap (λ (l : Listed). l.name) p))
same_group (y ∷ listed) g x d (Memᴰ.tail m) (Memᴰ.head q) e =
    absurd (ground (arith, name_listed g listed m, ap (λ (l : Listed). l.name) q))
same_group (y ∷ listed) g x d (Memᴰ.tail m) (Memᴰ.tail n) e =
    same_group listed g x (ground arith) m n e

pub among_ext :
    (s t ns : List String) → ((n : String) → contains n s ≡ contains n t) → among s ns ≡ among t ns
unfolding among
among_ext s t [] h = refl
among_ext s t (n ∷ ns) h = ground (arith, h n, among_ext s t ns h)

-- a kept group's entry before the last loop
abbrev pub cut : List String → Listed → Trimmed
cut page g = record { hosts = among page g.hosts; children = [] }

pub no_hosts : (l : List String) → is_empty l ≡ true → l ≡ []
no_hosts [] h = refl
no_hosts (x ∷ l) h = cc

pub get-seed_group :
    (page : List String) (g : Listed) (kept : HashMap Trimmed) (name : String)
    → HashMap.get name (seed_group page g kept) ≡ (
        if is_empty (among page g.hosts)
        then HashMap.get name kept
        else if g.name == name
        then some (cut page g)
        else HashMap.get name kept)
unfolding seed_group
get-seed_group page g kept name = ground (arith, get-insert name g.name (cut page g) kept)

-- the last loop does not reach a name that is not listed
pub trim_children_absent :
    (kept_names : List String) (rest : List Listed) (kept : HashMap Trimmed) (name : String)
    → contains name (names rest) ≡ false
    → HashMap.get name (trim_children kept_names rest kept) ≡ HashMap.get name kept
unfolding trim_children contains
trim_children_absent kept_names [] kept name a = refl
trim_children_absent kept_names (x ∷ rest) kept name a =
    let f = with_children kept_names x in
    ground (
      arith,
      trim_children_absent kept_names rest (HashMap.modify x.name f kept) name,
      get-modify name x.name f kept,
    )

-- the last loop, on a group that is listed
pub trimmed_entry :
    (kept_names : List String) (rest : List Listed) (kept : HashMap Trimmed) (g : Listed)
    → distinct (names rest) ≡ true
    → Memᴰ g rest
    → HashMap.get g.name (trim_children kept_names rest kept)
      ≡ Option.map (with_children kept_names g) (HashMap.get g.name kept)
unfolding trim_children distinct
trimmed_entry kept_names [] kept g dist m = elim m [ ]
trimmed_entry kept_names (x ∷ rest) kept g dist (Memᴰ.head p) =
    let f = with_children kept_names x in
    rw p (
      trim_children_absent kept_names rest (HashMap.modify x.name f kept) x.name (ground arith)
      ∙ ground (arith, get-modify x.name x.name f kept, eq_refl x.name))
trimmed_entry kept_names (x ∷ rest) kept g dist (Memᴰ.tail m) =
    let f = with_children kept_names x in
    trimmed_entry kept_names rest (HashMap.modify x.name f kept) g (ground arith) m
    ∙ ap (Option.map (with_children kept_names g)) (
        ground (arith, get-modify g.name x.name f kept, eq_iff x.name g.name, name_listed g rest m))
