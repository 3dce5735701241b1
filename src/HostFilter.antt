-- ===== src/HostFilter.antt =====
-- domain/host_filter.rs: the glob matcher. A character is its number, and an index into the
-- pattern or the text is the suffix that begins there.
pub mod Glob
pub mod Suffixes
pub mod Walk
use unified_api.Prelude.{
  Bool, List, Option, [], all, false, if◌then◌else◌, length, nat_eq, none, some, suc, zero, ℕ, ◌*◌,
  ◌||◌, ◌∷◌,
}

-- '*' and '?'
abbrev pub star : ℕ
star = 42

abbrev pub question : ℕ
question = 63

abbrev pub tail_of : List ℕ → List ℕ
tail_of [] = []
tail_of (_ ∷ text) = text

-- `p[pi..].iter().all(|c| *c == '*')`
unfoldable pub all_stars : List ℕ → Bool
all_stars p = all (nat_eq star) p

-- The loop, with the text from `ti`, the pattern from `pi`, and the pattern after the last star with
-- the text from where it stood; none if the fuel runs out. On a mismatch the last star swallows one
-- more character, and with no star there is no match.
unfoldable pub walk : ℕ → List ℕ → List ℕ → Option (List ℕ × List ℕ) → Option Bool
walk zero [] p last = some (all_stars p)
walk zero (c ∷ text) p last = none
walk (suc fuel) [] p last = some (all_stars p)
walk (suc fuel) (c ∷ text) [] last = elim last [
  | none ↦ some false
  | some (sp, st) ↦ walk fuel (tail_of st) sp (some (sp, tail_of st))
]
walk (suc fuel) (c ∷ text) (q ∷ p) last =
    let matched = walk fuel text p last in
    let opened = walk fuel (c ∷ text) p (some (p, c ∷ text)) in
    let back : Option Bool = elim last [
      | none ↦ some false
      | some (sp, st) ↦ walk fuel (tail_of st) sp (some (sp, tail_of st))
    ] in
    if nat_eq q question || nat_eq q c then matched else if nat_eq q star then opened else back

-- enough for each place of the last star, and for each length of the pattern
unfoldable pub glob : List ℕ → List ℕ → Option Bool
glob pattern text = walk (suc (suc (length text)) * suc (length pattern)) text pattern none
