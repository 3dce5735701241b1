-- ===== src/Tests/Globs.antt =====
-- The property of the glob matcher, and a text with a star of its own.
use unified_api.Prelude.{List, [], false, refl, some, true, ℕ, ◌∷◌, ◌≡◌}
use unified_api.HostFilter.{glob, walk}
use unified_api.HostFilter.Suffixes.{matches, suffix_any}
use unified_api.HostFilter.Glob.{glob-matches}

-- "w*b?" and "webb1": the star takes one character first, and then two.
abbrev pattern : List ℕ
pattern = 119 ∷ 42 ∷ 98 ∷ 63 ∷ []

abbrev text : List ℕ
text = 119 ∷ 101 ∷ 98 ∷ 98 ∷ 49 ∷ []

glob-matches_example : glob pattern text ≡ some true
unfolding matches suffix_any
glob-matches_example = glob-matches pattern text refl

-- "*a" and "*ba": the star of the pattern takes the star of the text for itself alone.
starred_text_is_missed : glob (42 ∷ 97 ∷ []) (42 ∷ 98 ∷ 97 ∷ []) ≡ some false
unfolding glob walk
starred_text_is_missed = refl

starred_text_matches : matches (42 ∷ 97 ∷ []) (42 ∷ 98 ∷ 97 ∷ []) ≡ true
unfolding matches suffix_any
starred_text_matches = refl
