-- ===== src/HostFilter/Suffixes.antt =====
-- What a glob means, and its laws on the suffixes of a text.
use unified_api.Prelude.{
  Bool, Bool-cases, List, [], any, ap, arith, false, if◌then◌else◌, inl, inr, is_empty, length,
  nat_eq, refl, suc, sym, true, zero, ℕ, ◌&&◌, ◌++◌, ◌||◌, ◌∙◌, ◌∷◌, ◌≡◌,
}
use unified_api.HostFilter.{all_stars, question, star, tail_of}

-- some suffix has the property
unfoldable pub suffix_any : (List ℕ → Bool) → List ℕ → Bool
suffix_any f [] = f []
suffix_any f (c ∷ text) = f (c ∷ text) || suffix_any f text

-- What a glob means: a star any run of characters, a question mark any one, and every other
-- character itself.
unfoldable pub matches : List ℕ → List ℕ → Bool
matches [] text = is_empty text
matches (q ∷ p) text =
    if nat_eq q star
    then suffix_any (matches p) text
    else elim text [ [] ↦ false | c ∷ rest ↦ (nat_eq q question || nat_eq q c) && matches p rest ]

unfoldable pub drop : ℕ → List ℕ → List ℕ
drop zero text = text
drop (suc n) [] = []
drop (suc n) (c ∷ text) = drop n text

pub drop-nil : (n : ℕ) → drop n [] ≡ []
unfolding drop
drop-nil zero = refl
drop-nil (suc n) = refl

pub drop-suc : (n : ℕ) (text : List ℕ) → drop (suc n) text ≡ drop n (tail_of text)
unfolding drop
drop-suc n [] = sym (drop-nil n)
drop-suc n (c ∷ text) = refl

pub tail_of-drop : (n : ℕ) (text : List ℕ) → tail_of (drop n text) ≡ drop n (tail_of text)
unfolding drop
tail_of-drop zero text = refl
tail_of-drop (suc n) text =
    ap tail_of (drop-suc n text) ∙ tail_of-drop n (tail_of text) ∙ sym (drop-suc n (tail_of text))

pub drop-drop : (m n : ℕ) (text : List ℕ) → drop m (drop n text) ≡ drop n (drop m text)
unfolding drop
drop-drop zero n text = refl
drop-drop (suc m) n text =
    drop-suc m (drop n text)
    ∙ ap (drop m) (tail_of-drop n text)
    ∙ drop-drop m n (tail_of text)
    ∙ ap (drop n) (sym (drop-suc m text))

pub drop-append : (u w : List ℕ) → drop (length u) (u ++ w) ≡ w
unfolding drop
drop-append [] w = refl
drop-append (c ∷ u) w = drop-append u w

pub suffix_any-drop :
    (f : List ℕ → Bool) (text : List ℕ)
    → suffix_any f text ≡ true
    → (n : ℕ) × (f (drop n text) ≡ true)
unfolding suffix_any drop
suffix_any-drop f [] h = (0, h)
suffix_any-drop f (c ∷ text) h = elim (Bool-cases (f (c ∷ text))) [
  | inl e ↦ (0, e)
  | inr e ↦ let (n, found) = suffix_any-drop f text (ground (arith, h, e)) in (suc n, found)
]

pub suffix_any-of_drop :
    (f : List ℕ → Bool) (n : ℕ) (text : List ℕ) → f (drop n text) ≡ true → suffix_any f text ≡ true
unfolding suffix_any drop
suffix_any-of_drop f n [] h = sym (ap f (drop-nil n)) ∙ h
suffix_any-of_drop f zero (c ∷ text) h = ground (arith, h)
suffix_any-of_drop f (suc n) (c ∷ text) h = ground (arith, suffix_any-of_drop f n text h)

pub matches-nil : (p : List ℕ) → matches p [] ≡ all_stars p
unfolding matches all_stars suffix_any
matches-nil [] = refl
matches-nil (q ∷ p) = ground (arith, matches-nil p)

-- a pattern without stars takes as many characters as it has
pub matches-append :
    (q r text : List ℕ)
    → any (nat_eq star) q ≡ false
    → matches (q ++ r) text ≡ true
    → matches r (drop (length q) text) ≡ true
unfolding matches drop
matches-append [] r text s h = h
matches-append (x ∷ q) r [] s h = absurd (ground (arith, s, h))
matches-append (x ∷ q) r (c ∷ text) s h =
    matches-append q r text (ground (arith, s)) (ground (arith, s, h))

pub suffix_any-tail_of :
    (f : List ℕ → Bool) (text : List ℕ)
    → suffix_any f text ≡ (f text || suffix_any f (tail_of text))
unfolding suffix_any
suffix_any-tail_of f [] = ground arith
suffix_any-tail_of f (c ∷ text) = refl

pub suffix_any-drop_le :
    (f : List ℕ → Bool) (n : ℕ) (text : List ℕ)
    → suffix_any f (drop n text) ≡ true
    → suffix_any f text ≡ true
unfolding suffix_any drop
suffix_any-drop_le f n [] h = sym (ap (suffix_any f) (drop-nil n)) ∙ h
suffix_any-drop_le f zero (c ∷ text) h = h
suffix_any-drop_le f (suc n) (c ∷ text) h = ground (arith, suffix_any-drop_le f n text h)
