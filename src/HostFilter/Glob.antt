-- ===== src/HostFilter/Glob.antt =====
-- The walk against what a glob means.
use native.Mathlib.Nat.{suc-mul}
use unified_api.Prelude.{
  Bool, Bool-cases, List, Option, [], any, ap, arith, false, inl, inr, length, nat_eq, none, refl,
  some, subst, suc, sym, true, zero, ℕ, ◌*◌, ◌||◌, ◌∙◌, ◌∷◌, ◌≡◌, ◌≤◌,
}
use unified_api.HostFilter.{all_stars, glob, question, star, tail_of, walk}
use unified_api.HostFilter.Suffixes.{drop-nil, matches, matches-nil, suffix_any, suffix_any-drop_le}
use unified_api.HostFilter.Walk.{
  Since, Walks, advance, clean-rest, fits, later-drop, length-rest, nowhere, or_later, rank,
  restart, walk-back,
}

-- a later place for the last star adds nothing to a star that stands here
star-absorbs :
    (last : Option (List ℕ × List ℕ)) (p text : List ℕ)
    → Since last (star ∷ p) text
    → (suffix_any (matches p) text || or_later last) ≡ suffix_any (matches p) text
unfolding matches
star-absorbs last p text s = elim (Bool-cases (or_later last)) [
  | inr e ↦ ground (arith, e)
  | inl e ↦
      let (n, found) = later-drop last (star ∷ p) text s e in
      ground (arith, suffix_any-drop_le (matches p) n text found)
]

walk-end :
    (last : Option (List ℕ × List ℕ)) (p : List ℕ)
    → Since last p []
    → all_stars p ≡ (matches p [] || or_later last)
walk-end last p s = elim (Bool-cases (or_later last)) [
  | inr e ↦ ground (arith, e, matches-nil p)
  | inl e ↦
      let (n, found) = later-drop last p [] s e in
      ground (arith, e, matches-nil p, ap (matches p) (drop-nil n), found)
]

length-le-rank :
    (last : Option (List ℕ × List ℕ)) (p : List ℕ) (c : ℕ) (text : List ℕ)
    → Since last p (c ∷ text)
    → suc (length text) ≤ rank last (c ∷ text)
length-le-rank none p c text s = ground arith
length-le-rank (some (sp, st)) p c text s = length-rest sp st s

abbrev walk_back : ℕ → Option (List ℕ × List ℕ) → Option Bool
walk_back fuel last = elim last [
  | none ↦ some false
  | some (sp, st) ↦ walk fuel (tail_of st) sp (some (sp, tail_of st))
]

-- on a mismatch
walk-mismatch :
    (fuel n r c : ℕ) (text p : List ℕ) (last : Option (List ℕ × List ℕ))
    → Walks fuel
    → Since last p (c ∷ text)
    → rank last (c ∷ text) ≤ r
    → fits n last ≡ true
    → r * suc n ≤ fuel
    → walk_back fuel last ≡ some (or_later last)
unfolding or_later
walk-mismatch fuel n r c text p none ih s below fit bound = refl
walk-mismatch fuel n r c text p (some (sp, st)) ih s below fit bound =
    walk-back fuel n r sp st ih (clean-rest sp st s) (ground (arith, length-rest sp st s)) below fit
      bound

shorter :
    {r : ℕ} (last : Option (List ℕ × List ℕ)) (c : ℕ) (text : List ℕ)
    → rank last (c ∷ text) ≤ r
    → rank last text ≤ r
shorter none c text h = ground (arith, h)
shorter (some (sp, st)) c text h = h

-- at a star
starred :
    (last : Option (List ℕ × List ℕ)) (q : ℕ) (p : List ℕ) (c : ℕ) (text : List ℕ)
    → star ≡ q
    → Since last (q ∷ p) (c ∷ text)
    → (suffix_any (matches p) (c ∷ text) || or_later last)
      ≡ (matches p (c ∷ text) || or_later (some (p, c ∷ text)))
unfolding suffix_any or_later
starred last q p c text here s =
    star-absorbs last p (c ∷ text) (subst (λ x. Since last (x ∷ p) (c ∷ text)) (sym here) s)

walk_lem : (fuel : ℕ) → Walks fuel
unfolding Walks walk matches
walk_lem zero n r [] p last s clean below short fit bound = ap some (walk-end last p s)
walk_lem (suc fuel) n r [] p last s clean below short fit bound = ap some (walk-end last p s)
walk_lem zero n r (c ∷ text) p last s clean below short fit bound = absurd (ground (arith, bound))
walk_lem (suc fuel) n r (c ∷ text) [] last s clean below short fit bound =
    walk-mismatch fuel n r c text [] last (walk_lem fuel) s below fit (ground (arith, bound))
walk_lem (suc fuel) n r (c ∷ text) (q ∷ p) last s clean below short fit bound =
    elim (Bool-cases (nat_eq q question || nat_eq q c)) [
      | inl e ↦
          let plain : nat_eq star q ≡ false = ground (arith, e, clean) in
          let rest : walk fuel text p last ≡ some (matches p text || or_later last) =
            walk_lem fuel n r text p last (advance last q c p text plain s) (ground (arith, clean))
              (shorter last c text below) (ground (arith, short)) fit (ground (arith, bound)) in
          ground (arith, e, plain, rest)
      | inr e ↦ elim (Bool-cases (nat_eq q star)) [
        | inl f ↦
            let here : star ≡ q = ground (arith, f) in
            let rest : walk fuel (c ∷ text) p (some (p, c ∷ text))
                ≡ some (matches p (c ∷ text) || or_later (some (p, c ∷ text))) =
              walk_lem fuel n r (c ∷ text) p (some (p, c ∷ text)) (restart p (c ∷ text) clean) clean
                (ground (arith, below, length-le-rank last (q ∷ p) c text s))
                (ground (arith, short)) (ground (arith, short)) (ground (arith, bound)) in
            ground (arith, e, f, rest, starred last q p c text here s)
        | inr f ↦
            let rest : walk_back fuel last ≡ some (or_later last) =
              walk-mismatch fuel n r c text (q ∷ p) last (walk_lem fuel) s below fit
                (ground (arith, bound)) in
            ground (arith, e, f, rest)
      ]
    ]

-- On a text without a star of its own the walk always answers, and it answers what the glob means.
pub glob-matches :
    (pattern text : List ℕ)
    → any (nat_eq star) text ≡ false
    → glob pattern text ≡ some (matches pattern text)
unfolding glob Walks or_later
glob-matches pattern text clean =
    walk_lem (suc (suc (length text)) * suc (length pattern)) (length pattern) (suc (length text))
      text pattern none nowhere clean (ground arith) (ground arith) refl
      (ground (arith, suc-mul (suc (length text)) (suc (length pattern))))
    ∙ ap some (ground arith)
