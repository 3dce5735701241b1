-- ===== src/HostFilter/Walk.antt =====
-- The last star of the walk: what is left to try there, and that the walk makes progress.
use native.Mathlib.Nat.{suc-mul}
use unified_api.Prelude.{
  Bool, List, Option, [], any, any-append, ap, append_assoc, arith, false, leb, length,
  length-append, nat_eq, none, refl, some, suc, sym, true, zero, ℕ, ◌*◌, ◌++◌, ◌+◌, ◌-◌, ◌<◌, ◌||◌,
  ◌∙◌, ◌∷◌, ◌≡◌, ◌≤◌,
}
use unified_api.HostFilter.{star, tail_of, walk}
use unified_api.HostFilter.Suffixes.{
  drop, drop-append, drop-drop, drop-suc, matches, matches-append, suffix_any, suffix_any-drop,
  suffix_any-tail_of,
}

-- Between the last star and here the pattern has no star, and as many characters as the text.
pub data Since : Option (List ℕ × List ℕ) → List ℕ → List ℕ → Type 0 where
  nowhere : {p text : List ℕ} → Since none p text
  after :
      {p text sp st : List ℕ} (q u : List ℕ)
      → sp ≡ q ++ p
      → st ≡ u ++ text
      → length q ≡ length u
      → any (nat_eq star) q ≡ false
      → any (nat_eq star) st ≡ false
      → Since (some (sp, st)) p text

-- what is left to try: the last star swallows more
unfoldable pub or_later : Option (List ℕ × List ℕ) → Bool
or_later none = false
or_later (some (sp, st)) = suffix_any (matches sp) (tail_of st)

-- If a later place for the last star matches, the pattern from here matches some suffix from here.
pub later-drop :
    (last : Option (List ℕ × List ℕ)) (p text : List ℕ)
    → Since last p text
    → or_later last ≡ true
    → (n : ℕ) × (matches p (drop n text) ≡ true)
unfolding or_later
later-drop none p text s h = absurd (ground (arith, h))
later-drop (some (sp, st)) p text (after q u ep et l free _) h =
    let (n, found) = suffix_any-drop (matches sp) (tail_of st) h in
    let there : matches (q ++ p) (drop (suc n) (u ++ text)) ≡ true =
      rw⁻¹ (ep, et) (ap (matches sp) (drop-suc n st) ∙ found) in
    (
      suc n,
      sym (
            ap (matches p) (
              drop-drop (length q) (suc n) (u ++ text)
              ∙ ap (drop (suc n)) (ap (λ k. drop k (u ++ text)) l ∙ drop-append u text)))
          ∙ matches-append q p (drop (suc n) (u ++ text)) free there,
    )

-- how many places the last star can still take
abbrev pub rank : Option (List ℕ × List ℕ) → List ℕ → ℕ
rank none text = suc (length text)
rank (some (sp, st)) text = length st

abbrev pub fits : ℕ → Option (List ℕ × List ℕ) → Bool
fits n none = true
fits n (some (sp, st)) = leb (length sp) n

pred-mul : (r k : ℕ) → 1 ≤ r → (r - 1) * k + k ≡ r * k
pred-mul zero k h = absurd (ground (arith, h))
pred-mul (suc r) k h = ap (λ x. x * k + k) (ground arith) ∙ sym (suc-mul r k)

pub length-rest :
    {p text : List ℕ} (sp st : List ℕ) → Since (some (sp, st)) p text → length text ≤ length st
length-rest {text = text} sp st (after q u ep et l free clean) =
    omega (arith, ap length et, length-append u text)

pub clean-rest :
    {p text : List ℕ} (sp st : List ℕ)
    → Since (some (sp, st)) p text
    → any (nat_eq star) (tail_of st) ≡ false
clean-rest sp [] (after q u ep et l free clean) = refl
clean-rest sp (c ∷ st) (after q u ep et l free clean) = ground (arith, clean)

length-tail_of : (text : List ℕ) → length (tail_of text) ≡ length text - 1
length-tail_of [] = ground arith
length-tail_of (c ∷ text) = ground arith

pub restart : (sp st : List ℕ) → any (nat_eq star) st ≡ false → Since (some (sp, st)) sp st
restart sp st clean = after [] [] refl refl refl refl clean

-- one more character of the pattern and of the text
pub advance :
    (last : Option (List ℕ × List ℕ)) (x c : ℕ) (p text : List ℕ)
    → nat_eq star x ≡ false
    → Since last (x ∷ p) (c ∷ text)
    → Since last p text
advance none x c p text f s = nowhere
advance (some (sp, st)) x c p text f (after q u ep et l free clean) =
    after (q ++ x ∷ []) (u ++ c ∷ []) (ep ∙ sym (append_assoc q (x ∷ []) p))
      (et ∙ sym (append_assoc u (c ∷ []) text))
      (ground (arith, l, length-append q (x ∷ []), length-append u (c ∷ [])))
      (any-append (nat_eq star) q (x ∷ []) ∙ ground (arith, free, f)) clean

-- The claim about the walk with some fuel, and that it is enough.
unfoldable pub Walks : ℕ → Type 0
Walks fuel =
    (n r : ℕ) (text p : List ℕ) (last : Option (List ℕ × List ℕ))
    → Since last p text
    → any (nat_eq star) text ≡ false
    → rank last text ≤ r
    → length p ≤ n
    → fits n last ≡ true
    → r * suc n + length p < fuel
    → walk fuel text p last ≡ some (matches p text || or_later last)

-- back to the last star
pub walk-back :
    (fuel n r : ℕ) (sp st : List ℕ)
    → Walks fuel
    → any (nat_eq star) (tail_of st) ≡ false
    → 1 ≤ length st
    → length st ≤ r
    → leb (length sp) n ≡ true
    → r * suc n ≤ fuel
    → walk fuel (tail_of st) sp (some (sp, tail_of st)) ≡ some (or_later (some (sp, st)))
unfolding Walks or_later
walk-back fuel n r sp st ih clean one below fit bound =
    ih n (r - 1) (tail_of st) sp (some (sp, tail_of st)) (restart sp (tail_of st) clean) clean
      (ground (arith, length-tail_of st, below, one)) (ground (arith, fit)) fit
      (ground (arith, pred-mul r (suc n), one, below, bound, fit))
    ∙ ap some (sym (suffix_any-tail_of (matches sp) (tail_of st)))
