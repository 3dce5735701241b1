-- ===== src/Sync/Coalescing.antt =====
-- What an answer that is not gathered rests on.
use Prim.Native.Nat.{}
use unified_api.Sync.Coordinator.{
  FullSync, Phase, Reach, Step, System, absent, advance, answer_coalesced, answered, arrive,
  coalesce, coalesced, drop, end_gather, finish, gathering, here, lead, leave, next, start, waiting,
}
use unified_api.Prelude.{
  Bool, Bool-cases, List, Option, [], all, any, ap, arith, false, if◌then◌else◌, inl, inr, leb,
  length, ltb, nat_eq, none, refl, some, sym, true, ℕ, ◌%◌, ◌&&◌, ◌+◌, ◌<◌, ◌^◌, ◌∙◌, ◌∷◌, ◌≡◌, ◌≢◌,
  ◌≤◌,
}

-- the syncs that ended before a time
earlier : ℕ → List FullSync → ℕ
earlier b [] = 0
earlier b (f ∷ fs) = let rest = earlier b fs in if ltb f.ended b then rest + 1 else rest

-- Has a full sync ended at that time or later?
abbrev pub ended_since : ℕ → List FullSync → Bool
ended_since b = any (λ (f : FullSync). leb b f.ended)

earlier-eq-length :
    (b : ℕ) (fs : List FullSync) → ended_since b fs ≡ false → earlier b fs ≡ length fs
unfolding earlier
earlier-eq-length b [] h = refl
earlier-eq-length b (f ∷ fs) h = ground (arith, earlier-eq-length b fs)

all_past :
    (b : ℕ) (fs : List FullSync)
    → all (λ (f : FullSync). ltb f.ended b) fs ≡ true
    → ended_since b fs ≡ false
all_past b [] h = refl
all_past b (f ∷ fs) h = ground (arith, all_past b fs)

past_stays :
    (b c : ℕ) (fs : List FullSync)
    → b ≤ c
    → all (λ (f : FullSync). ltb f.ended b) fs ≡ true
    → all (λ (f : FullSync). ltb f.ended c) fs ≡ true
past_stays b c [] le h = refl
past_stays b c (f ∷ fs) le h = ground (arith, past_stays b c fs)

-- Holds in every reachable state.
record Inv (s : System) : Type 0 where
  pub past : all (λ (f : FullSync). ltb f.ended s.clock) s.counted ≡ true
  pub counter : s.full_syncs ≡ length s.counted % 2 ^ 64
  pub waits :
      (i : ℕ) (c : Bool) (b n : ℕ)
      → s.threads i ≡ waiting c b n
      → (n ≡ earlier b s.counted % 2 ^ 64) × (b < s.clock)
  pub told : (i b : ℕ) → s.threads i ≡ coalesced b → ended_since b s.counted ≡ true
  pub owner : (i : ℕ) (c : Bool) (b t : ℕ) → s.threads i ≡ gathering c b t → s.lock ≡ some i

Inv-start : Inv start
unfolding earlier
Inv-start = record {
  past = refl;
  counter = omega arith;
  waits = λ i c b n h. absurd (ground (arith, h));
  told = λ i b h. absurd (ground (arith, h));
  owner = λ i c b t h. absurd (ground (arith, h));
}

arrive-Inv :
    (i : ℕ) (c : Bool) (s : System)
    → s.threads i ≡ absent
    → Inv s
    → Inv (advance i (waiting c s.clock s.full_syncs) s)
arrive-Inv i c s e inv = record {
  past = past_stays s.clock (s.clock + 1) s.counted (omega arith) inv.past;
  counter = inv.counter;
  waits = λ j c' b n h. ground (
    arith,
    h,
    inv.waits j c' b n,
    inv.counter,
    earlier-eq-length s.clock s.counted (all_past s.clock s.counted inv.past),
  );
  told = λ j b h. ground (arith, h, inv.told j b);
  owner = λ j c' b t h. ground (arith, h, inv.owner j c' b t);
}

-- Unequal readings of the counter show a sync that ended in between.
moved :
    (b n : ℕ) (s : System)
    → Inv s
    → n ≡ earlier b s.counted % 2 ^ 64
    → s.full_syncs ≢ n
    → ended_since b s.counted ≡ true
moved b n s inv seen ne = elim (Bool-cases (ended_since b s.counted)) [
  | inl e ↦ e
  | inr e ↦
      absurd
        (ne (inv.counter ∙ ap (λ k. k % 2 ^ 64) (sym (earlier-eq-length b s.counted e)) ∙ sym seen))
]

-- A step that moves one thread `i` to a phase of another kind, and counts nothing.
moves-Inv :
    (i : ℕ) (p : Phase) (lock : Option ℕ) (s : System)
    → Inv s
    → ((c : Bool) (b n : ℕ) → p ≢ waiting c b n)
    → ((b : ℕ) → p ≡ coalesced b → ended_since b s.counted ≡ true)
    → ((c : Bool) (b t : ℕ) → p ≡ gathering c b t → lock ≡ some i)
    → ((j : ℕ) (c : Bool) (b t : ℕ)
        → nat_eq i j ≡ false
        → s.threads j ≡ gathering c b t
        → lock ≡ some j)
    → Inv (record (advance i p s) { lock = lock })
moves-Inv i p lock s inv not_waiting told_p owner_p owner_s = record {
  past = past_stays s.clock (s.clock + 1) s.counted (omega arith) inv.past;
  counter = inv.counter;
  waits = λ j c b n h. elim (Bool-cases (nat_eq i j)) [
    | inl e ↦ absurd (not_waiting c b n (ground (arith, h, e)))
    | inr e ↦ ground (arith, h, e, inv.waits j c b n)
  ];
  told = λ j b h. elim (Bool-cases (nat_eq i j)) [
    | inl e ↦ told_p b (ground (arith, h, e))
    | inr e ↦ inv.told j b (ground (arith, h, e))
  ];
  owner = λ j c b t h. elim (Bool-cases (nat_eq i j)) [
    | inl e ↦ owner_p c b t (ground (arith, h, e)) ∙ ground (arith, e)
    | inr e ↦ owner_s j c b t e (ground (arith, h, e))
  ];
}

-- nobody gathers while the lock is free, and only one thread gathers at all
idle_lock :
    (s : System)
    → Inv s
    → s.lock ≡ none
    → (j : ℕ) (c : Bool) (b t : ℕ) → s.threads j ≢ gathering c b t
idle_lock s inv free j c b t h = absurd (ground (arith, free, inv.owner j c b t h))

only_one :
    (s : System)
    → Inv s
    → (i j : ℕ) (c d : Bool) (a b t u : ℕ) → s.threads i ≡ gathering c a t
    → s.threads j ≡ gathering d b u
    → i ≡ j
only_one s inv i j c d a b t u h k = ground (arith, inv.owner i c a t h, inv.owner j d b u k)

apart : (i j : ℕ) → nat_eq i j ≡ false → i ≢ j
apart i j e p = ground (arith, e, p)

counted-Inv :
    (f : FullSync) (s : System)
    → Inv s
    → f.ended < s.clock
    → ((i : ℕ) (c : Bool) (b n : ℕ) → s.threads i ≡ waiting c b n → b ≤ f.ended)
    → Inv (record s { full_syncs = (s.full_syncs + 1) % 2 ^ 64; counted = f ∷ s.counted })
unfolding earlier
counted-Inv f s inv past late = record {
  past = ground (arith, inv.past, past);
  counter = omega (arith, inv.counter);
  waits = λ i c b n h. ground (arith, inv.waits i c b n, late i c b n h);
  told = λ i b h. ground (arith, inv.told i b h);
  owner = inv.owner;
}

released-Inv :
    (i : ℕ) (p : Phase) (c : Bool) (b t : ℕ) (s : System)
    → Inv s
    → s.threads i ≡ gathering c b t
    → ((c' : Bool) (b' n : ℕ) → p ≢ waiting c' b' n)
    → ((b' : ℕ) → p ≢ coalesced b')
    → ((c' : Bool) (b' t' : ℕ) → p ≢ gathering c' b' t')
    → Inv (record (advance i p s) { lock = none })
released-Inv i p c b t s inv at not_waiting not_told not_gathering =
    moves-Inv i p none s inv not_waiting (λ b' e. absurd (not_told b' e))
      (λ c' b' t' e. absurd (not_gathering c' b' t' e))
      (λ j c' b' t' e h. absurd (apart i j e (only_one s inv i j c c' b b' t t' at h)))

finish-Inv :
    (i : ℕ) (c success : Bool) (b t : ℕ) (s : System)
    → s.threads i ≡ gathering c b t
    → Inv s
    → Inv (end_gather i c success b t s)
unfolding end_gather
finish-Inv i c success b t s at inv =
    let released : Inv (record (advance i (answered b) s) { lock = none }) =
      released-Inv i (answered b) c b t s inv at (λ c' b' n. cc) (λ b'. cc) (λ c' b' t'. cc) in
    elim (Bool-cases (c && success)) [
      | inl e ↦ rw e (
          counted-Inv (record { started = t; ended = s.clock })
            (record (advance i (answered b) s) { lock = none }) released (omega arith)
            (λ j c' b' n h. omega (arith, (released.waits j c' b' n h).1)))
      | inr e ↦ rw e released
    ]

Step-Inv : {s u : System} → Step s u → Inv s → Inv u
Step-Inv (arrive i c s at) inv = arrive-Inv i c s at inv
Step-Inv (coalesce i b n s at free ne) inv =
    moves-Inv i (coalesced b) s.lock s inv (λ c' b' n'. cc)
      (λ b' e. ground (arith, e, moved b n s inv (inv.waits i true b n at).0 ne)) (λ c' b' t'. cc)
      (λ j c' b' t' e h. inv.owner j c' b' t' h)
Step-Inv (lead i c b n s at free may) inv =
    moves-Inv i (gathering c b s.clock) (some i) s inv (λ c' b' n'. cc) (λ b'. cc)
      (λ c' b' t' e. refl) (λ j c' b' t' e h. absurd (idle_lock s inv free j c' b' t' h))
Step-Inv (finish i c success b t s at) inv = finish-Inv i c success b t s at inv
Step-Inv (leave i c b n s at) inv =
    moves-Inv i absent s.lock s inv (λ c' b' n'. cc) (λ b'. cc) (λ c' b' t'. cc)
      (λ j c' b' t' e h. inv.owner j c' b' t' h)
Step-Inv (drop i c b t s at) inv =
    released-Inv i absent c b t s inv at (λ c' b' n. cc) (λ b'. cc) (λ c' b' t'. cc)

Reach-Inv : {s : System} → Reach start s → Inv s
Reach-Inv here = Inv-start
Reach-Inv (next r st) = Step-Inv st (Reach-Inv r)

-- In every state that any interleaving of requests, gathers and callers that give up leads to, a
-- request that is answered without a gather of its own began before the end of a full sync that
-- succeeded.
pub coalesced_since :
    {s : System} (r : Reach start s) (i b : ℕ)
    → s.threads i ≡ coalesced b
    → ended_since b s.counted ≡ true
coalesced_since r i b at = (Reach-Inv r).told i b at

-- In every such state no two requests gather at once.
pub one_gathers :
    {s : System} (r : Reach start s) (i j : ℕ) (c d : Bool) (a b t u : ℕ)
    → s.threads i ≡ gathering c a t
    → s.threads j ≡ gathering d b u
    → i ≡ j
one_gathers {s} r i j c d a b t u h k = only_one s (Reach-Inv r) i j c d a b t u h k

-- A gather began before now.
abbrev Started : System → Type 0
Started s = (i : ℕ) (c : Bool) (b t : ℕ) → s.threads i ≡ gathering c b t → t < s.clock

Started-end_gather :
    (i : ℕ) (c success : Bool) (b t : ℕ) (s : System)
    → Started s
    → Started (end_gather i c success b t s)
unfolding end_gather
Started-end_gather i c success b t s old j c' b' t' h = ground (arith, h, old j c' b' t')

Started-Step : {s u : System} → Step s u → Started s → Started u
Started-Step (arrive i c s at) old j c' b' t' h = ground (arith, h, old j c' b' t')
Started-Step (coalesce i b n s at free ne) old j c' b' t' h = ground (arith, h, old j c' b' t')
Started-Step (lead i c b n s at free may) old j c' b' t' h = ground (arith, h, old j c' b' t')
Started-Step (finish i c success b t s at) old j c' b' t' h =
    Started-end_gather i c success b t s old j c' b' t' h
Started-Step (leave i c b n s at) old j c' b' t' h = ground (arith, h, old j c' b' t')
Started-Step (drop i c b t s at) old j c' b' t' h = ground (arith, h, old j c' b' t')

Started-Reach : {s : System} → Reach start s → Started s
Started-Reach here i c b t h = absurd (ground (arith, h))
Started-Reach (next r st) i c b t h = Started-Step st (Started-Reach r) i c b t h

-- A full sync that gathers since an earlier time can be all that a later request is answered from:
-- from every state of that kind there is a continuation in which the request, which begins now, is
-- answered without a gather, and the only full sync to have ended since it began is the one that had
-- begun to gather before it.
pub older_gather_answers :
    {s : System} (r : Reach start s) (i j : ℕ) (a t : ℕ)
    → s.threads i ≡ gathering true a t
    → s.threads j ≡ absent
    → (u : System) × Reach s u
      × (u.threads j ≡ coalesced s.clock)
      × (u.counted ≡ record { started = t; ended = s.clock + 1 } ∷ s.counted)
      × (ended_since s.clock s.counted ≡ false)
      × (t < s.clock)
unfolding end_gather
older_gather_answers {s} r i j a t gathers new =
    let inv = Reach-Inv r in
    let apart_ij : nat_eq j i ≡ false = ground (arith, gathers, new) in
    let s₁ : System = advance j (waiting true s.clock s.full_syncs) s in
    let s₂ : System = end_gather i true true a t s₁ in
    let at_i : s₁.threads i ≡ gathering true a t = rw apart_ij gathers in
    let at_j : s₂.threads j ≡ waiting true s.clock s.full_syncs = ground (arith, apart_ij) in
    (
      answer_coalesced j s.clock s₂,
      next (next (next here (arrive j true s new)) (finish i true true a t s₁ at_i)) (
          coalesce j s.clock s.full_syncs s₂ at_j refl
            (λ e. absurd (omega (arith, e, inv.counter)))),
      ground arith,
      refl,
      all_past s.clock s.counted inv.past,
      Started-Reach r i true a t gathers,
    )
