-- ===== src/Views/Ages.antt =====
-- The age of a view, and the count of its hosts that is kept between scrapes.
use mathlib.Core.List.{Memᴰ}
use unified_api.HashMap
use unified_api.HashMap.{HashMap}
use unified_api.HashMap.Laws.{get-insert}
use unified_api.Prelude.{
  Bool-cases, List, Option, Option-cases, String, [], ap, arith, eq_iff, inl, inr, map, nat_eq,
  none, refl, some, some_inj, sym, ℕ, ◌==◌, ◌∙◌, ◌∷◌, ◌≡◌, ◌≤◌,
}
use unified_api.CacheEntry
use unified_api.CacheEntry.{CacheEntry}
use unified_api.Views.{MemberSnapshot, ViewSnapshot}
use unified_api.Views.Reading.{ViewHostsMemo, count_from, hosts_count, oldest, recounted, view_age}

oldest_lem :
    (now : ℕ) (members : List MemberSnapshot) (m : MemberSnapshot) (e : CacheEntry)
    → Memᴰ m members
    → m.entry ≡ some e
    → CacheEntry.age_seconds now e ≤ oldest now members
unfolding oldest
oldest_lem now [] m e q h = elim q [ ]
oldest_lem now (x ∷ members) m e (Memᴰ.head p) h =
    let mine : x.entry ≡ some e = ap (λ (k : MemberSnapshot). k.entry) (sym p) ∙ h in
    rw mine (ground arith)
oldest_lem now (x ∷ members) m e (Memᴰ.tail q) h =
    ground (arith, oldest_lem now members m e q h, Option-cases x.entry)

-- A view is as old as its oldest member that has data: no such member is older.
pub view_age_le :
    (now : ℕ) (s : ViewSnapshot) (m : MemberSnapshot) (e : CacheEntry)
    → Memᴰ m s.members
    → m.entry ≡ some e
    → CacheEntry.age_seconds now e ≤ view_age now s
view_age_le now s m e q h = oldest_lem now s.members m e q h

-- The counts that a sequence of scrapes answers, each of a view at a generation, where `count` is
-- what a count of that view's hosts gives at that generation.
unfoldable pub scrapes : (String → ℕ → ℕ) → List (String × ℕ) → ViewHostsMemo → List ℕ
scrapes count [] memo = []
scrapes count ((view_id, generation) ∷ later) memo =
    let (answer, memo') = hosts_count view_id generation (count view_id generation) memo in
    answer ∷ scrapes count later memo'

-- Each count that is kept is right for its generation.
IsRight : (String → ℕ → ℕ) → ViewHostsMemo → Type 0
IsRight count memo =
    (view_id : String) (kept : ℕ × ℕ)
    → HashMap.get view_id memo ≡ some kept
    → kept.1 ≡ count view_id kept.0

IsRight-recounted :
    (count : String → ℕ → ℕ) (view_id : String) (generation : ℕ) (memo : ViewHostsMemo)
    → IsRight count memo
    → IsRight count (recounted view_id generation (count view_id generation) memo).1
unfolding IsRight
IsRight-recounted count view_id generation memo r j kept h = elim (Bool-cases (view_id == j)) [
  | inl e ↦
      let put : (generation, count view_id generation) ≡ kept =
        some_inj (
          sym (get-insert j view_id (generation, count view_id generation) memo ∙ rw e refl) ∙ h) in
      ground (arith, (eq_iff view_id j).0 e, ap (λ k. k.0) put, ap (λ k. k.1) put)
  | inr e ↦
      r j kept
        (sym (get-insert j view_id (generation, count view_id generation) memo ∙ rw e refl) ∙ h)
]

count_from_lem :
    (count : String → ℕ → ℕ) (o : Option (ℕ × ℕ)) (view_id : String) (generation : ℕ)
    (memo : ViewHostsMemo)
    → IsRight count memo
    → HashMap.get view_id memo ≡ o
    → ((count_from o view_id generation (count view_id generation) memo).0
        ≡ count view_id generation)
      × IsRight count (count_from o view_id generation (count view_id generation) memo).1
unfolding IsRight
count_from_lem count none view_id generation memo r h =
    (refl, IsRight-recounted count view_id generation memo r)
count_from_lem count (some (seen, kept)) view_id generation memo r h =
    elim (Bool-cases (nat_eq seen generation)) [
      | inl e ↦
          let right : kept ≡ count view_id seen = r view_id (seen, kept) h in
          rw e (ground (arith, right, e), r)
      | inr e ↦ rw e (refl, IsRight-recounted count view_id generation memo r)
    ]

scrapes-right :
    (count : String → ℕ → ℕ) (calls : List (String × ℕ)) (memo : ViewHostsMemo)
    → IsRight count memo
    → scrapes count calls memo ≡ map (λ c. count c.0 c.1) calls
unfolding scrapes hosts_count
scrapes-right count [] memo r = refl
scrapes-right count ((view_id, generation) ∷ calls) memo r =
    let (answer, next) =
      count_from_lem count (HashMap.get view_id memo) view_id generation memo r refl in
    ap
      (λ a.
        a ∷ scrapes count calls (hosts_count view_id generation (count view_id generation) memo).1)
      answer
    ∙ ap (λ rest. count view_id generation ∷ rest) (scrapes-right count calls _ next)

-- Whatever the order of the scrapes, the views and the generations, every count that is answered
-- is the one that a count at that generation gives: as long as a view's hosts depend on the
-- generation alone, a kept count is never stale.
pub scrapes_lem :
    (count : String → ℕ → ℕ) (calls : List (String × ℕ))
    → scrapes count calls [] ≡ map (λ c. count c.0 c.1) calls
unfolding IsRight HashMap.get
scrapes_lem count calls = scrapes-right count calls [] (λ j kept h. ground (arith, h))
