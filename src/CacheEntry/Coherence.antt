-- ===== src/CacheEntry/Coherence.antt =====
-- Whatever the threads of `Sharing` do, every answer is the serialization of the entry's own dataset.
use unified_api.CacheEntry.Cells.{
  Reach-live, mem_cases, perform_cell, set_cell_cases, set_cell_self,
}
use mathlib.Core.List.{Memᴰ}
use unified_api.Prelude.{
  List, Option-cases, Result, Result-cases, String, [], ap, arith, err, inl, inr, none, ok,
  ok-injective, some, sym, ℕ, ◌∙◌, ◌∷◌, ◌≡◌,
}
use unified_api.Dataset.{Dataset}
use unified_api.CacheEntry.{CacheEntry}
use unified_api.CacheEntry.Writes.{perform}
use unified_api.CacheEntry.Serialized.{Cells, SerializedJson, serialize, serialized_json, set_cell}
use unified_api.CacheEntry.Sharing.{
  IsUnused, Reach, Step, System, creates, here, next, publishes, writes,
}

module _ (to_vec : Dataset → Result (List ℕ)) (finish : List ℕ → ℕ) where
  pub record IsCoherent (s : System) : Type 0 where
    -- entries that share a cell have one dataset
    pub shared :
        (a b : CacheEntry)
        → Memᴰ a s.live
        → Memᴰ b s.live
        → a.serialized ≡ b.serialized
        → a.dataset ≡ b.dataset
    -- and the cell, once it is written, holds that dataset's serialization
    pub current :
        (a : CacheEntry) (json : SerializedJson)
        → Memᴰ a s.live
        → s.cells a.serialized ≡ some json
        → serialize to_vec finish a.dataset ≡ ok json

  IsCoherent-add_unused :
      (s : System) (e : CacheEntry) (address : ℕ)
      → IsCoherent s
      → IsUnused s address
      → e.serialized ≡ address
      → IsCoherent (record s { live = e ∷ s.live })
  IsCoherent-add_unused s e address h u at = record {
    shared = λ a b p q same. elim (mem_cases p) [
      | inl x ↦ elim (mem_cases q) [
        | inl y ↦ ap (λ (c : CacheEntry). c.dataset) (x ∙ sym y)
        | inr y ↦ absurd (u.unshared b y (sym same ∙ ap (λ (c : CacheEntry). c.serialized) x ∙ at))
      ]
      | inr x ↦ elim (mem_cases q) [
        | inl y ↦ absurd (u.unshared a x (same ∙ ap (λ (c : CacheEntry). c.serialized) y ∙ at))
        | inr y ↦ h.shared a b x y same
      ]
    ];
    current = λ a json p q. elim (mem_cases p) [
      | inl x ↦
          let empty : s.cells a.serialized ≡ none =
            rw (ap (λ (c : CacheEntry). c.serialized) x ∙ at) u.empty in
          cc
      | inr x ↦ h.current a json x q
    ];
  }

  IsCoherent-add_like :
      (s : System) (e e' : CacheEntry)
      → IsCoherent s
      → Memᴰ e s.live
      → e'.serialized ≡ e.serialized
      → e'.dataset ≡ e.dataset
      → IsCoherent (record s { live = e' ∷ s.live })
  IsCoherent-add_like s e e' h m cell kept = record {
    shared = λ a b p q same. elim (mem_cases p) [
      | inl x ↦ elim (mem_cases q) [
        | inl y ↦ ap (λ (c : CacheEntry). c.dataset) (x ∙ sym y)
        | inr y ↦ like a x ∙ h.shared e b m y (sym (cell_of a x) ∙ same)
      ]
      | inr x ↦ elim (mem_cases q) [
        | inl y ↦ h.shared a e x m (same ∙ cell_of b y) ∙ sym (like b y)
        | inr y ↦ h.shared a b x y same
      ]
    ];
    current = λ a json p q. elim (mem_cases p) [
      | inl x ↦ rw (like a x) (h.current e json m (rw (cell_of a x) at q))
      | inr x ↦ h.current a json x q
    ];
  }
    where
      cell_of : (a : CacheEntry) → a ≡ e' → a.serialized ≡ e.serialized
      cell_of a x = ap (λ (c : CacheEntry). c.serialized) x ∙ cell

      like : (a : CacheEntry) → a ≡ e' → a.dataset ≡ e.dataset
      like a x = ap (λ (c : CacheEntry). c.dataset) x ∙ kept

  IsCoherent-set_cell :
      (s : System) (e : CacheEntry) (json : SerializedJson)
      → IsCoherent s
      → Memᴰ e s.live
      → serialize to_vec finish e.dataset ≡ ok json
      → IsCoherent (record s { cells = set_cell e.serialized json s.cells })
  IsCoherent-set_cell s e json h m p = record {
    shared = h.shared;
    current = λ a json' q r. elim (set_cell_cases e.serialized a.serialized json json' s.cells r) [
      | inl old ↦ h.current a json' q old
      | inr (same, mine) ↦ rw (h.shared a e q m same, mine) p
    ];
  }

  IsCoherent-Step : {s t : System} → Step to_vec finish s t → IsCoherent s → IsCoherent t
  IsCoherent-Step {s} (creates env e u at now) h =
      rw now (IsCoherent-add_unused s e env.cell h u at)
  IsCoherent-Step {s} (writes env w e u m now) h = elim (perform_cell env w e) [
    | inl fresh ↦ rw now (IsCoherent-add_unused s (perform env w e) env.cell h u fresh)
    | inr (cell, kept) ↦ rw now (IsCoherent-add_like s e (perform env w e) h m cell kept)
  ]
  IsCoherent-Step {s} (publishes e json m p now) h = rw now (IsCoherent-set_cell s e json h m p)

  IsCoherent-Reach : {s t : System} → IsCoherent s → Reach to_vec finish s t → IsCoherent t
  IsCoherent-Reach h here = h
  IsCoherent-Reach h (next r st) = IsCoherent-Step st (IsCoherent-Reach h r)

  abbrev pub nothing : System
  nothing = record { live = []; cells = λ _. none }

  IsCoherent-nothing : IsCoherent nothing
  IsCoherent-nothing = record {
    shared = λ a b p q same. elim p [ ];
    current = λ a json p q. elim p [ ];
  }

  module _ (before after : Cells) (e : CacheEntry) where
    answer_cached :
        (cached : SerializedJson)
        → before e.serialized ≡ some cached
        → serialize to_vec finish e.dataset ≡ ok cached
        → (serialized_json to_vec finish e before after).0
          ≡ some (serialize to_vec finish e.dataset)
    unfolding serialized_json
    answer_cached cached w p = ground arith

    answer_error :
        (message : String)
        → before e.serialized ≡ none
        → serialize to_vec finish e.dataset ≡ err message
        → (serialized_json to_vec finish e before after).0
          ≡ some (serialize to_vec finish e.dataset)
    unfolding serialized_json
    answer_error message w p = ground arith

    answer_built :
        (json j : SerializedJson)
        → before e.serialized ≡ none
        → serialize to_vec finish e.dataset ≡ ok json
        → set_cell e.serialized json after e.serialized ≡ some j
        → j ≡ json
        → (serialized_json to_vec finish e before after).0
          ≡ some (serialize to_vec finish e.dataset)
    unfolding serialized_json
    answer_built json j w p written same = ground arith

  -- Whatever has been created, cloned, written and published, and whatever other threads did
  -- between a reader's look at the cell and its write to it: the reader is answered with the
  -- serialization of its own entry's dataset, or with that serialization's error. It never panics.
  pub serialized_json_is_current :
      (s t : System) (e : CacheEntry)
      → Reach to_vec finish nothing s
      → Reach to_vec finish s t
      → Memᴰ e s.live
      → (serialized_json to_vec finish e s.cells t.cells).0
        ≡ some (serialize to_vec finish e.dataset)
  serialized_json_is_current s t e r r' m =
      let before = IsCoherent-Reach IsCoherent-nothing r in
      let after = IsCoherent-Reach before r' in
      elim (Option-cases (s.cells e.serialized)) [
        | inr (cached, w) ↦ answer_cached s.cells t.cells e cached w (before.current e cached m w)
        | inl w ↦ elim (Result-cases (serialize to_vec finish e.dataset)) [
          | inr (message, failed) ↦ answer_error s.cells t.cells e message w failed
          | inl (json, done) ↦
              let (j, written) = set_cell_self e.serialized json t.cells in
              let same : j ≡ json =
                elim (set_cell_cases e.serialized e.serialized json j t.cells written) [
                  | inl old ↦ ok-injective (sym (after.current e j (Reach-live m r') old) ∙ done)
                  | inr (_, mine) ↦ mine
                ] in
              answer_built s.cells t.cells e json j w done written same
        ]
      ]
