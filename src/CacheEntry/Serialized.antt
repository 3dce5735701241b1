-- ===== src/CacheEntry/Serialized.antt =====
-- domain/cache_entry.rs: the lazily built JSON of a dataset, in a write-once cell that the clones
-- of an entry share. `to_vec` is `serde_json::to_vec`, `finish` the number that the standard
-- library's `DefaultHasher` gives for the bytes.
use unified_api.Prelude.{
  List, Option, Result, String, decimal, err, hex_16, if◌then◌else◌, length, map_or, nat_eq, none,
  ok, some, ℕ, ◌+++◌, ◌>>=◌,
}
use unified_api.Dataset.{Dataset}
use unified_api.CacheEntry.{CacheEntry}

pub record SerializedJson : Type 0 where
  pub bytes : List ℕ
  pub etag : String

-- the contents of the cells, by address
abbrev pub Cells : Type 0
Cells = ℕ → Option SerializedJson

-- `OnceLock::set`: the first one wins
unfoldable pub set_cell : ℕ → SerializedJson → Cells → Cells
set_cell address json cells a = elim (cells address) [
  | some _ ↦ cells a
  | none ↦ if nat_eq a address then some json else cells a
]

unfoldable pub serialized_len : CacheEntry → Cells → Option ℕ
serialized_len e cells = elim (cells e.serialized) [
  | none ↦ none
  | some json ↦ some (length json.bytes)
]

module _ (to_vec : Dataset → Result (List ℕ)) (finish : List ℕ → ℕ) where
  unfoldable pub serialize : Dataset → Result SerializedJson
  serialize dataset = do
    bytes ← to_vec dataset
    ok (record {
      bytes = bytes;
      etag = "\"" +++ hex_16 (finish bytes) +++ "-" +++ decimal (length bytes) +++ "\"";
    })

  -- What the call answers and leaves in the cells. It looks at the cell first, among `before`, and
  -- writes it later, among `after`: between the two other threads may have written theirs.
  -- `none` is the panic of `expect`.
  unfoldable pub serialized_json :
      CacheEntry → Cells → Cells → Option (Result SerializedJson) × Cells
  serialized_json e before after = elim (before e.serialized) [
    | some cached ↦ (some (ok cached), before)
    | none ↦ elim (serialize e.dataset) [
      | err m ↦ (some (err m), after)
      | ok json ↦
          let cells = set_cell e.serialized json after in
          (map_or none (λ j. some (ok j)) (cells e.serialized), cells)
    ]
  ]
