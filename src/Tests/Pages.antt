-- ===== src/Tests/Pages.antt =====
-- The properties of the trimmed groups at the small inventory.
use unified_api.HashMap.{HashMap, contains_key}
use unified_api.Prelude.{List, String, [], some, true, ◌↔◌, ◌∷◌, ◌≡◌}
use unified_api.GroupTrim.{Listed, Trimmed, matching}
use unified_api.GroupTrim.Kept.{Keeps, matching-Keeps}

-- A page with one web server: its group and the group above are kept, the databases are not.
abbrev listed : List Listed
listed =
    record { name = "estate"; hosts = []; children = "web" ∷ "db" ∷ [] }
    ∷ record { name = "web"; hosts = "web1" ∷ "web2" ∷ []; children = [] }
    ∷ record { name = "db"; hosts = "db1" ∷ []; children = [] }
    ∷ []

abbrev page : List String
page = "web1" ∷ []

matching-Keeps_example :
    (kept : HashMap Trimmed) × (matching listed page ≡ some kept)
    × ((name : String) → (contains_key name kept ≡ true) ↔ Keeps listed page name)
matching-Keeps_example = matching-Keeps listed page
