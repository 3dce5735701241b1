-- ===== src/Tests/Paths.antt =====
-- The property of dropped paths, at a host with an object among its variables.
use unified_api.HashMap
use unified_api.HashMap.{HashMap}
use unified_api.Prelude.{[], refl, some, ◌∷◌, ◌≡◌}
use unified_api.Json.{as_object, end, entries, field, object, string}
use unified_api.Dataset.{HostVars}
use unified_api.VarPath.{VarPath, drop_path, lookup, value_at}
use unified_api.VarPath.Dropped.{drop_path_lem, reaches, related}

abbrev vars : HostVars
vars =
    ("os", string "linux")
    ∷ ("monitor", object (field "name" (string "node") (field "status" (string "up") end)))
    ∷ []

abbrev name : VarPath
name = record { text = "monitor.name"; root = "monitor"; rest = "name" ∷ [] }

abbrev status : VarPath
status = record { text = "monitor.status"; root = "monitor"; rest = "status" ∷ [] }

drop_path_lem_example : lookup (drop_path name vars) status ≡ some (string "up")
unfolding HashMap.get related reaches lookup value_at as_object entries
drop_path_lem_example = drop_path_lem name status vars refl refl refl refl
