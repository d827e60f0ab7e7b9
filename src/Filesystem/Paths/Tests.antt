-- ===== src/Filesystem/Paths/Tests.antt =====
-- Concrete paths.
use openshift_console.Prelude.{◌≡◌, List, [], ◌∷◌, length, suc, refl}
use openshift_console.Prelude.Text.{Text, codes, same, last_part}
use openshift_console.Filesystem.Paths.{root, join_path, parent_path, base_name, ancestor_paths}
use openshift_console.Filesystem.Paths.Slash.{IsName}
use openshift_console.Filesystem.Paths.Join.{tidy, join_path-parts}
use openshift_console.Filesystem.Paths.Ancestors.{
  Descends, path_of, ancestor_paths-Descends, ancestor_paths-last,
}

abbrev var : Text
var = codes "/var/"

abbrev log : Text
log = codes "log"

log-IsName : IsName log
log-IsName = (unfold same in refl, (refl, (refl, (refl, tt))))

join_path-parts_example :
    (parent_path (join_path var log) ≡ tidy var)
    × (base_name (join_path var log) ≡ log)
    × (join_path (parent_path (join_path var log)) (base_name (join_path var log))
        ≡ join_path var log)
join_path-parts_example = join_path-parts var log log-IsName

ancestor_paths-Descends_example :
    (below : List Text) × (ancestor_paths (codes "/a//b/") ≡ root ∷ below) × Descends root below
ancestor_paths-Descends_example = ancestor_paths-Descends (codes "/a//b/")

ancestor_paths-last_example :
    (last_part (ancestor_paths (path_of (log ∷ log ∷ []))) ≡ path_of (log ∷ log ∷ []))
    × (length (ancestor_paths (path_of (log ∷ log ∷ []))) ≡ suc (length (log ∷ log ∷ [])))
ancestor_paths-last_example = ancestor_paths-last log (log ∷ []) (log-IsName, (log-IsName, tt))
