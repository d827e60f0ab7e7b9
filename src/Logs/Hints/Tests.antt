-- ===== src/Logs/Hints/Tests.antt =====
-- The property at a concrete annotation.
use openshift_console.Prelude.{◌≡◌, some, map}
use openshift_console.Prelude.Text.{Text, codes, split}
use openshift_console.Logs.Hints.{annotated_format}
use openshift_console.Logs.Hints.Grouping.{token_of}
use openshift_console.Logs.Hints.Entries.{entries, last_of, annotated_format-last_of}

-- Two containers, with columns, a token that cannot be placed, and an entry that is given again.
abbrev annotation : Text
annotation = codes "app=ecs,proxy=json:ts=epoch,lvl=log-level,app=xml,user=string,app=plain"

abbrev same_case : Text → Text
same_case s = s

annotated_format-last_of_example :
    annotated_format same_case (some annotation) (codes "proxy")
    ≡ last_of (entries (map (token_of same_case) (split 44 annotation))) (codes "proxy")
annotated_format-last_of_example = annotated_format-last_of same_case annotation (codes "proxy")
