-- ===== src/Dns/Hostnames/Tests.antt =====
-- Concrete resources.
use openshift_console.Prelude.{◌≡◌, false, List, [], ◌∷◌, Option, none, some, if◌then◌else◌, refl}
use openshift_console.Prelude.Text.{Text, codes, same, split}
use openshift_console.Prelude.Text.Trim.{trim, trim_start, trim_end, is_space}
use openshift_console.Prelude.Text.Keys.{includes, lookup}
use openshift_console.Dns.Hostnames.{
  Annotations, hostname_annotation, with_annotations, is_excluded, annotation_hostnames, hosts_at,
  split_annotation_hostnames, filled_parts, uniq, uniq_from,
}
use openshift_console.Dns.Hostnames.Unique.{Fresh, names, sources, with_annotations-exact}

abbrev annotations : Annotations
annotations = (hostname_annotation, codes "a.org, b.org,") ∷ []

abbrev hosts : List (Option Text)
hosts = some (codes "b.org") ∷ none ∷ some [] ∷ some (codes "c.org") ∷ []

hosts_run : with_annotations hosts annotations ≡ codes "b.org" ∷ codes "c.org" ∷ codes "a.org" ∷ []
unfolding with_annotations annotation_hostnames is_excluded lookup hosts_at
    split_annotation_hostnames filled_parts split trim trim_start trim_end is_space same uniq
    uniq_from includes
hosts_run = refl

with_annotations-exact_example :
    Fresh [] (with_annotations hosts annotations)
    × (includes (with_annotations hosts annotations) (codes "a.org") ≡ (
        if is_excluded annotations
        then false
        else names (sources hosts annotations) (codes "a.org")))
with_annotations-exact_example =
    with_annotations-exact hosts annotations (codes "a.org") (unfold same in refl)
