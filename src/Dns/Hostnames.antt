-- ===== src/Dns/Hostnames.antt =====
-- plugins/external-dns/src/utils/hostnames.ts: the hostnames that a resource is meant to have.
pub mod Unique
mod Tests
use openshift_console.Prelude.{
  Bool, true, false, not, ◌||◌, List, [], ◌∷◌, ◌++◌, Option, none, some, if◌then◌else◌, map,
}
use openshift_console.Prelude.Text.{Text, codes, same, split}
use openshift_console.Prelude.Text.Trim.{trim}
use openshift_console.Prelude.Text.Keys.{lookup, includes}

abbrev pub hostname_annotation : Text
hostname_annotation = codes "external-dns.alpha.kubernetes.io/hostname"

abbrev pub internal_hostname_annotation : Text
internal_hostname_annotation = codes "external-dns.alpha.kubernetes.io/internal-hostname"

abbrev pub exclude_annotation : Text
exclude_annotation = codes "external-dns.alpha.kubernetes.io/exclude"

abbrev pub Annotations : Type 0
Annotations = List (Text × Text)

-- The loop of `uniq`, with the hosts that were seen.
unfoldable pub uniq_from : List Text → List (Option Text) → List Text
uniq_from seen [] = []
uniq_from seen (none ∷ hosts) = uniq_from seen hosts
uniq_from seen (some h ∷ hosts) =
    let rest = uniq_from seen hosts in
    let more = uniq_from (h ∷ seen) hosts in if same h [] || includes seen h then rest else h ∷ more

unfoldable pub uniq : List (Option Text) → List Text
uniq hosts = uniq_from [] hosts

unfoldable pub filled_parts : List Text → List Text
filled_parts [] = []
filled_parts (p ∷ ps) =
    let rest = filled_parts ps in if same (trim p) [] then rest else trim p ∷ rest

unfoldable pub split_annotation_hostnames : Text → List Text
split_annotation_hostnames value = filled_parts (split 44 value)

-- The hosts of one annotation; a missing one, and an empty one, have none.
unfoldable pub hosts_at : Annotations → Text → List Text
hosts_at annotations key = elim (lookup annotations key) [
  | none ↦ []
  | some v ↦ if same v [] then [] else split_annotation_hostnames v
]

unfoldable pub is_excluded : Annotations → Bool
is_excluded annotations = elim (lookup annotations exclude_annotation) [
  | none ↦ false
  | some v ↦ same v (codes "true")
]

unfoldable pub annotation_hostnames : Annotations → List Text × Bool
annotation_hostnames annotations = if is_excluded annotations then ([], true) else (
  hosts_at annotations hostname_annotation ++ hosts_at annotations internal_hostname_annotation,
  false,
)

unfoldable pub with_annotations : List (Option Text) → Annotations → List Text
with_annotations structural_hosts annotations =
    let (hosts, excluded) = annotation_hostnames annotations in
    if excluded then [] else uniq (structural_hosts ++ map (λ h. some h) hosts)

-- The fields that are read, a missing list as an empty one.
pub record Ingress : Type 0 where
  ingress_annotations : Annotations
  rules : List (Option Text)
  tls : List (List Text)

unfoldable pub tls_hosts : List (List Text) → List (Option Text)
tls_hosts [] = []
tls_hosts (hs ∷ more) = map (λ h. some h) hs ++ tls_hosts more

unfoldable pub hostnames_for_ingress : Ingress → List Text
hostnames_for_ingress obj =
    with_annotations (obj.rules ++ tls_hosts obj.tls) obj.ingress_annotations

pub record LoadBalancer : Type 0 where
  hostname : Option Text
  ip : Option Text

-- `ing.hostname || ing.ip`.
unfoldable pub address : LoadBalancer → Option Text
address l = elim l.hostname [ none ↦ l.ip | some h ↦ if same h [] then l.ip else some h ]

unfoldable pub hostnames_for_service : List LoadBalancer → Annotations → List Text
hostnames_for_service ingress annotations = with_annotations (map address ingress) annotations

unfoldable pub hostnames_for_route : List Text → Annotations → List Text
hostnames_for_route hostnames annotations =
    with_annotations (map (λ h. some h) hostnames) annotations

unfoldable pub hostnames_for_tcp_or_udp_route : Annotations → List Text
hostnames_for_tcp_or_udp_route annotations = with_annotations [] annotations

unfoldable pub hostnames_for_node : Annotations → List Text
hostnames_for_node annotations = with_annotations [] annotations

unfoldable pub hostnames_for_dns_endpoint : List (Option Text) → List Text
hostnames_for_dns_endpoint names = uniq names
