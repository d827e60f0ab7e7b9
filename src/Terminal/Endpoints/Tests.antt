-- ===== src/Terminal/Endpoints/Tests.antt =====
-- Concrete pods.
use openshift_console.Prelude.{ℕ, ◌≡◌, Bool, true, [], ◌∷◌, Option, none, some, refl, if◌then◌else◌}
use openshift_console.Prelude.Text.{Text, codes, same}
use openshift_console.Prelude.Text.Trim.{trim, is_space, trim_start, trim_end}
use openshift_console.Prelude.Json.{
  Value, Items, array, object, string, number, nil, cons, field, end, items,
}
use openshift_console.Prelude.Text.Keys.{lookup}
use openshift_console.Terminal.Endpoints.{
  Pod, vnc_enabled_label, vnc_endpoints_annotation, is_vnc_pod, vnc_connections,
  vnc_endpoints_for_container,
}
use openshift_console.Terminal.Endpoints.Ports.{first_claims, vnc_connections-first_claims}
use openshift_console.Terminal.Endpoints.Fit.{AllFit, vnc_connections-AllFit}
use openshift_console.Terminal.Endpoints.Group.{looked_up, vnc_endpoints_for_container-looked_up}

-- Numbers that are all integers.
abbrev integer : ℕ → Option ℕ
integer n = some n

abbrev finite : ℕ → Bool
finite n = true

abbrev spec : Text
spec = codes " [..] "

abbrev entry : ℕ → Value ℕ
entry port =
    object
      (field (codes "container") (string (codes "vm")) (field (codes "port") (number port) end))

abbrev entries : Items ℕ
entries = cons (entry 5900) (cons (entry 5901) (cons (entry 5900) (cons (entry 0) nil)))

-- A parser that reads the one text.
abbrev parse : Text → Option (Value ℕ)
parse s = if same s (codes "[..]") then some (array entries) else none

abbrev pod : Pod
pod = record {
  labels = (vnc_enabled_label, codes "true") ∷ [];
  annotations = (vnc_endpoints_annotation, spec) ∷ [];
  containers = codes "vm" ∷ codes "proxy" ∷ [];
}

vnc_connections-AllFit_example :
    AllFit integer finite pod.containers [] (vnc_connections integer finite parse pod)
vnc_connections-AllFit_example = vnc_connections-AllFit integer finite parse pod

vnc_connections-first_claims_example :
    vnc_connections integer finite parse pod
    ≡ first_claims integer finite pod.containers [] (items entries)
vnc_connections-first_claims_example =
    vnc_connections-first_claims integer finite parse pod spec entries
      (unfold is_vnc_pod lookup same in refl) (unfold lookup same in refl)
      (unfold trim trim_start trim_end is_space same in refl)
      (unfold trim trim_start trim_end is_space same in refl)

vnc_endpoints_for_container-looked_up_example :
    vnc_endpoints_for_container integer finite parse pod (codes "vm")
    ≡ looked_up (codes "vm") (vnc_connections integer finite parse pod)
vnc_endpoints_for_container-looked_up_example =
    vnc_endpoints_for_container-looked_up integer finite parse pod (codes "vm")
