-- ===== src/Terminal/Endpoints.antt =====
-- plugins/terminal/src/pod/endpoints.ts: the VNC endpoints that a pod announces.
pub mod Ports
pub mod Fit
pub mod Group
mod Tests
use openshift_console.Prelude.{
  ℕ, zero, suc, ◌+◌, ◌-◌, ◌*◌, Bool, true, false, ◌&&◌, List, [], ◌∷◌, ◌++◌, Option, none, some,
  ◌==◌, leb, ltb, if◌then◌else◌, length,
}
use openshift_console.Prelude.Text.{Text, codes, same}
use openshift_console.Prelude.Text.Digits.{is_digits, digits_value}
use openshift_console.Prelude.Text.Keys.{lookup, includes, is_inherited}
use openshift_console.Prelude.Text.Trim.{trim}
use openshift_console.Prelude.Json.{Value, Fields, string, number, array, object, get_field, items}

abbrev pub default_vnc_port : ℕ
default_vnc_port = 5900

abbrev pub max_port : ℕ
max_port = 65535

abbrev pub vnc_enabled_label : Text
vnc_enabled_label = codes "vnc.container.kubernetes.io/enabled"

abbrev pub vnc_endpoints_annotation : Text
vnc_endpoints_annotation = codes "vnc.container.kubernetes.io/endpoints"

pub data VncAuth : Type 0 where
  password : Text → VncAuth
  secret_ref : Text → Option Text → VncAuth

pub record VncEndpoint (N : Type 0) : Type 0 where
  port : ℕ
  auth : Option VncAuth
  label : Option Text
  priority : Option N

pub record VncConnection (N : Type 0) : Type 0 where
  container_name : Text
  endpoint : VncEndpoint N

-- What a lookup of a container's endpoints gives: a list, a member that every object inherits, or a
-- TypeError.
pub data Looked (N : Type 0) : Type 0 where
  endpoints : List (VncEndpoint N) → Looked N
  inherited_member thrown : Looked N

-- The fields of a pod that are read; a missing one is an empty list.
pub record Pod : Type 0 where
  labels : List (Text × Text)
  annotations : List (Text × Text)
  containers : List Text

unfoldable pub is_vnc_pod : Pod → Bool
is_vnc_pod pod = elim (lookup pod.labels vnc_enabled_label) [
  | none ↦ false
  | some v ↦ same v (codes "true")
]

unfoldable pub in_range : ℕ → Option ℕ
in_range port = if leb 1 port && leb port max_port then some port else none

unfoldable pub filled_text : Text → Option Text
filled_text s = if ltb 0 (length s) then some s else none

-- A string with something in it.
unfoldable pub filled_string : {N : Type 0} → Option (Value N) → Option Text
filled_string none = none
filled_string (some v) = elim v [ string s ↦ filled_text s | _ ↦ none ]

unfoldable pub has_port : List ℕ → ℕ → Bool
has_port [] port = false
has_port (p ∷ ps) port = let rest = has_port ps port in if p == port then true else rest

-- The connections so far and the ports that they claim.
pub record Claims (N : Type 0) : Type 0 where
  connections : List (VncConnection N)
  claimed_ports : List ℕ

module _ {N : Type 0} where
  -- The container that an entry names, if the pod has it.
  unfoldable pub known_container : List Text → Option (Value N) → Option Text
  known_container containers none = none
  known_container containers (some v) = elim v [
    | string s ↦ (if includes containers s then some s else none)
    | _ ↦ none
  ]

  abbrev pub no_claims : Claims N
  no_claims = record { connections = []; claimed_ports = [] }

  unfoldable pub default_connections : List Text → List (VncConnection N)
  default_connections [] = []
  default_connections (name ∷ names) =
      record {
        container_name = name;
        endpoint = record { port = default_vnc_port; auth = none; label = none; priority = none };
      }
      ∷ []

  unfoldable pub append_endpoint :
      List (Text × List (VncEndpoint N)) → Text → VncEndpoint N → List (Text × List (VncEndpoint N))
  append_endpoint [] name e = (name, e ∷ []) ∷ []
  append_endpoint ((k, es) ∷ groups) name e =
      let rest = append_endpoint groups name e in
      if same k name then (k, es ++ e ∷ []) ∷ groups else (k, es) ∷ rest

  -- `(endpoints[name] ??= []).push(endpoint)`; `none` is the TypeError of a member that every object
  -- inherits, which is there but has no `push`.
  unfoldable pub push_endpoint :
      List (Text × List (VncEndpoint N))
      → Text
      → VncEndpoint N
      → Option (List (Text × List (VncEndpoint N)))
  push_endpoint groups name e =
      if is_inherited name then none else some (append_endpoint groups name e)

  unfoldable pub group :
      List (Text × List (VncEndpoint N))
      → List (VncConnection N)
      → Option (List (Text × List (VncEndpoint N)))
  group groups [] = some groups
  group groups (c ∷ cs) = elim (push_endpoint groups c.container_name c.endpoint) [
    | none ↦ none
    | some pushed ↦ group pushed cs
  ]

-- The numbers of the parser: which of them are integers of 0 and more, and which are finite.
module _ {N : Type 0} (integer_of : N → Option ℕ) (is_finite : N → Bool) where
  unfoldable pub parse_port : Option (Value N) → Option ℕ
  parse_port none = some default_vnc_port
  parse_port (some v) = elim v [
    | number n ↦ elim (integer_of n) [ none ↦ none | some port ↦ in_range port ]
    | string s ↦ if is_digits s then in_range (digits_value 0 s) else none
    | _ ↦ none
  ]

  unfoldable pub parse_priority : Option (Value N) → Option N
  parse_priority none = none
  parse_priority (some v) = elim v [ number n ↦ (if is_finite n then some n else none) | _ ↦ none ]

  unfoldable pub parse_secret_ref : Option (Value N) → Option VncAuth
  parse_secret_ref none = none
  parse_secret_ref (some v) = elim v [
    | object fs ↦ elim (filled_string (get_field fs (codes "name"))) [
      | none ↦ none
      | some name ↦ some (secret_ref name (filled_string (get_field fs (codes "key"))))
    ]
    | _ ↦ none
  ]

  unfoldable pub parse_auth : Option (Value N) → Option VncAuth
  parse_auth none = none
  parse_auth (some v) = elim v [
    | object fs ↦ elim (filled_string (get_field fs (codes "password"))) [
      | none ↦ parse_secret_ref (get_field fs (codes "secretRef"))
      | some s ↦ some (password s)
    ]
    | _ ↦ none
  ]

  abbrev pub connection : Fields N → Text → ℕ → VncConnection N
  connection fs container port = record {
    container_name = container;
    endpoint = record {
      port = port;
      auth = parse_auth (get_field fs (codes "auth"));
      label = filled_string (get_field fs (codes "label"));
      priority = parse_priority (get_field fs (codes "priority"));
    };
  }

  unfoldable pub claim : Claims N → Fields N → Text → Option ℕ → Claims N
  claim claims fs container none = claims
  claim claims fs container (some port) =
      if has_port claims.claimed_ports port then claims else record {
        connections = claims.connections ++ connection fs container port ∷ [];
        claimed_ports = port ∷ claims.claimed_ports;
      }

  unfoldable pub add_entry : List Text → Claims N → Value N → Claims N
  add_entry containers claims raw_entry = elim raw_entry [
    | object fs ↦ elim (known_container containers (get_field fs (codes "container"))) [
      | none ↦ claims
      | some container ↦ claim claims fs container (parse_port (get_field fs (codes "port")))
    ]
    | _ ↦ claims
  ]

  unfoldable pub add_entries : List Text → Claims N → List (Value N) → Claims N
  add_entries containers claims [] = claims
  add_entries containers claims (e ∷ es) = add_entries containers (add_entry containers claims e) es

  unfoldable pub announced : List Text → Option (Value N) → List (VncConnection N)
  announced containers none = []
  announced containers (some v) = elim v [
    | array entries ↦ (add_entries containers no_claims (items entries)).connections
    | _ ↦ []
  ]

  unfoldable pub vnc_connections : (Text → Option (Value N)) → Pod → List (VncConnection N)
  vnc_connections parse pod =
      if is_vnc_pod pod
      then elim (lookup pod.annotations vnc_endpoints_annotation) [
        | none ↦ default_connections pod.containers
        | some spec ↦
            if same (trim spec) []
            then default_connections pod.containers
            else announced pod.containers (parse (trim spec))
      ]
      else []

  unfoldable pub vnc_endpoints :
      (Text → Option (Value N)) → Pod → Option (List (Text × List (VncEndpoint N)))
  vnc_endpoints parse pod = group [] (vnc_connections parse pod)

  -- `endpoints[name] ?? []`.
  unfoldable pub vnc_endpoints_for_container : (Text → Option (Value N)) → Pod → Text → Looked N
  vnc_endpoints_for_container parse pod name = elim (vnc_endpoints parse pod) [
    | none ↦ thrown
    | some groups ↦ elim (lookup groups name) [
      | none ↦ if is_inherited name then inherited_member else endpoints []
      | some es ↦ endpoints es
    ]
  ]
