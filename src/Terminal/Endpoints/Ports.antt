-- ===== src/Terminal/Endpoints/Ports.antt =====
-- The connections against the entries of the annotation.
use openshift_console.Prelude.{
  ℕ, ◌≡◌, Bool, true, false, List, [], ◌∷◌, ◌++◌, Option, none, some, if◌then◌else◌, refl, sym, ◌∙◌,
  append-nil, append_assoc, Bool-cases, Option-cases, inl, inr,
}
use openshift_console.Prelude.Text.{Text, codes, same}
use openshift_console.Prelude.Text.Trim.{trim}
use openshift_console.Prelude.Json.{
  Value, null, bool, number, string, array, object, get_field, items, Items,
}
use openshift_console.Prelude.Text.Keys.{lookup}
use openshift_console.Terminal.Endpoints.{
  Pod, VncConnection, Claims, connection, claim, known_container, add_entry, add_entries, no_claims,
  announced, vnc_connections, parse_port, has_port, is_vnc_pod, vnc_endpoints_annotation,
}

module _ {N : Type 0} (integer_of : N → Option ℕ) (is_finite : N → Bool) where
  -- The connection that an entry describes, by itself.
  abbrev pub described : List Text → Value N → Option (VncConnection N)
  described containers entry = elim entry [
    | object fs ↦ elim (known_container containers (get_field fs (codes "container"))) [
      | none ↦ none
      | some name ↦ elim (parse_port integer_of is_finite (get_field fs (codes "port"))) [
        | none ↦ none
        | some port ↦ some (connection integer_of is_finite fs name port)
      ]
    ]
    | _ ↦ none
  ]

  -- The connections that entries describe, each port with the first that names it.
  abbrev pub first_claims : List Text → List ℕ → List (Value N) → List (VncConnection N)
  first_claims containers ports [] = []
  first_claims containers ports (e ∷ es) = elim (described containers e) [
    | none ↦ first_claims containers ports es
    | some c ↦
        if has_port ports c.endpoint.port
        then first_claims containers ports es
        else c ∷ first_claims containers (c.endpoint.port ∷ ports) es
  ]

  add_entry-described :
      (containers : List Text) (claims : Claims N) (e : Value N)
      → add_entry integer_of is_finite containers claims e ≡ (elim (described containers e) [
        | none ↦ claims
        | some c ↦ if has_port claims.claimed_ports c.endpoint.port then claims else record {
          connections = claims.connections ++ c ∷ [];
          claimed_ports = c.endpoint.port ∷ claims.claimed_ports;
        }
      ])
  unfolding add_entry claim
  add_entry-described containers claims null = refl
  add_entry-described containers claims (bool b) = refl
  add_entry-described containers claims (number n) = refl
  add_entry-described containers claims (string s) = refl
  add_entry-described containers claims (array a) = refl
  add_entry-described containers claims (object fs) =
      elim (Option-cases (known_container containers (get_field fs (codes "container")))) [
        | inl unknown ↦ rw (add_entry, unknown) refl
        | inr (name, known) ↦
            elim (Option-cases (parse_port integer_of is_finite (get_field fs (codes "port")))) [
              | inl wrong ↦ rw (add_entry, known, wrong) refl
              | inr (port, right) ↦ rw (add_entry, known, right) refl
            ]
      ]

  pub add_entries-first_claims :
      (containers : List Text) (claims : Claims N) (es : List (Value N))
      → (add_entries integer_of is_finite containers claims es).connections
        ≡ claims.connections ++ first_claims containers claims.claimed_ports es
  unfolding add_entries
  add_entries-first_claims containers claims [] = sym (append-nil claims.connections)
  add_entries-first_claims containers claims (e ∷ es) =
      let step = add_entry-described containers claims e in
      elim (Option-cases (described containers e)) [
        | inl missing ↦
            rw (add_entries, first_claims, step, missing)
              (add_entries-first_claims containers claims es)
        | inr (c, d) ↦ elim (Bool-cases (has_port claims.claimed_ports c.endpoint.port)) [
          | inl taken ↦
              rw (add_entries, first_claims, step, d, taken)
                (add_entries-first_claims containers claims es)
          | inr free ↦
              rw (add_entries, first_claims, step, d, free)
                (add_entries-first_claims containers
                    record {
                      connections = claims.connections ++ c ∷ [];
                      claimed_ports = c.endpoint.port ∷ claims.claimed_ports;
                    }
                    es
                  ∙ append_assoc claims.connections (c ∷ []) _)
        ]
      ]

  -- The annotation's entries, read in order: those that are well formed, each port with the first
  -- entry that claims it.
  pub vnc_connections-first_claims :
      (parse : Text → Option (Value N)) (pod : Pod) (spec : Text) (entries : Items N)
      → is_vnc_pod pod ≡ true
      → lookup pod.annotations vnc_endpoints_annotation ≡ some spec
      → same (trim spec) [] ≡ false
      → parse (trim spec) ≡ some (array entries)
      → vnc_connections integer_of is_finite parse pod
        ≡ first_claims pod.containers [] (items entries)
  unfolding vnc_connections announced
  vnc_connections-first_claims parse pod spec entries enabled annotated filled parsed =
      rw (vnc_connections, enabled, annotated, filled, parsed)
        (add_entries-first_claims pod.containers no_claims (items entries))
