-- ===== src/Terminal/Endpoints/Fit.antt =====
-- Every connection leads to a container of the pod, on a port of its own.
use openshift_console.Prelude.{
  ℕ, ◌≡◌, ◌≤◌, Bool, true, false, List, [], ◌∷◌, Option, none, some, refl, Bool-cases, Option-cases,
  inl, inr, arith,
}
use openshift_console.Prelude.Text.{Text, codes, same}
use openshift_console.Prelude.Text.Equality.{same_refl}
use openshift_console.Prelude.Text.Trim.{trim}
use openshift_console.Prelude.Json.{
  Value, null, bool, number, string, array, object, get_field, items,
}
use openshift_console.Prelude.Text.Keys.{includes, lookup}
use openshift_console.Prelude.Text.Digits.{is_digits, digits_value}
use openshift_console.Terminal.Endpoints.{
  Pod, VncConnection, connection, known_container, no_claims, default_connections, announced,
  vnc_connections, parse_port, in_range, has_port, is_vnc_pod, max_port, vnc_endpoints_annotation,
}
use openshift_console.Terminal.Endpoints.Ports.{described, first_claims, add_entries-first_claims}

module _ {N : Type 0} (integer_of : N → Option ℕ) (is_finite : N → Bool) where
  -- A connection to a container that the pod has, on a port in range that is not among the others.
  abbrev pub IsFit : List Text → List ℕ → VncConnection N → Type 0
  IsFit containers ports c =
      (includes containers c.container_name ≡ true)
      × (1 ≤ c.endpoint.port)
      × (c.endpoint.port ≤ max_port)
      × (has_port ports c.endpoint.port ≡ false)

  -- Each connection is fit beside those before it.
  abbrev pub AllFit : List Text → List ℕ → List (VncConnection N) → Type 0
  AllFit containers ports [] = Unit
  AllFit containers ports (c ∷ cs) =
      IsFit containers ports c × AllFit containers (c.endpoint.port ∷ ports) cs

  in_range-bounds : (n port : ℕ) → in_range n ≡ some port → (1 ≤ port) × (port ≤ max_port)
  unfolding in_range
  in_range-bounds n port h = ground arith

  parse_port-bounds :
      (raw : Option (Value N)) (port : ℕ)
      → parse_port integer_of is_finite raw ≡ some port
      → (1 ≤ port) × (port ≤ max_port)
  unfolding parse_port
  parse_port-bounds none port h = ground arith
  parse_port-bounds (some null) port h = cc
  parse_port-bounds (some (bool b)) port h = cc
  parse_port-bounds (some (array a)) port h = cc
  parse_port-bounds (some (object fs)) port h = cc
  parse_port-bounds (some (number n)) port h = elim (Option-cases (integer_of n)) [
    | inl e ↦ let w : none ≡ some port = rw (parse_port, e) at h in cc
    | inr (k, e) ↦ in_range-bounds k port (rw (parse_port, e) at h)
  ]
  parse_port-bounds (some (string s)) port h = elim (Bool-cases (is_digits s)) [
    | inl e ↦ in_range-bounds (digits_value 0 s) port (rw (parse_port, e) at h)
    | inr e ↦ let w : none ≡ some port = rw (parse_port, e) at h in cc
  ]

  known_container-includes :
      (containers : List Text) (raw : Option (Value N)) (name : Text)
      → known_container containers raw ≡ some name
      → includes containers name ≡ true
  unfolding known_container
  known_container-includes containers none name h = cc
  known_container-includes containers (some null) name h = cc
  known_container-includes containers (some (bool b)) name h = cc
  known_container-includes containers (some (array a)) name h = cc
  known_container-includes containers (some (object fs)) name h = cc
  known_container-includes containers (some (number n)) name h = cc
  known_container-includes containers (some (string s)) name h = ground arith

  described-IsKnown :
      (containers : List Text) (e : Value N) (c : VncConnection N)
      → described integer_of is_finite containers e ≡ some c
      → (includes containers c.container_name ≡ true)
        × (1 ≤ c.endpoint.port)
        × (c.endpoint.port ≤ max_port)
  described-IsKnown containers null c h = cc
  described-IsKnown containers (bool b) c h = cc
  described-IsKnown containers (number n) c h = cc
  described-IsKnown containers (string s) c h = cc
  described-IsKnown containers (array a) c h = cc
  described-IsKnown containers (object fs) c h =
      elim (Option-cases (known_container containers (get_field fs (codes "container")))) [
        | inl unknown ↦ let w : none ≡ some c = rw (described, unknown) at h in cc
        | inr (name, known) ↦
            elim (Option-cases (parse_port integer_of is_finite (get_field fs (codes "port")))) [
              | inl wrong ↦ let w : none ≡ some c = rw (described, known, wrong) at h in cc
              | inr (port, right) ↦
                  let w : some (connection integer_of is_finite fs name port) ≡ some c =
                    rw (described, known, right) at h in
                  let same_one : connection integer_of is_finite fs name port ≡ c = cc in
                  let (low, high) = parse_port-bounds _ port right in
                  rw⁻¹ same_one (known_container-includes containers _ name known, low, high)
            ]
      ]

  first_claims-AllFit :
      (containers : List Text) (ports : List ℕ) (es : List (Value N))
      → AllFit containers ports (first_claims integer_of is_finite containers ports es)
  first_claims-AllFit containers ports [] = tt
  first_claims-AllFit containers ports (e ∷ es) =
      elim (Option-cases (described integer_of is_finite containers e)) [
        | inl missing ↦ rw (first_claims, missing) (first_claims-AllFit containers ports es)
        | inr (c, d) ↦ elim (Bool-cases (has_port ports c.endpoint.port)) [
          | inl taken ↦ rw (first_claims, d, taken) (first_claims-AllFit containers ports es)
          | inr free ↦
              let (known, low, high) = described-IsKnown containers e c d in
              rw (first_claims, d, free)
                (
                  (known, low, high, free),
                  first_claims-AllFit containers (c.endpoint.port ∷ ports) es,
                )
        ]
      ]

  default-AllFit :
      (containers : List Text) → AllFit containers [] (default_connections {N = N} containers)
  unfolding default_connections has_port includes
  default-AllFit [] = tt
  default-AllFit (name ∷ names) = ((rw (same_refl name) refl, omega arith, omega arith, refl), tt)

  announced-AllFit :
      (containers : List Text) (v : Option (Value N))
      → AllFit containers [] (announced integer_of is_finite containers v)
  unfolding announced
  announced-AllFit containers none = tt
  announced-AllFit containers (some (array entries)) =
      rw (add_entries-first_claims integer_of is_finite containers no_claims (items entries))
        (first_claims-AllFit containers [] (items entries))
  announced-AllFit containers (some null) = tt
  announced-AllFit containers (some (bool b)) = tt
  announced-AllFit containers (some (number n)) = tt
  announced-AllFit containers (some (string s)) = tt
  announced-AllFit containers (some (object fs)) = tt

  -- Whatever the annotation holds, every connection leads to a container that the pod has, on a
  -- port from 1 to 65535 that no connection before it has.
  pub vnc_connections-AllFit :
      (parse : Text → Option (Value N)) (pod : Pod)
      → AllFit pod.containers [] (vnc_connections integer_of is_finite parse pod)
  unfolding vnc_connections
  vnc_connections-AllFit parse pod = elim (Bool-cases (is_vnc_pod pod)) [
    | inr e ↦ rw (vnc_connections, e) tt
    | inl e ↦ elim (Option-cases (lookup pod.annotations vnc_endpoints_annotation)) [
      | inl n ↦ rw (vnc_connections, e, n) (default-AllFit pod.containers)
      | inr (spec, s) ↦ elim (Bool-cases (same (trim spec) [])) [
        | inl b ↦ rw (vnc_connections, e, s, b) (default-AllFit pod.containers)
        | inr b ↦
            rw (vnc_connections, e, s, b) (announced-AllFit pod.containers (parse (trim spec)))
      ]
    ]
  ]
