-- ===== src/Terminal/Endpoints/Group.antt =====
-- The endpoints by container.
use openshift_console.Prelude.{
  ℕ, ◌≡◌, Bool, true, false, List, [], ◌∷◌, ◌++◌, Option, none, some, if◌then◌else◌, refl, sym, ap,
  ◌∙◌, ◌||◌, append-nil, append_assoc, Bool-cases, inl, inr, Option-cases,
}
use openshift_console.Prelude.Text.{Text, same}
use openshift_console.Prelude.Text.Equality.{same→eq, same_refl}
use openshift_console.Prelude.Json.{Value}
use openshift_console.Prelude.Text.Keys.{lookup, is_inherited}
use openshift_console.Terminal.Endpoints.{
  Pod, VncEndpoint, VncConnection, Looked, endpoints, inherited_member, thrown, append_endpoint,
  push_endpoint, group, vnc_connections, vnc_endpoints, vnc_endpoints_for_container,
}

module _ {N : Type 0} where
  -- The endpoints of one container, as they stand in the list.
  abbrev pub endpoints_of : Text → List (VncConnection N) → List (VncEndpoint N)
  endpoints_of name [] = []
  endpoints_of name (c ∷ cs) =
      let rest = endpoints_of name cs in
      if same c.container_name name then c.endpoint ∷ rest else rest

  abbrev found : List (Text × List (VncEndpoint N)) → Text → List (VncEndpoint N)
  found groups name = elim (lookup groups name) [ none ↦ [] | some es ↦ es ]

  module _ (groups : List (Text × List (VncEndpoint N))) (k name : Text)
      (es : List (VncEndpoint N)) where
    found-cons_here : same k name ≡ true → found ((k, es) ∷ groups) name ≡ es
    unfolding lookup
    found-cons_here h = rw (found, h) refl

    found-cons_there : same k name ≡ false → found ((k, es) ∷ groups) name ≡ found groups name
    unfolding lookup
    found-cons_there h = rw (found, h) refl

  found-append_same :
      (groups : List (Text × List (VncEndpoint N))) (name : Text) (e : VncEndpoint N)
      → found (append_endpoint groups name e) name ≡ found groups name ++ e ∷ []
  unfolding append_endpoint lookup
  found-append_same [] name e = found-cons_here [] name name (e ∷ []) (same_refl name)
  found-append_same ((k, es) ∷ groups) name e = elim (Bool-cases (same k name)) [
    | inl h ↦ rw h (
        found-cons_here groups k name (es ++ e ∷ []) h
        ∙ ap (λ t. t ++ e ∷ []) (sym (found-cons_here groups k name es h)))
    | inr h ↦ rw h (
        found-cons_there (append_endpoint groups name e) k name es h
        ∙ found-append_same groups name e
        ∙ ap (λ t. t ++ e ∷ []) (sym (found-cons_there groups k name es h)))
  ]

  found-append_other :
      (groups : List (Text × List (VncEndpoint N))) (name other : Text) (e : VncEndpoint N)
      → same other name ≡ false
      → found (append_endpoint groups other e) name ≡ found groups name
  unfolding append_endpoint lookup
  found-append_other [] name other e d = found-cons_there [] other name (e ∷ []) d
  found-append_other ((k, es) ∷ groups) name other e d = elim (Bool-cases (same k other)) [
    | inl h ↦
        let away : same k name ≡ false = ap (λ t. same t name) (same→eq k other h) ∙ d in
        rw h (
          found-cons_there groups k name (es ++ e ∷ []) away
          ∙ sym (found-cons_there groups k name es away))
    | inr h ↦ elim (Bool-cases (same k name)) [
      | inl n ↦ rw h (
          found-cons_here (append_endpoint groups other e) k name es n
          ∙ sym (found-cons_here groups k name es n))
      | inr n ↦ rw h (
          found-cons_there (append_endpoint groups other e) k name es n
          ∙ found-append_other groups name other e d
          ∙ sym (found-cons_there groups k name es n))
    ]
  ]

  -- The groups, where no name is an inherited one.
  abbrev grouped :
      List (Text × List (VncEndpoint N))
      → List (VncConnection N)
      → List (Text × List (VncEndpoint N))
  grouped groups [] = groups
  grouped groups (c ∷ cs) = grouped (append_endpoint groups c.container_name c.endpoint) cs

  found-grouped :
      (groups : List (Text × List (VncEndpoint N))) (cs : List (VncConnection N)) (name : Text)
      → found (grouped groups cs) name ≡ found groups name ++ endpoints_of name cs
  found-grouped groups [] name = sym (append-nil (found groups name))
  found-grouped groups (c ∷ cs) name = elim (Bool-cases (same c.container_name name)) [
    | inl h ↦
        let here = same→eq c.container_name name h in
        rw h (
          found-grouped (append_endpoint groups c.container_name c.endpoint) cs name
          ∙ ap (λ es. es ++ endpoints_of name cs)
              (ap (λ n. found (append_endpoint groups n c.endpoint) name) here
                ∙ found-append_same groups name c.endpoint)
          ∙ append_assoc (found groups name) (c.endpoint ∷ []) (endpoints_of name cs))
    | inr h ↦ rw h (
        found-grouped (append_endpoint groups c.container_name c.endpoint) cs name
        ∙ ap (λ es. es ++ endpoints_of name cs)
            (found-append_other groups name c.container_name c.endpoint h))
  ]

  -- Some connection's container bears the name of an inherited member.
  abbrev pub names_inherited : List (VncConnection N) → Bool
  names_inherited [] = false
  names_inherited (c ∷ cs) = is_inherited c.container_name || names_inherited cs

  abbrev pub looked_up : Text → List (VncConnection N) → Looked N
  looked_up name cs =
      if names_inherited cs
      then thrown
      else if is_inherited name
      then inherited_member
      else endpoints (endpoints_of name cs)

  group-inherited :
      (groups : List (Text × List (VncEndpoint N))) (cs : List (VncConnection N))
      → names_inherited cs ≡ true
      → group groups cs ≡ none
  unfolding group push_endpoint
  group-inherited groups [] h = cc
  group-inherited groups (c ∷ cs) h = elim (Bool-cases (is_inherited c.container_name)) [
    | inl e ↦ rw (group, push_endpoint, e) refl
    | inr e ↦
        rw (group, push_endpoint, e)
          (group-inherited (append_endpoint groups c.container_name c.endpoint) cs (rw e at h))
  ]

  group-grouped :
      (groups : List (Text × List (VncEndpoint N))) (cs : List (VncConnection N))
      → names_inherited cs ≡ false
      → group groups cs ≡ some (grouped groups cs)
  unfolding group push_endpoint
  group-grouped groups [] h = refl
  group-grouped groups (c ∷ cs) h = elim (Bool-cases (is_inherited c.container_name)) [
    | inl e ↦ let w : true ≡ false = rw e at h in cc
    | inr e ↦
        rw (group, push_endpoint, e)
          (group-grouped (append_endpoint groups c.container_name c.endpoint) cs (rw e at h))
  ]

  lookup-append_other :
      (groups : List (Text × List (VncEndpoint N))) (name other : Text) (e : VncEndpoint N)
      → same other name ≡ false
      → lookup groups name ≡ none
      → lookup (append_endpoint groups other e) name ≡ none
  unfolding append_endpoint lookup
  lookup-append_other [] name other e d h = rw d refl
  lookup-append_other ((k, es) ∷ groups) name other e d h = elim (Bool-cases (same k name)) [
    | inl n ↦ let w : some es ≡ none = rw n at h in cc
    | inr n ↦ elim (Bool-cases (same k other)) [
      | inl o ↦ rw (o, lookup, n) (rw n at h)
      | inr o ↦ rw (o, lookup, n) (lookup-append_other groups name other e d (rw n at h))
    ]
  ]

  lookup-grouped :
      (groups : List (Text × List (VncEndpoint N))) (cs : List (VncConnection N)) (name : Text)
      → is_inherited name ≡ true
      → names_inherited cs ≡ false
      → lookup groups name ≡ none
      → lookup (grouped groups cs) name ≡ none
  lookup-grouped groups [] name i h k = k
  lookup-grouped groups (c ∷ cs) name i h k = elim (Bool-cases (is_inherited c.container_name)) [
    | inl e ↦ let w : true ≡ false = rw e at h in cc
    | inr e ↦ elim (Bool-cases (same c.container_name name)) [
      | inl s ↦
          let w : is_inherited c.container_name ≡ true =
            ap is_inherited (same→eq c.container_name name s) ∙ i in
          cc
      | inr s ↦
          lookup-grouped (append_endpoint groups c.container_name c.endpoint) cs name i (rw e at h)
            (lookup-append_other groups name c.container_name c.endpoint s k)
    ]
  ]

module _ {N : Type 0} (integer_of : N → Option ℕ) (is_finite : N → Bool)
    (parse : Text → Option (Value N)) (pod : Pod) (name : Text) where
  -- What a lookup of a container's endpoints gives: a TypeError if the container of any connection
  -- is named like a member that every object inherits; else the inherited member if the container
  -- asked for is named so; else the endpoints of all connections of the pod that name it, in their
  -- order.
  pub vnc_endpoints_for_container-looked_up :
      vnc_endpoints_for_container integer_of is_finite parse pod name
      ≡ looked_up name (vnc_connections integer_of is_finite parse pod)
  unfolding vnc_endpoints_for_container vnc_endpoints
  vnc_endpoints_for_container-looked_up =
      let cs = vnc_connections integer_of is_finite parse pod in
      let groups = grouped [] cs in
      elim (Bool-cases (names_inherited cs)) [
        | inl h ↦ rw (vnc_endpoints_for_container, vnc_endpoints, group-inherited [] cs h, h) refl
        | inr h ↦ elim (Bool-cases (is_inherited name)) [
          | inl i ↦
              rw
                (
                  vnc_endpoints_for_container,
                  vnc_endpoints,
                  group-grouped [] cs h,
                  h,
                  lookup-grouped [] cs name i h (unfold lookup in refl),
                  i,
                )
                refl
          | inr i ↦
              let listed : found groups name ≡ endpoints_of name cs =
                unfold lookup in found-grouped [] cs name in
              elim (Option-cases (lookup groups name)) [
                | inl e ↦
                    let it : [] ≡ endpoints_of name cs = rw (found, e) at listed in
                    rw (vnc_endpoints_for_container, vnc_endpoints, group-grouped [] cs h, h, e, i)
                      (ap endpoints it)
                | inr (es, e) ↦
                    let it : es ≡ endpoints_of name cs = rw (found, e) at listed in
                    rw (vnc_endpoints_for_container, vnc_endpoints, group-grouped [] cs h, h, e, i)
                      (ap endpoints it)
              ]
        ]
      ]
