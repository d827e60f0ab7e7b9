-- ===== src/Dns/Hostnames/Unique.antt =====
-- The hostnames are without repetition, and none is lost.
use openshift_console.Prelude.{
  ◌≡◌, Bool, true, false, ◌||◌, List, [], ◌∷◌, ◌++◌, Option, none, some, if◌then◌else◌, refl, sym,
  ap, ◌∙◌, map, Bool-cases, inl, inr,
}
use openshift_console.Prelude.Text.{Text, same}
use openshift_console.Prelude.Text.Equality.{same→eq}
use openshift_console.Prelude.Text.Keys.{includes}
use openshift_console.Dns.Hostnames.{
  Annotations, uniq_from, uniq, is_excluded, annotation_hostnames, with_annotations, hosts_at,
  hostname_annotation, internal_hostname_annotation,
}

-- Each host has text in it and is not among those before it.
abbrev pub Fresh : List Text → List Text → Type 0
Fresh seen [] = Unit
Fresh seen (h ∷ hs) = (same h [] ≡ false) × (includes seen h ≡ false) × Fresh (h ∷ seen) hs

uniq_from-Fresh :
    (seen : List Text) (hosts : List (Option Text)) → Fresh seen (uniq_from seen hosts)
unfolding uniq_from
uniq_from-Fresh seen [] = tt
uniq_from-Fresh seen (none ∷ hosts) = uniq_from-Fresh seen hosts
uniq_from-Fresh seen (some h ∷ hosts) = elim (Bool-cases (same h [])) [
  | inl e ↦ rw (uniq_from, e) (uniq_from-Fresh seen hosts)
  | inr e ↦ elim (Bool-cases (includes seen h)) [
    | inl i ↦ rw (uniq_from, e, i) (uniq_from-Fresh seen hosts)
    | inr i ↦ rw (uniq_from, e, i) (e, i, uniq_from-Fresh (h ∷ seen) hosts)
  ]
]

-- Whether a host is one of some.
abbrev pub names : List (Option Text) → Text → Bool
names [] t = false
names (none ∷ hosts) t = names hosts t
names (some h ∷ hosts) t = same h t || names hosts t

includes-cons :
    (h : Text) (hs : List Text) (t : Text) → includes (h ∷ hs) t ≡ (same h t || includes hs t)
unfolding includes
includes-cons h hs t = elim (Bool-cases (same h t)) [ inl e ↦ rw e refl | inr e ↦ rw e refl ]

rearrange : (a b r n : Bool) → ((a || b) || r) ≡ ((a || b) || n) → (b || (a || r)) ≡ (b || (a || n))
rearrange true true r n h = refl
rearrange true false r n h = refl
rearrange false true r n h = refl
rearrange false false r n h = h

same_nil : (t : Text) → same t [] ≡ false → same [] t ≡ false
unfolding same
same_nil [] h = h
same_nil (c ∷ t) h = refl

uniq_from-names :
    (seen : List Text) (hosts : List (Option Text)) (t : Text)
    → same t [] ≡ false
    → (includes seen t || includes (uniq_from seen hosts) t) ≡ (includes seen t || names hosts t)
unfolding uniq_from
uniq_from-names seen [] t h = unfold includes in refl
uniq_from-names seen (none ∷ hosts) t h = uniq_from-names seen hosts t h
uniq_from-names seen (some x ∷ hosts) t h =
    let ih = uniq_from-names seen hosts t h in
    elim (Bool-cases (same x [])) [
      | inl e ↦
          let other : same x t ≡ false = ap (λ y. same y t) (same→eq x [] e) ∙ same_nil t h in
          rw (uniq_from, e, names, other) ih
      | inr e ↦ elim (Bool-cases (includes seen x)) [
        | inl i ↦ elim (Bool-cases (same x t)) [
          | inl eq ↦
              let held : includes seen t ≡ true = ap (includes seen) (sym (same→eq x t eq)) ∙ i in
              rw (held) refl
          | inr other ↦ rw (uniq_from, e, i, names, other) ih
        ]
        | inr i ↦
            let more : ((same x t || includes seen t) || includes (uniq_from (x ∷ seen) hosts) t)
                ≡ ((same x t || includes seen t) || names hosts t) =
              rw (includes-cons x seen t) at (uniq_from-names (x ∷ seen) hosts t h) in
            rw (uniq_from, e, i, includes-cons x (uniq_from (x ∷ seen) hosts) t)
              (rearrange (same x t) (includes seen t) (includes (uniq_from (x ∷ seen) hosts) t)
                (names hosts t) more)
      ]
    ]

-- The hosts of the resource and of its annotations.
abbrev pub sources : List (Option Text) → Annotations → List (Option Text)
sources structural_hosts annotations =
    structural_hosts
    ++ map (λ h. some h)
        (hosts_at annotations hostname_annotation
          ++ hosts_at annotations internal_hostname_annotation)

with_annotations-Fresh :
    (hosts : List (Option Text)) (annotations : Annotations)
    → Fresh [] (with_annotations hosts annotations)
unfolding with_annotations annotation_hostnames uniq
with_annotations-Fresh hosts annotations = elim (Bool-cases (is_excluded annotations)) [
  | inl e ↦ rw (with_annotations, annotation_hostnames, e) tt
  | inr e ↦
      rw (with_annotations, annotation_hostnames, e)
        (uniq_from-Fresh [] (sources hosts annotations))
]

with_annotations-includes :
    (hosts : List (Option Text)) (annotations : Annotations) (t : Text)
    → same t [] ≡ false
    → includes (with_annotations hosts annotations) t
      ≡ (if is_excluded annotations then false else names (sources hosts annotations) t)
unfolding with_annotations annotation_hostnames uniq
with_annotations-includes hosts annotations t h = elim (Bool-cases (is_excluded annotations)) [
  | inl e ↦ rw (with_annotations, annotation_hostnames, e) (unfold includes in refl)
  | inr e ↦
      rw (with_annotations, annotation_hostnames, e)
        (unfold includes in uniq_from-names [] (sources hosts annotations) t h)
]

-- The hostnames of a resource hold no empty text and no text twice, and a text that is not empty is
-- one of them exactly if the resource is not excluded and one of its own hosts or of those in the
-- two annotations is that text.
pub with_annotations-exact :
    (hosts : List (Option Text)) (annotations : Annotations) (t : Text)
    → same t [] ≡ false
    → Fresh [] (with_annotations hosts annotations)
      × (includes (with_annotations hosts annotations) t
          ≡ (if is_excluded annotations then false else names (sources hosts annotations) t))
with_annotations-exact hosts annotations t h =
    (with_annotations-Fresh hosts annotations, with_annotations-includes hosts annotations t h)
