-- ===== src/Filesystem/Paths/Join.antt =====
-- Joining a directory and a name, and taking them apart again.
use openshift_console.Prelude.{
  ℕ, suc, ◌≡◌, false, [], ◌∷◌, ◌++◌, some, ◌==◌, if◌then◌else◌, length, refl, ap, ◌∙◌, arith, take,
  inl, inr, Bool-cases, sym,
}
use openshift_console.Prelude.Text.{Text, same}
use openshift_console.Prelude.Text.Equality.{same→eq}
use openshift_console.Prelude.Text.Lines.{drop-append_self}
use openshift_console.Filesystem.Paths.{
  slash, root, trim_slashes, last_slash, join_path, parent_path, base_name,
}
use openshift_console.Filesystem.Paths.Slash.{
  IsName, same-cons, same-append_cons, trim_slashes-append, last_slash-append,
  trim_slashes-idempotent,
}

-- A directory without the slashes at its end, or the root where nothing is left.
abbrev pub tidy : Text → Text
tidy dir = if same (trim_slashes dir) [] then root else trim_slashes dir

take-prefix : (s t : Text) → take (length s) (s ++ t) ≡ s
take-prefix [] t = refl
take-prefix (c ∷ s) t = ap (λ (u : Text). c ∷ u) (take-prefix s t)

join_path-eq : (dir name : Text) → join_path dir name ≡ trim_slashes dir ++ slash ∷ name
unfolding join_path trim_slashes same
join_path-eq dir name = elim (Bool-cases (same dir root)) [
  | inl e ↦ rw e (ap (λ (d : Text). trim_slashes d ++ slash ∷ name) (sym (same→eq dir root e)))
  | inr e ↦ rw e refl
]

suc_nonzero : (n : ℕ) → (suc n == 0) ≡ false
suc_nonzero n = ground arith

pub parent_path-append :
    (dir name : Text)
    → IsName name
    → parent_path (dir ++ slash ∷ name) ≡ (if same dir [] then root else dir)
unfolding parent_path
parent_path-append [] name h =
    let t : trim_slashes (slash ∷ name) ≡ slash ∷ name = trim_slashes-append [] name h in
    let l : last_slash (slash ∷ name) ≡ some 0 = last_slash-append [] name h.1 in
    rw (parent_path, t, l) (unfold same in refl)
parent_path-append (c ∷ dir) name h =
    rw
      (
        parent_path,
        trim_slashes-append (c ∷ dir) name h,
        last_slash-append (c ∷ dir) name h.1,
        trim_slashes-append (c ∷ dir) name h,
        suc_nonzero (length dir),
        same-cons c dir,
      )
      (take-prefix (c ∷ dir) (slash ∷ name))

base_name-append : (dir name : Text) → IsName name → base_name (dir ++ slash ∷ name) ≡ name
unfolding base_name
base_name-append dir name h =
    rw
      (
        trim_slashes-append dir name h,
        same-append_cons dir slash name,
        last_slash-append dir name h.1,
        trim_slashes-append dir name h,
      )
      (drop-append_self dir name slash)

parent_path-join_path :
    (dir name : Text) → IsName name → parent_path (join_path dir name) ≡ tidy dir
parent_path-join_path dir name h =
    ap parent_path (join_path-eq dir name) ∙ parent_path-append (trim_slashes dir) name h

base_name-join_path : (dir name : Text) → IsName name → base_name (join_path dir name) ≡ name
base_name-join_path dir name h =
    ap base_name (join_path-eq dir name) ∙ base_name-append (trim_slashes dir) name h

trim_slashes-tidy : (dir : Text) → trim_slashes (tidy dir) ≡ trim_slashes dir
unfolding trim_slashes same
trim_slashes-tidy dir = elim (Bool-cases (same (trim_slashes dir) [])) [
  | inl e ↦ rw (e, same→eq (trim_slashes dir) [] e) refl
  | inr e ↦ rw e (trim_slashes-idempotent dir)
]

join_path-parent_path :
    (dir name : Text)
    → IsName name
    → join_path (parent_path (join_path dir name)) (base_name (join_path dir name))
      ≡ join_path dir name
join_path-parent_path dir name h =
    rw (parent_path-join_path dir name h, base_name-join_path dir name h)
      (join_path-eq (tidy dir) name
        ∙ ap (λ (d : Text). d ++ slash ∷ name) (trim_slashes-tidy dir)
        ∙ sym (join_path-eq dir name))

-- A path that is joined of a directory and a name (some characters, none a slash) has as its parent
-- the directory without the slashes at its end, or the root where nothing is left; its last name is
-- the name; and joined again, the two give the path.
pub join_path-parts :
    (dir name : Text)
    → IsName name
    → (parent_path (join_path dir name) ≡ tidy dir)
      × (base_name (join_path dir name) ≡ name)
      × (join_path (parent_path (join_path dir name)) (base_name (join_path dir name))
          ≡ join_path dir name)
join_path-parts dir name h = (
  parent_path-join_path dir name h,
  base_name-join_path dir name h,
  join_path-parent_path dir name h,
)
