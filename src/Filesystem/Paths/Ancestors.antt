-- ===== src/Filesystem/Paths/Ancestors.antt =====
-- The chain of directories above a path.
use openshift_console.Prelude.{
  All, suc, ◌≡◌, List, [], ◌∷◌, ◌++◌, ◌==◌, if◌then◌else◌, length, refl, ap, ◌∙◌, inl, inr,
  Bool-cases, sym, append-nil, append_assoc,
}
use openshift_console.Prelude.Text.{Text, same, Lacks, split, last_part}
use openshift_console.Prelude.Text.Lines.{split-eq_single, split-append_sep, split-cases}
use openshift_console.Filesystem.Paths.{
  slash, root, trim_slashes, parent_path, ancestor_paths, filled, prefixes,
}
use openshift_console.Filesystem.Paths.Slash.{IsName, same-append_cons}
use openshift_console.Filesystem.Paths.Join.{parent_path-append}

-- Each path has the one before it as its parent.
abbrev pub Descends : Text → List Text → Type 0
Descends top [] = Unit
Descends top (p ∷ ps) = (parent_path p ≡ top) × Descends p ps

-- The path of some names.
abbrev pub path_of : List Text → Text
path_of [] = []
path_of (p ∷ ps) = slash ∷ (p ++ path_of ps)

split-All-Lacks : (s : Text) → All (Lacks slash) (split slash s)
unfolding split
split-All-Lacks [] = (tt, tt)
split-All-Lacks (c ∷ s) = elim (Bool-cases (c == slash)) [
  | inl e ↦ rw e (tt, split-All-Lacks s)
  | inr other ↦
      let (p, ps, e) = split-cases slash s in
      let (l, ls) : Lacks slash p × All (Lacks slash) ps = rw e at (split-All-Lacks s) in
      rw (other, e) ((other, l), ls)
]

filled-All-IsName : (ps : List Text) → All (Lacks slash) ps → All IsName (filled ps)
unfolding filled
filled-All-IsName [] h = tt
filled-All-IsName (p ∷ ps) (l, h) = elim (Bool-cases (same p [])) [
  | inl e ↦ rw e (filled-All-IsName ps h)
  | inr e ↦ rw e ((e, l), filled-All-IsName ps h)
]

-- Where a chain stands: the root for no text.
abbrev here : Text → Text
here current = if same current [] then root else current

prefixes-Descends :
    (current : Text) (ps : List Text)
    → All IsName ps
    → Descends (here current) (prefixes current ps)
unfolding prefixes
prefixes-Descends current [] h = tt
prefixes-Descends current (p ∷ ps) (n, h) = (
  parent_path-append current p n,
  rw (same-append_cons current slash p) at (prefixes-Descends (current ++ slash ∷ p) ps h),
)

-- Whatever the path, its chain starts at the root, and each directory on it is the parent of the
-- next.
pub ancestor_paths-Descends :
    (path : Text) → (below : List Text) × (ancestor_paths path ≡ root ∷ below) × Descends root below
unfolding ancestor_paths
ancestor_paths-Descends path = elim (Bool-cases (same (trim_slashes path) [])) [
  | inl e ↦ ([], rw e refl, tt)
  | inr e ↦ (
    prefixes [] (filled (split slash (trim_slashes path))),
    rw e refl,
    (unfold same in
        prefixes-Descends [] (filled (split slash (trim_slashes path))) (
          filled-All-IsName (split slash (trim_slashes path))
            (split-All-Lacks (trim_slashes path)))),
  )
]

split-path_of :
    (p : Text) (ps : List Text) → All IsName (p ∷ ps) → split slash (p ++ path_of ps) ≡ p ∷ ps
split-path_of p [] (h, t) = ap (split slash) (append-nil p) ∙ split-eq_single slash p h.1
split-path_of p (q ∷ qs) (h, hs) =
    split-append_sep slash p (q ++ path_of qs) h.1
    ∙ ap (λ (l : List Text). p ∷ l) (split-path_of q qs hs)

last_part-prefixes :
    (current p : Text) (ps : List Text)
    → last_part (prefixes current (p ∷ ps)) ≡ current ++ path_of (p ∷ ps)
unfolding prefixes
last_part-prefixes current p [] = ap (λ (t : Text). current ++ slash ∷ t) (sym (append-nil p))
last_part-prefixes current p (q ∷ qs) =
    last_part-prefixes (current ++ slash ∷ p) q qs
    ∙ append_assoc current (slash ∷ p) (path_of (q ∷ qs))

length-prefixes : (current : Text) (ps : List Text) → length (prefixes current ps) ≡ length ps
unfolding prefixes
length-prefixes current [] = refl
length-prefixes current (p ∷ ps) = ap suc (length-prefixes (current ++ slash ∷ p) ps)

filled-All : (ps : List Text) → All IsName ps → filled ps ≡ ps
unfolding filled
filled-All [] h = refl
filled-All (p ∷ ps) ((text, l), h) = rw (text, filled-All ps h) refl

trim_slashes-name :
    (p rest : Text)
    → Lacks slash p
    → trim_slashes rest ≡ rest
    → trim_slashes (p ++ rest) ≡ p ++ rest
unfolding trim_slashes
trim_slashes-name [] rest l h = h
trim_slashes-name (c ∷ p) rest (other, l) h = rw (trim_slashes-name p rest l h, other) refl

trim_slashes-path_of : (ps : List Text) → All IsName ps → trim_slashes (path_of ps) ≡ path_of ps
unfolding trim_slashes same
trim_slashes-path_of [] h = refl
trim_slashes-path_of ([] ∷ ps) ((text, l), h) = cc
trim_slashes-path_of ((c ∷ p) ∷ ps) ((text, l), h) =
    rw (trim_slashes-name (c ∷ p) (path_of ps) l (trim_slashes-path_of ps h)) refl

ancestor_paths-path_of :
    (p : Text) (ps : List Text)
    → All IsName (p ∷ ps)
    → ancestor_paths (path_of (p ∷ ps)) ≡ root ∷ prefixes [] (p ∷ ps)
unfolding ancestor_paths
ancestor_paths-path_of p ps h =
    let t : trim_slashes (slash ∷ (p ++ path_of ps)) ≡ slash ∷ (p ++ path_of ps) =
      trim_slashes-path_of (p ∷ ps) h in
    let parts : split slash (slash ∷ (p ++ path_of ps)) ≡ [] ∷ (p ∷ ps) =
      split-append_sep slash [] (p ++ path_of ps) tt
      ∙ ap (λ (l : List Text). [] ∷ l) (split-path_of p ps h) in
    rw (ancestor_paths, t, parts)
      (unfold same filled in ap (λ l. root ∷ prefixes [] l) (filled-All (p ∷ ps) h))

-- The chain of an absolute path of names that has no slash too many ends at the path itself, and
-- has one directory for each name and the root.
pub ancestor_paths-last :
    (p : Text) (ps : List Text)
    → All IsName (p ∷ ps)
    → (last_part (ancestor_paths (path_of (p ∷ ps))) ≡ path_of (p ∷ ps))
      × (length (ancestor_paths (path_of (p ∷ ps))) ≡ suc (length (p ∷ ps)))
ancestor_paths-last p ps h =
    rw (ancestor_paths-path_of p ps h)
      (unfold prefixes in last_part-prefixes [] p ps, ap suc (length-prefixes [] (p ∷ ps)))
