-- ===== src/Filesystem/Paths/Slash.antt =====
-- Trailing slashes, and the last one, in a text that ends in a name.
use openshift_console.Prelude.{
  ℕ, ◌≡◌, Bool, true, false, ◌&&◌, [], ◌∷◌, ◌++◌, none, some, ◌==◌, if◌then◌else◌, length, refl, ap,
  inl, inr, Bool-cases,
}
use openshift_console.Prelude.Text.{Text, same, Lacks}
use openshift_console.Filesystem.Paths.{slash, trim_slashes, last_slash}

-- A name: some characters, none of them a slash.
abbrev pub IsName : Text → Type 0
IsName name = (same name [] ≡ false) × Lacks slash name

pub same-cons : (c : ℕ) (s : Text) → same (c ∷ s) [] ≡ false
unfolding same
same-cons c s = refl

pub same-append_cons : (s : Text) (c : ℕ) (t : Text) → same (s ++ c ∷ t) [] ≡ false
unfolding same
same-append_cons [] c t = refl
same-append_cons (d ∷ s) c t = refl

trim_slashes-Lacks : (name : Text) → Lacks slash name → trim_slashes name ≡ name
unfolding trim_slashes
trim_slashes-Lacks [] h = refl
trim_slashes-Lacks (c ∷ s) (other, h) = rw (trim_slashes-Lacks s h, other) refl

and_false : (b : Bool) → (b && false) ≡ false
and_false true = refl
and_false false = refl

pub trim_slashes-append :
    (dir name : Text) → IsName name → trim_slashes (dir ++ slash ∷ name) ≡ dir ++ slash ∷ name
unfolding trim_slashes
trim_slashes-append [] name (text, h) = rw (trim_slashes-Lacks name h, text) refl
trim_slashes-append (c ∷ dir) name h =
    rw (trim_slashes-append dir name h, same-append_cons dir slash name)
      (ap (λ b. if b then [] else c ∷ (dir ++ slash ∷ name)) (and_false (c == slash)))

last_slash-Lacks : (name : Text) → Lacks slash name → last_slash name ≡ none
unfolding last_slash
last_slash-Lacks [] h = refl
last_slash-Lacks (c ∷ s) (other, h) = rw (last_slash-Lacks s h, other) refl

pub last_slash-append :
    (dir name : Text) → Lacks slash name → last_slash (dir ++ slash ∷ name) ≡ some (length dir)
unfolding last_slash
last_slash-append [] name h = rw (last_slash-Lacks name h) refl
last_slash-append (c ∷ dir) name h = rw (last_slash-append dir name h) refl

pub trim_slashes-idempotent : (s : Text) → trim_slashes (trim_slashes s) ≡ trim_slashes s
unfolding trim_slashes
trim_slashes-idempotent [] = refl
trim_slashes-idempotent (c ∷ s) = elim (Bool-cases ((c == slash) && same (trim_slashes s) [])) [
  | inl e ↦ rw e refl
  | inr e ↦ rw (e, trim_slashes, trim_slashes-idempotent s) (rw e refl)
]
