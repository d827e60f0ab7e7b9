-- ===== src/Filesystem/Paths.antt =====
-- plugins/filesystem/src/pod/format.ts: the paths.
mod Slash
pub mod Join
pub mod Ancestors
mod Tests
use openshift_console.Prelude.{
  ℕ, zero, suc, ◌+◌, ◌-◌, Bool, true, false, ◌&&◌, List, [], ◌∷◌, ◌++◌, Option, none, some, ◌==◌,
  if◌then◌else◌, take, drop,
}
use openshift_console.Prelude.Text.{Text, same, split}

abbrev pub slash : ℕ
slash = 47

abbrev pub root : Text
root = slash ∷ []

-- `path.replace(/\/+$/, '')`.
unfoldable pub trim_slashes : Text → Text
trim_slashes [] = []
trim_slashes (c ∷ s) =
    let rest = trim_slashes s in if (c == slash) && same rest [] then [] else c ∷ rest

-- `lastIndexOf('/')`, with `none` for -1.
unfoldable pub last_slash : Text → Option ℕ
last_slash [] = none
last_slash (c ∷ s) = elim (last_slash s) [
  | none ↦ if c == slash then some 0 else none
  | some i ↦ some (suc i)
]

unfoldable pub join_path : Text → Text → Text
join_path dir name = if same dir root then slash ∷ name else trim_slashes dir ++ slash ∷ name

unfoldable pub parent_path : Text → Text
parent_path path =
    let trimmed = trim_slashes path in
    elim (last_slash trimmed) [ none ↦ root | some i ↦ if i == 0 then root else take i trimmed ]

unfoldable pub base_name : Text → Text
base_name path =
    let trimmed = trim_slashes path in
    if same trimmed []
    then root
    else elim (last_slash trimmed) [ none ↦ trimmed | some i ↦ drop (suc i) trimmed ]

-- `filter(Boolean)` on texts.
unfoldable pub filled : List Text → List Text
filled [] = []
filled (p ∷ ps) = let rest = filled ps in if same p [] then rest else p ∷ rest

-- The loop over the parts, with the path so far.
unfoldable pub prefixes : Text → List Text → List Text
prefixes current [] = []
prefixes current (part ∷ parts) = let next = current ++ slash ∷ part in next ∷ prefixes next parts

unfoldable pub ancestor_paths : Text → List Text
ancestor_paths path =
    let trimmed = trim_slashes path in
    if same trimmed [] then root ∷ [] else root ∷ prefixes [] (filled (split slash trimmed))
