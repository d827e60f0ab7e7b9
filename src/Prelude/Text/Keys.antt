-- ===== src/Prelude/Text/Keys.antt =====
-- Texts as the keys of objects and the members of arrays.
use mathlib.Core.Bool.{Bool, true, false}
use mathlib.Core.List.{List, [], ◌∷◌}
use mathlib.Core.Option.{Option, none, some}
use openshift_console.Prelude.Tests.{if◌then◌else◌}
use openshift_console.Prelude.Text.{Text, codes, same}

-- `object[key]`, of an object as a list of pairs.
unfoldable pub lookup {ℓ} : {A : Type ℓ} → List (Text × A) → Text → Option A
lookup [] key = none
lookup ((k, v) ∷ kvs) key = let rest = lookup kvs key in if same k key then some v else rest

-- `array.includes(x)`.
unfoldable pub includes : List Text → Text → Bool
includes [] x = false
includes (y ∷ ys) x = let rest = includes ys x in if same y x then true else rest

-- What every object has without a member of its own, from `Object.prototype`.
abbrev pub object_members : List Text
object_members =
    codes "constructor"
    ∷ codes "hasOwnProperty"
    ∷ codes "isPrototypeOf"
    ∷ codes "propertyIsEnumerable"
    ∷ codes "toLocaleString"
    ∷ codes "toString"
    ∷ codes "valueOf"
    ∷ codes "__defineGetter__"
    ∷ codes "__defineSetter__"
    ∷ codes "__lookupGetter__"
    ∷ codes "__lookupSetter__"
    ∷ []

-- The accessor of the prototype itself.
abbrev pub proto : Text
proto = codes "__proto__"

unfoldable pub is_inherited : Text → Bool
is_inherited name = if same name proto then true else includes object_members name
