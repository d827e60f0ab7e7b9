-- ===== src/Prelude/Json.antt =====
-- What `JSON.parse` returns. Its numbers are doubles, which the library leaves to a type `N`.
use mathlib.Core.Bool.{Bool}
use mathlib.Core.List.{List, [], ◌∷◌}
use mathlib.Core.Option.{Option, none, some}
use openshift_console.Prelude.Tests.{if◌then◌else◌}
use openshift_console.Prelude.Text.{Text, same}

mutual
  pub data Value (N : Type 0) : Type 0 where
    null : Value N
    bool : Bool → Value N
    number : N → Value N
    string : Text → Value N
    array : Items N → Value N
    object : Fields N → Value N

  pub data Items (N : Type 0) : Type 0 where
    nil : Items N
    cons : Value N → Items N → Items N

  pub data Fields (N : Type 0) : Type 0 where
    end : Fields N
    field : Text → Value N → Fields N → Fields N

module _ {N : Type 0} where
  -- `record[key]`, with `none` for `undefined`. Of two fields with one key the parser keeps one.
  unfoldable pub get_field : Fields N → Text → Option (Value N)
  get_field end key = none
  get_field (field k v fs) key = if same k key then some v else get_field fs key

  unfoldable pub items : Items N → List (Value N)
  items nil = []
  items (cons v vs) = v ∷ items vs
