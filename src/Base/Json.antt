-- ===== src/Base/Json.antt =====
-- JSON values. Numbers are the integers that the client sends and tests.
use Prim.Native.String.{String}
use mathlib.Core.Bool.{Bool}
use mathlib.Core.Option.{Option, none, some}
use mathlib.Core.List.{List, [], ◌∷◌}
use text.Mathlib.Text.{◌==◌ as str_eq}
use sky_panel.Base.Tests.{if◌then◌else◌}
use sky_panel.Base.Int.{ℤ}

mutual
  pub data Json : Type 0 where
    null : Json
    bool : Bool → Json
    num : ℤ → Json
    str : String → Json
    arr : Items → Json
    obj : Fields → Json

  pub data Items : Type 0 where
    nil : Items
    cons : Json → Items → Items

  pub data Fields : Type 0 where
    end : Fields
    field : String → Json → Fields → Fields

-- An object literal: a field whose value is `undefined` is left out by `JSON.stringify`.
abbrev pub fields : List (String × Option Json) → Fields
fields [] = end
fields ((k, none) ∷ ps) = fields ps
fields ((k, some v) ∷ ps) = field k v (fields ps)

abbrev pub items : List Json → Items
items [] = nil
items (v ∷ vs) = cons v (items vs)

abbrev pub elements : Items → List Json
elements nil = []
elements (cons v vs) = v ∷ elements vs

-- A field of an object. Of a repeated key `JSON.parse` keeps the last value.
unfoldable pub get_field : String → Fields → Option Json
get_field k end = none
get_field k (field j v fs) = elim (get_field k fs) [
  | some w ↦ some w
  | none ↦ if str_eq j k then some v else none
]
