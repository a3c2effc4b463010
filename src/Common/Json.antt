-- ===== src/Common/Json.antt =====
-- JSON values, as `json.loads` makes them and `json.dumps` takes them. Numbers stay as their text.
use mathlib.Core.Bool.{Bool}
use mathlib.Core.Option.{Option, none, some}
use mathlib.Core.List.{List, [], ◌∷◌}
use production_agent_runtime.Common.Tests.{if◌then◌else◌}
use production_agent_runtime.Common.Texts.{Text, text_eq}

mutual
  pub data Json : Type 0 where
    null : Json
    bool : Bool → Json
    number : Text → Json
    string : Text → Json
    array : Items → Json
    object : Fields → Json

  pub data Items : Type 0 where
    nil : Items
    cons : Json → Items → Items

  pub data Fields : Type 0 where
    end : Fields
    field : Text → Json → Fields → Fields

-- d.get(key)
unfoldable pub get : Fields → Text → Option Json
get end key = none
get (field k v rest) key = if text_eq k key then some v else get rest key

abbrev pub to_list : Items → List Json
to_list nil = []
to_list (cons v items) = v ∷ to_list items

abbrev pub of_list : List Json → Items
of_list [] = nil
of_list (v ∷ vs) = cons v (of_list vs)

abbrev pub keys : Fields → List Text
keys end = []
keys (field k v rest) = k ∷ keys rest
