-- ===== src/Acquisition/Json.antt =====
-- What `json.loads` makes of a text.
use novaapi.Common.{String, Bool, Option, none, some, if◌then◌else◌}
use text.Mathlib.Text.{◌==◌ as str_eq}

mutual
  pub data Json : Type 0 where
    null : Json
    boolean : Bool → Json
    number : String → Json
    string : String → Json
    array : Items → Json
    object : Fields → Json

  pub data Items : Type 0 where
    nil : Items
    cons : Json → Items → Items

  -- The members of a `dict`, whose keys differ.
  pub data Fields : Type 0 where
    end : Fields
    field : String → Json → Fields → Fields

-- `parsed.get(key)`
unfoldable pub get : String → Fields → Option Json
get key end = none
get key (field k v fs) = let rest = get key fs in if str_eq k key then some v else rest
