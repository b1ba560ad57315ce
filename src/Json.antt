-- ===== src/Json.antt =====
-- Go values of the type `any` that a decoder of JSON or YAML made, and the type assertions on them. A
-- number is as it is written.
use kube_ops_agent.Base.{str_dec, String, ite, Bool, false, Option, none, some, List, [], ◌∷◌}

mutual
  -- A value of the type `any` that json.Unmarshal made.
  pub data Json : Type 0 where
    null : Json
    boolean : Bool → Json
    number : String → Json
    text : String → Json
    array : Items → Json
    object : Fields → Json

  pub data Items : Type 0 where
    done : Items
    item : Json → Items → Items

  -- `map[string]any`
  pub data Fields : Type 0 where
    end : Fields
    field : String → Json → Fields → Fields

-- `v, ok := m[k]`
unfoldable pub get : String → Fields → Option Json
get k end = none
get k (field j v m) = ite (str_dec k j) (some v) (get k m)

abbrev pub as_text : Option Json → Option String
as_text (some (text s)) = some s
as_text (some null) = none
as_text (some (boolean b)) = none
as_text (some (number n)) = none
as_text (some (array xs)) = none
as_text (some (object m)) = none
as_text none = none

abbrev pub as_object : Option Json → Option Fields
as_object (some (object m)) = some m
as_object (some null) = none
as_object (some (boolean b)) = none
as_object (some (number n)) = none
as_object (some (array xs)) = none
as_object (some (text s)) = none
as_object none = none

abbrev pub as_array : Option Json → Items
as_array (some (array xs)) = xs
as_array (some (object m)) = done
as_array (some null) = done
as_array (some (boolean b)) = done
as_array (some (number n)) = done
as_array (some (text s)) = done
as_array none = done

-- `m["isError"] == true`
abbrev pub is_true : Option Json → Bool
is_true (some (boolean b)) = b
is_true (some (object m)) = false
is_true (some null) = false
is_true (some (array xs)) = false
is_true (some (number n)) = false
is_true (some (text s)) = false
is_true none = false

abbrev pub as_bool : Option Json → Option Bool
as_bool (some (boolean b)) = some b
as_bool (some (object m)) = none
as_bool (some null) = none
as_bool (some (array xs)) = none
as_bool (some (number n)) = none
as_bool (some (text s)) = none
as_bool none = none

abbrev pub as_number : Option Json → Option String
as_number (some (number n)) = some n
as_number (some (object m)) = none
as_number (some null) = none
as_number (some (array xs)) = none
as_number (some (boolean b)) = none
as_number (some (text s)) = none
as_number none = none

-- The items that are texts.
unfoldable pub texts : Items → List String
texts done = []
texts (item v vs) = elim (as_text (some v)) [ none ↦ texts vs | some s ↦ s ∷ texts vs ]
