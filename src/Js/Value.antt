-- ===== src/Js/Value.antt =====
-- The values of the language that a response or a form can hold.
use prox_back.Prelude.{Bool, true, false, List, [], ◌∷◌, if◌then◌else◌}
use prox_back.Js.Text.{Text, same_text}
use prox_back.Js.Number.{Number, nan, whole, number_of_text}

-- Lists and fields are types of their own, since a value holds lists of values.
mutual
  pub data Fields : Type 0 where
    end : Fields
    field : Text → Value → Fields → Fields

  pub data Value : Type 0 where
    undefined null : Value
    bool : Bool → Value
    num : Number → Value
    str : Text → Value
    obj : Fields → Value
    arr : Items → Value

  pub data Items : Type 0 where
    nil : Items
    cons : Value → Items → Items

abbrev pub to_list : Items → List Value
to_list nil = []
to_list (cons v vs) = v ∷ to_list vs

abbrev pub of_list : List Value → Items
of_list [] = nil
of_list (v ∷ vs) = cons v (of_list vs)

-- `fields[key]`.
unfoldable pub lookup : Text → Fields → Value
unfolding same_text
lookup key end = undefined
lookup key (field k v rest) = if same_text k key then v else lookup key rest

-- `value[key]` for a value that is neither `undefined` nor `null`, which would throw.
abbrev pub property : Text → Value → Value
property key (obj fields) = lookup key fields
property key _ = undefined

-- `Number(value)`. An array is joined by commas first, so that two elements never make a number,
-- and an empty element or `null` in it is the empty text.
unfoldable mutual
  pub number_of : Value → Number
  number_of undefined = nan
  number_of null = whole 0
  number_of (bool false) = whole 0
  number_of (bool true) = whole 1
  number_of (num n) = n
  number_of (str s) = number_of_text s
  number_of (arr items) = number_of_items items
  number_of (obj fields) = nan

  pub number_of_items : Items → Number
  number_of_items nil = whole 0
  number_of_items (cons v nil) = number_of_element v
  number_of_items (cons v (cons w vs)) = nan

  pub number_of_element : Value → Number
  number_of_element undefined = whole 0
  number_of_element null = whole 0
  number_of_element (bool b) = nan
  number_of_element (num n) = n
  number_of_element (str s) = number_of_text s
  number_of_element (arr items) = number_of_items items
  number_of_element (obj fields) = nan
