-- ===== src/Service/Json.antt =====
-- What `JSON.parse` gives, and the tests on it that packages/service/src/jose.ts and service.ts make.
use warden_md.Common.{
  if◌then◌else◌, truthy, is_some, ℕ, String, Bool, false, Option, none, some, List, [], ◌∷◌, ◌==◌,
}

-- Numbers: an integer that is not negative, one that is, and everything else.
mutual
  pub data Json : Type 0 where
    null : Json
    boolean : Bool → Json
    integer : ℕ → Json
    negative : ℕ → Json
    fraction : Json
    string : String → Json
    array : Items → Json
    object : Fields → Json

  pub data Items : Type 0 where
    nil : Items
    cons : Json → Items → Items

  pub data Fields : Type 0 where
    end : Fields
    field : String → Json → Fields → Fields

-- `value.name`, with `none` for `undefined`.
unfoldable pub property : String → Fields → Option Json
property name end = none
property name (field key value rest) = if key == name then some value else property name rest

-- `isRecord(value)`
abbrev pub fields_of : Json → Option Fields
fields_of (object fields) = some fields
fields_of _ = none

-- `typeof value === "string"`
abbrev pub string_of : Option Json → Option String
string_of (some (string s)) = some s
string_of _ = none

-- `typeof value === "string" && value` (`optionalText` of service.ts)
unfoldable pub optional_text : Option Json → Option String
optional_text (some (string s)) = if truthy s then some s else none
optional_text _ = none

-- `isFiniteInteger(value)`; a negative number reads as 0, which no later comparison with a clock
-- reading tells from it.
abbrev pub integer_of : Option Json → Option ℕ
integer_of (some (integer n)) = some n
integer_of (some (negative n)) = some 0
integer_of _ = none

-- `value.every((entry) => typeof entry === "string")`
unfoldable pub strings_of : Items → Option (List String)
strings_of nil = some []
strings_of (cons (string s) rest) = elim (strings_of rest) [
  | none ↦ none
  | some texts ↦ some (s ∷ texts)
]
strings_of (cons _ rest) = none

-- `events[name]`: whether an object has the property.
abbrev pub has_property : String → Option Json → Bool
has_property name (some (object fields)) = is_some (property name fields)
has_property name _ = false
