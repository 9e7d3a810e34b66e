-- ===== src/Json.antt =====
-- Parsed JSON values, and the accessors of web/src/lib/assistant-projection.ts that read them.
use codex_mcp_ui.Common.{
  ℕ, suc, String, Bool, true, false, Option, none, some, List, [], ◌∷◌, ◌==◌, if◌then◌else◌, nat_eq,
}
use codex_mcp_ui.Common.Table.{Table, get, delete}
use codex_mcp_ui.Common.Text.{decimal}

-- A JSON number in decimal: the digits, how many of them stand behind the point, and the sign.
pub record Number : Type 0 where
  pub negative : Bool
  pub digits : ℕ
  pub scale : ℕ

mutual
  pub data Json : Type 0 where
    null : Json
    bool : Bool → Json
    number : Number → Json
    string : String → Json
    array : Items → Json
    object : Fields → Json

  pub data Items : Type 0 where
    nil : Items
    cons : Json → Items → Items

  -- The own properties of an object, in their order; a parsed object has each key once.
  pub data Fields : Type 0 where
    end : Fields
    field : String → Json → Fields → Fields

abbrev pub items : Items → List Json
items nil = []
items (cons v vs) = v ∷ items vs

-- A `Record<string, unknown>`: the own properties of an object or of an array.
abbrev pub Record : Type 0
Record = Table Json

abbrev pub fields : Fields → Record
fields end = []
fields (field k v fs) = (k, v) ∷ fields fs

-- The own properties of an array are its elements, by their indices.
indexed : ℕ → Items → Record
indexed i nil = []
indexed i (cons v vs) = (decimal i, v) ∷ indexed (suc i) vs

-- A value that may be `undefined`, and what reads as a record. `typeof null` is "object" too, but
-- `null` is falsy.
unfoldable pub as_record : Option Json → Record
unfolding indexed
as_record (some (array vs)) = indexed 0 vs
as_record (some (object fs)) = fields fs
as_record _ = []

-- `value && typeof value === "object"`.
unfoldable pub is_object : Option Json → Bool
is_object (some (array vs)) = true
is_object (some (object fs)) = true
is_object _ = false

abbrev nonempty_string : Option Json → Option String
nonempty_string (some (string s)) = if s == "" then none else some s
nonempty_string _ = none

-- A missing key and an empty text both read as undefined.
unfoldable pub str : Record → String → Option String
str record_ key = nonempty_string (get record_ key)

abbrev number_value : Option Json → Option Number
number_value (some (number n)) = some n
number_value _ = none

unfoldable pub num : Record → String → Option Number
num record_ key = number_value (get record_ key)

abbrev array_value : Option Json → List Json
array_value (some (array vs)) = items vs
array_value _ = []

unfoldable pub list : Record → String → List Json
list record_ key = array_value (get record_ key)

-- `.filter((value): value is string => typeof value === "string")`.
abbrev pub strings : List Json → List String
strings [] = []
strings (string s ∷ vs) = s ∷ strings vs
strings (_ ∷ vs) = strings vs

unfoldable pub strip_type_field : Record → Record
strip_type_field record_ = delete record_ "type"

-- `value === 0`, true of the negative zero too.
abbrev pub is_zero : Number → Bool
is_zero n = nat_eq n.digits 0

-- `value === true`.
abbrev pub is_true : Option Json → Bool
is_true (some (bool b)) = b
is_true _ = false
