-- ===== src/Payload.antt =====
-- web/src/lib/utils.ts: the texts that payloads are shown as. JSON.stringify is modelled on parsed
-- JSON, where it does not throw; how it prints a number is a parameter. Texts that are cut are lists
-- of UTF-16 units, which `length` and `slice` count.
pub mod Fence
pub mod Bounds
mod Tests
use Prim.Native.Char.{Char, code}
use codex_mcp_ui.Common.{
  ℕ, zero, suc, ◌+◌, ◌-◌, ◌/◌, ◌%◌, String, Bool, true, false, Option, none, some, List, [], ◌∷◌,
  ◌++◌, is_empty, ltb, nat_eq, length, take, if◌then◌else◌,
}
use codex_mcp_ui.Common.Text.{append}
use codex_mcp_ui.Json.{
  Number, Json, Items, Fields, null, bool, number, string, array, object, nil, cons, end, field,
}

abbrev pub nth_digit : List String → ℕ → String
nth_digit [] i = ""
nth_digit (d ∷ ds) zero = d
nth_digit (d ∷ ds) (suc i) = nth_digit ds i

abbrev pub hex_digits : List String
hex_digits =
    "0" ∷ "1" ∷ "2" ∷ "3" ∷ "4" ∷ "5" ∷ "6" ∷ "7" ∷ "8" ∷ "9" ∷ "a" ∷ "b" ∷ "c" ∷ "d" ∷ "e" ∷ "f"
    ∷ []

-- A character of a text in quotes.
unfoldable pub escape : Char → String
escape c =
    let n = code c in
    if nat_eq n 0x22
    then "\\\""
    else if nat_eq n 0x5c
    then "\\\\"
    else if nat_eq n 8
    then "\\b"
    else if nat_eq n 12
    then "\\f"
    else if nat_eq n 10
    then "\\n"
    else if nat_eq n 13
    then "\\r"
    else if nat_eq n 9
    then "\\t"
    else if ltb n 0x20
    then append "\\u00" (append (nth_digit hex_digits (n / 16)) (nth_digit hex_digits (n % 16)))
    else String.◌∷◌ c ""

unfoldable pub escape_all : String → String
escape_all String.[] = ""
escape_all (String.◌∷◌ c s) = append (escape c) (escape_all s)

unfoldable pub quote : String → String
quote s = append "\"" (append (escape_all s) "\"")

abbrev bool_text : Bool → String
bool_text true = "true"
bool_text false = "false"

module _ (number_text : Number → String) where
  -- `JSON.stringify(value, null, 2)` of a value that stands behind the margin.
  unfoldable mutual
    pub pretty : String → Json → String
    pretty margin null = "null"
    pretty margin (bool b) = bool_text b
    pretty margin (number n) = number_text n
    pretty margin (string s) = quote s
    pretty margin (array nil) = "[]"
    pretty margin (array (cons v vs)) =
        let deeper = append margin "  " in
        append "[\n" (
          append deeper (
            append (pretty deeper v)
              (append (more_items deeper vs) (append "\n" (append margin "]")))))
    pretty margin (object end) = "{}"
    pretty margin (object (field k v fs)) =
        let deeper = append margin "  " in
        append "{\n" (
          append deeper (
            append (quote k) (
              append ": " (
                append (pretty deeper v)
                  (append (more_fields deeper fs) (append "\n" (append margin "}")))))))

    pub more_items : String → Items → String
    more_items margin nil = ""
    more_items margin (cons v vs) =
        append ",\n" (append margin (append (pretty margin v) (more_items margin vs)))

    pub more_fields : String → Fields → String
    more_fields margin end = ""
    more_fields margin (field k v fs) = append ",\n" (
        append margin
          (append (quote k) (append ": " (append (pretty margin v) (more_fields margin fs)))))

  -- `JSON.stringify(value)`.
  unfoldable mutual
    pub compact : Json → String
    compact null = "null"
    compact (bool b) = bool_text b
    compact (number n) = number_text n
    compact (string s) = quote s
    compact (array vs) = append "[" (compact_items true vs)
    compact (object fs) = append "{" (compact_fields true fs)

    pub compact_items : Bool → Items → String
    compact_items first nil = "]"
    compact_items first (cons v vs) =
        append (if first then "" else ",") (append (compact v) (compact_items false vs))

    pub compact_fields : Bool → Fields → String
    compact_fields first end = "}"
    compact_fields first (field k v fs) =
        append (if first then "" else ",")
          (append (quote k) (append ":" (append (compact v) (compact_fields false fs))))

  -- None is `undefined`, of which JSON.stringify makes `undefined`.
  unfoldable pub pretty_payload : Option Json → Option String
  pretty_payload none = none
  pretty_payload (some payload) = some (pretty "" payload)

-- The UTF-16 units of a text.
unfoldable pub units : String → List ℕ
units String.[] = []
units (String.◌∷◌ c s) =
    let n = code c in
    if ltb n 0x10000
    then n ∷ units s
    else (0xd800 + (n - 0x10000) / 0x400) ∷ (0xdc00 + (n - 0x10000) % 0x400) ∷ units s

-- The unit of the ellipsis.
abbrev pub ellipsis : ℕ
ellipsis = 0x2026

unfoldable pub truncate : List ℕ → ℕ → List ℕ
truncate s max =
    if is_empty s then [] else if ltb max (length s) then take max s ++ ellipsis ∷ [] else s

module _ (number_text : Number → String) where
  -- The text that is cut; `truncate` makes the empty text of `undefined`.
  unfoldable pub preview_text : Option Json → List ℕ
  preview_text none = []
  preview_text (some (string s)) = units s
  preview_text (some payload) = units (compact number_text payload)

  unfoldable pub compact_payload_preview : Option Json → ℕ → List ℕ
  compact_payload_preview payload max = truncate (preview_text payload) max
