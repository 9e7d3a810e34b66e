-- ===== src/Payload/Tests.antt =====
-- Texts of payloads, and the instances of the theorems at them.
use codex_mcp_ui.Common.{String, ◌≡◌, refl, true, false, some, [], ◌∷◌, arith}
use codex_mcp_ui.Json.{Number, Json, null, number, string, array, object, nil, cons, end, field}
use codex_mcp_ui.Payload.{
  pretty, pretty_payload, compact, preview_text, compact_payload_preview, truncate, units, quote,
}
use codex_mcp_ui.Payload.Fence.{read_lines, pretty_payload-Settles}
use codex_mcp_ui.Payload.Bounds.{IsCut, compact_payload_preview-IsCut}

-- Every number prints as a 7.
abbrev seven : Number → String
seven n = "7"

abbrev zero_number : Number
zero_number = record { negative = false; digits = 0; scale = 0 }

-- A payload with a fence in a text.
abbrev payload : Json
payload = object (
    field "a" (array (cons (string "x\n```") (cons null nil)))
      (field "b" (number zero_number) (field "c" (object end) end)))

pretty_test :
    pretty seven "" payload
    ≡ "{\n  \"a\": [\n    \"x\\n```\",\n    null\n  ],\n  \"b\": 7,\n  \"c\": {}\n}"
unfolding pretty quote codex_mcp_ui.Payload.escape_all codex_mcp_ui.Payload.escape
pretty_test = refl

compact_test : compact seven payload ≡ "{\"a\":[\"x\\n```\",null],\"b\":7,\"c\":{}}"
unfolding compact quote codex_mcp_ui.Payload.escape_all codex_mcp_ui.Payload.escape
compact_test = refl

preview_test : compact_payload_preview seven (some (string "abc")) 2 ≡ 0x61 ∷ 0x62 ∷ 0x2026 ∷ []
unfolding compact_payload_preview preview_text truncate units
preview_test = refl

-- The bound falls between the two units of a character.
split_pair_test : compact_payload_preview seven (some (string "😀")) 1 ≡ 0xd83d ∷ 0x2026 ∷ []
unfolding compact_payload_preview preview_text truncate units
split_pair_test = refl

pretty_payload-Settles_example : read_lines (some true) (pretty seven "" payload) ≡ some false
pretty_payload-Settles_example =
    pretty_payload-Settles seven (λ n. (refl, (omega arith, omega arith, omega arith, tt))) payload

compact_payload_preview-IsCut_example :
    IsCut 3 (preview_text seven (some payload)) (compact_payload_preview seven (some payload) 3)
compact_payload_preview-IsCut_example = compact_payload_preview-IsCut seven (some payload) 3
