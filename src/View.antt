-- ===== src/View.antt =====
-- The components of web/src/components, each in a module of its own; and here the keys and labels of
-- the parts of a message, from workbench/readonly-assistant-thread.tsx.
pub mod Keys
pub mod RawTable
pub mod Sidebar
pub mod Panels
pub mod Markdown
pub mod MessageBlock
pub mod Tabs
pub mod Messages
pub mod Boundary
pub mod Page
pub mod Live
mod Scenarios
mod Tests
use codex_mcp_ui.Common.{
  ℕ, String, Bool, true, false, Option, none, some, List, [], ◌∷◌, ◌==◌, nat_eq, length, is_empty,
  if◌then◌else◌, value_or,
}
use codex_mcp_ui.Common.Table.{get}
use codex_mcp_ui.Common.Text.{append, join, decimal}
use codex_mcp_ui.Json.{Json, Record, as_record, list}
use codex_mcp_ui.Projection.Parts.{Part, Variant, ToolPart, Title}
use codex_mcp_ui.Runtime.Messages.{part_type}

abbrev pub variant_name : Variant → String
variant_name Variant.text = "text"
variant_name Variant.reasoning = "reasoning"
variant_name Variant.raw_content = "raw_content"

-- What a template makes of a title: the text, or the source of an inherited property.
abbrev pub title_text : (String → String) → Title → String
title_text inherited (Title.text t) = t
title_text inherited (Title.inherited key) = inherited key

-- `part.title` of a part that has one.
abbrev pub part_title : (String → String) → Part → String
part_title inherited (Part.text _ _ _ _) = ""
part_title inherited (Part.reasoning _ _ _) = ""
part_title inherited (Part.lifecycle _ title _ _) = title_text inherited title
part_title inherited (Part.plan title _ _ _ _) = title
part_title inherited (Part.approval title _ _ _ _ _) = title
part_title inherited (Part.tool t) = t.title
part_title inherited (Part.mcp_method _ title _ _) = title
part_title inherited (Part.unknown _ title _ _) = title

-- A template with dashes between its pieces.
abbrev pub dashed : List String → String
dashed pieces = join pieces "-"

unfoldable pub part_key : (String → String) → String → Part → String
part_key inherited message_id (Part.text t phase citation ids) =
    dashed (message_id ∷ "text" ∷ join ids "-" ∷ [])
part_key inherited message_id (Part.reasoning t variant ids) =
    dashed (message_id ∷ "reasoning" ∷ variant_name variant ∷ t ∷ [])
part_key inherited message_id part =
    dashed (message_id ∷ part_type part ∷ part_title inherited part ∷ [])

unfoldable pub part_label : (String → String) → Part → String
part_label inherited (Part.text _ _ _ _) = "Text"
part_label inherited (Part.reasoning _ Variant.raw_content _) = "Raw reasoning"
part_label inherited (Part.reasoning _ variant _) = "Reasoning"
part_label inherited part = part_title inherited part

unfoldable pub memory_citation_count : Option Json → ℕ
memory_citation_count value = length (list (as_record value) "entries")

unfoldable pub has_memory_citation_entries : Option Json → Bool
has_memory_citation_entries value = if nat_eq (memory_citation_count value) 0 then false else true

unfoldable pub memory_citation_label : Option Json → String
memory_citation_label value =
    if nat_eq (memory_citation_count value) 1
    then "1 memory citation"
    else append (decimal (memory_citation_count value)) " memory citations"
