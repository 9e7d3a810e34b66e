-- ===== src/Projection/Tests.antt =====
-- Runs of the projection, and the instances of its theorems at them.
use codex_mcp_ui.Common.{String, ◌≡◌, refl, Bool, true, false, none, List, [], ◌∷◌, All, ◌==◌}
use mathlib.Core.List.{Perm}
use codex_mcp_ui.Collation.CodePoints.{by_code_points, by_code_points-IsCollation}
use codex_mcp_ui.Json.{field, end, string}
use codex_mcp_ui.Event.{EventRecord}
use codex_mcp_ui.Event.Samples.{sample, codex, detail, e1}
use codex_mcp_ui.Projection.Parts.{Part, ProjectionItem}
use codex_mcp_ui.Projection.Access.{Decoders}
use codex_mcp_ui.Projection.Dispatch.Sources.{KeptIds}
use codex_mcp_ui.Projection.Dispatch.Cites.{Cites}
use codex_mcp_ui.Projection.Fold.{fold_items_into_messages}
use codex_mcp_ui.Projection.Fold.Grouping.{
  group, parts_of_items, parts_of_messages, fold_items_into_messages-group,
}
use codex_mcp_ui.Projection.Thread.{project_readonly_assistant_thread}
use codex_mcp_ui.Projection.Thread.Cited.{project_readonly_assistant_thread-Cites}
use codex_mcp_ui.Projection.Thread.Due.{due_items}
use codex_mcp_ui.Projection.Thread.Order.{InOrder, project_readonly_assistant_thread-InOrder}
use codex_mcp_ui.Projection.Pairs.Samples.{call_begin, call_end}

-- A platform that decodes nothing.
abbrev no_decoders : Decoders
no_decoders = record { atob = λ s. none; utf8 = λ bytes. none; utf16le = λ bytes. none }

abbrev raw : EventRecord
raw = sample "raw_frame" "agent_message" "7" "2026-01-07" end

abbrev asked : EventRecord
asked = codex "user_message" "0" "2026-01-01" (field "message" (string "hello") end)

abbrev events : List EventRecord
events = asked ∷ e1 ∷ call_begin ∷ raw ∷ call_end ∷ []

-- The ids of the events other than the raw frame.
abbrev IsKept : String → Type 0
IsKept id = (id == "7") ≡ false

events-Kept : KeptIds IsKept events
events-Kept = (λ k. refl, (λ k. refl, (λ k. refl, (λ k. k, (λ k. refl, tt)))))

project_readonly_assistant_thread-Cites_example : All (Cites IsKept) (
    parts_of_messages
      (project_readonly_assistant_thread by_code_points no_decoders detail events).messages)
project_readonly_assistant_thread-Cites_example =
    project_readonly_assistant_thread-Cites IsKept by_code_points no_decoders detail events
      events-Kept

project_readonly_assistant_thread-InOrder_example :
    (items : List ProjectionItem) × (parts_of_messages
        (project_readonly_assistant_thread by_code_points no_decoders detail events).messages
      ≡ parts_of_items items)
    × Perm items (due_items no_decoders events)
    × InOrder by_code_points items
project_readonly_assistant_thread-InOrder_example =
    project_readonly_assistant_thread-InOrder by_code_points no_decoders detail events
      by_code_points-IsCollation

abbrev text_item : String → Bool → ProjectionItem
text_item text close = ProjectionItem.assistant (record {
  timestamp = "2026-01-01";
  order = 0;
  part = Part.text text none none ("1" ∷ []);
  close_message_after = close;
})

abbrev items : List ProjectionItem
items = text_item "a" false ∷ text_item "b" true ∷ text_item "c" false ∷ []

fold_items_into_messages-group_example : fold_items_into_messages items ≡ group items
fold_items_into_messages-group_example = fold_items_into_messages-group items
