-- ===== src/Projection/Pairs.antt =====
-- `projectWebSearchBucket`, `projectImageGenerationBucket`, `projectPatchBucket`,
-- `projectDynamicToolBucket` and `projectCollabBucket` of web/src/lib/assistant-projection.ts.
pub mod Running
pub mod Samples
mod Tests
use codex_mcp_ui.Common.{
  String, Option, none, some, List, [], ◌∷◌, if◌then◌else◌, is_empty, ◌or_else◌,
}
use codex_mcp_ui.Common.Table.{get, keys}
use codex_mcp_ui.Common.Text.{append}
use codex_mcp_ui.Json.{Json, Record, as_record, null, str, list, strip_type_field, is_true}
use codex_mcp_ui.Event.{EventRecord}
use codex_mcp_ui.Projection.Parts.{
  Unknown, properties, elements, web_search, image_generation, patch_apply, dynamic_tool_call,
  collab_agent, ToolStatus, running, complete, failed, AssistantPartItem, PairBucket,
}
use codex_mcp_ui.Projection.Access.{msg_of_optional}
use codex_mcp_ui.Projection.Status.{map_image_completion_status, collab_status}
use codex_mcp_ui.Projection.Tools.{bare_tool, anchored, pair_event_ids, ended, known}

unfoldable pub project_web_search_bucket : PairBucket → Option AssistantPartItem
project_web_search_bucket bucket =
    let end_message = msg_of_optional bucket.end in
    anchored (bucket.begin or_else bucket.end)
      (record (bare_tool web_search "Web search" (ended bucket.end complete)
        (pair_event_ids bucket)) {
          query = str end_message "query";
          action_type = str (as_record (get end_message "action")) "type";
        })

unfoldable pub project_image_generation_bucket : PairBucket → Option AssistantPartItem
project_image_generation_bucket bucket =
    let end_message = msg_of_optional bucket.end in
    let image_status = str end_message "status" in
    anchored (bucket.begin or_else bucket.end)
      (record (bare_tool image_generation "Image generation"
        (ended bucket.end (map_image_completion_status image_status)) (pair_event_ids bucket)) {
          result = known (get end_message "result");
          image_status = image_status;
          revised_prompt = str end_message "revised_prompt";
          saved_path = str end_message "saved_path";
        })

unfoldable pub project_patch_bucket : PairBucket → Option AssistantPartItem
project_patch_bucket bucket =
    let begin_message = msg_of_optional bucket.begin in
    let end_message = msg_of_optional bucket.end in
    anchored (bucket.begin or_else bucket.end)
      (record (bare_tool patch_apply "Patch apply"
        (ended bucket.end (if is_true (get end_message "success") then complete else failed))
        (pair_event_ids bucket)) {
          changes = some (keys (as_record (get begin_message "changes")));
          stdout = str end_message "stdout";
          stderr = str end_message "stderr";
        })

-- `a ?? b` on parsed values, where `null` counts as missing too.
abbrev nullish : Option Json → Option Json → Option Json
nullish none b = b
nullish (some null) b = b
nullish (some v) b = some v

abbrev dynamic_title : Option String → String
dynamic_title none = "Dynamic tool"
dynamic_title (some name) = append "Dynamic tool: " name

unfoldable pub project_dynamic_tool_bucket : PairBucket → Option AssistantPartItem
project_dynamic_tool_bucket bucket =
    let begin_message = msg_of_optional bucket.begin in
    let end_message = msg_of_optional bucket.end in
    let tool_name = str end_message "tool" or_else str begin_message "tool" in
    let content_items = list end_message "content_items" in
    anchored (bucket.begin or_else bucket.end)
      (record (bare_tool dynamic_tool_call (dynamic_title tool_name)
        (ended bucket.end (if is_true (get end_message "success") then complete else failed))
        (pair_event_ids bucket)) {
          tool_name = tool_name;
          args = known (nullish (get begin_message "arguments") (get end_message "arguments"));
          result =
              if is_empty content_items
              then known (get end_message "result")
              else some (elements content_items);
          duration = str end_message "duration";
          error = str end_message "error";
        })

-- A message's properties without its type; undefined if it has none.
abbrev stripped : Record → Option Unknown
stripped message = if is_empty message then none else some (properties (strip_type_field message))

unfoldable pub project_collab_bucket : PairBucket → String → Option AssistantPartItem
project_collab_bucket bucket title =
    let begin_message = msg_of_optional bucket.begin in
    let end_message = msg_of_optional bucket.end in
    anchored (bucket.begin or_else bucket.end)
      (record (bare_tool collab_agent title
        (ended bucket.end (collab_status begin_message end_message)) (pair_event_ids bucket)) {
          tool_name = some title;
          args = stripped begin_message;
          result = stripped end_message;
        })
