-- ===== src/Projection/Tools/Invocation.antt =====
-- What `projectMcpToolBucket` makes of an end event that has no begin event.
use codex_mcp_ui.Common.{String, ◌≡◌, refl, Option, none, some, List, [], ◌∷◌, if◌then◌else◌}
use codex_mcp_ui.Common.Table.{get}
use codex_mcp_ui.Common.Text.{append}
use codex_mcp_ui.Json.{as_record, str}
use codex_mcp_ui.Event.{EventRecord}
use codex_mcp_ui.Projection.Parts.{mcp_tool_call, complete, failed}
use codex_mcp_ui.Projection.Access.{msg_of}
use codex_mcp_ui.Projection.Status.{is_error_result}
use codex_mcp_ui.Projection.Tools.{
  bare_tool, known, tool_item, string_value, project_mcp_tool_bucket,
}

-- A call whose begin event is missing has no server, no tool name and no arguments, and the title
-- of an unnamed call, whatever the invocation in its end event says; result, duration, error and
-- status come from the end event.
pub mcp_tool_end_only :
    (id : String) (event : EventRecord)
    → project_mcp_tool_bucket id (record { begin = none; end = some event })
      ≡ some (
          tool_item event
            (record (bare_tool mcp_tool_call
              (append "MCP tool " id)
              (if is_error_result (get (msg_of event) "result") then failed else complete)
              (event.event_id ∷ [])) {
                result = known (get (msg_of event) "result");
                duration = str (msg_of event) "duration";
                error = string_value (get (as_record (get (msg_of event) "result")) "Err");
              }))
unfolding project_mcp_tool_bucket codex_mcp_ui.Common.Text.join str get as_record
mcp_tool_end_only id event = refl
