-- ===== src/Projection/Pairs/Samples.antt =====
-- The events of one call, for the tests.
use codex_mcp_ui.Json.{Fields, field, end, string}
use codex_mcp_ui.Event.{EventRecord}
use codex_mcp_ui.Event.Samples.{codex}

abbrev pub call : Fields
call = field "call_id" (string "call") end

abbrev pub call_begin : EventRecord
call_begin = codex "mcp_tool_call_begin" "5" "2026-01-05" call

abbrev pub call_end : EventRecord
call_end = codex "mcp_tool_call_end" "6" "2026-01-06" call
