-- ===== src/Projection/Pairs/Tests.antt =====
-- Calls, and the instances of their theorems at them.
use codex_mcp_ui.Common.{String, ◌≡◌, ◌↔◌, refl, none, some, List, [], ◌∷◌, select, last?}
use codex_mcp_ui.Common.Table.{get}
use codex_mcp_ui.Common.Text.{join}
use codex_mcp_ui.Json.{Json, Fields, object, field, end, string, str, as_record}
use codex_mcp_ui.Projection.Parts.{
  AssistantPartItem, PairBucket, ExecBucket, running, complete, mcp_tool_call, exec_command,
}
use codex_mcp_ui.Projection.Access.{Decoders, msg_of, bucket_id}
use codex_mcp_ui.Projection.Status.{map_exec_completion_status}
use codex_mcp_ui.Projection.Tools.{
  bare_tool, tool_item, project_mcp_tool_bucket, project_exec_bucket,
}
use codex_mcp_ui.Projection.Pairs.Running.{project_pair, status_of}
use codex_mcp_ui.Projection.Thread.Running.{pairs, ends_call, call_part, call_part-RunsUntil}
use codex_mcp_ui.Projection.Switch.{PairKind, Case, case_of}
use codex_mcp_ui.Projection.Dispatch.{empty_projection, pair_buckets, project_event, project_events}
use codex_mcp_ui.Projection.Dispatch.Pairing.{pair_order}
use codex_mcp_ui.Projection.Dispatch.Meeting.{is_begin, is_end, met, pairs_met}
use codex_mcp_ui.Projection.Dispatch.CommandParts.{CommandPart, is_command, command_met}
use codex_mcp_ui.Projection.Dispatch.Commands.{commands_met}
use codex_mcp_ui.Event.{EventRecord}
use codex_mcp_ui.Event.Samples.{codex, e1}
use codex_mcp_ui.Projection.Pairs.Samples.{call_begin, call_end}

-- A platform that decodes nothing.
abbrev no_decoders : Decoders
no_decoders = record { atob = λ s. none; utf8 = λ bytes. none; utf16le = λ bytes. none }

same_call : bucket_id call_end ≡ bucket_id call_begin
unfolding bucket_id msg_of get codex_mcp_ui.Json.str codex_mcp_ui.Json.is_object
    codex_mcp_ui.Json.as_record
same_call = refl

begin_case : case_of call_begin.event_type ≡ Case.pair_begin PairKind.mcp_tool
unfolding case_of get
begin_case = refl

end_case : case_of call_end.event_type ≡ Case.pair_end PairKind.mcp_tool
unfolding case_of get
end_case = refl

pair_order_example :
    project_event (project_event empty_projection call_begin 0) call_end 1
    ≡ project_event (project_event empty_projection call_end 0) call_begin 1
pair_order_example =
    pair_order empty_projection PairKind.mcp_tool call_begin call_end 0 1 0 1 refl refl begin_case
      end_case same_call

-- The end comes first, then something else, then the begin.
abbrev turned : List EventRecord
turned = call_end ∷ e1 ∷ call_begin ∷ []

pairs_met_example :
    get (pair_buckets (project_events empty_projection turned 0) PairKind.mcp_tool) "call"
    ≡ met
        (last? (select (is_begin PairKind.mcp_tool "call") turned))
        (last? (select (is_end PairKind.mcp_tool "call") turned))
pairs_met_example = pairs_met turned 0 PairKind.mcp_tool "call"

-- A command with two outputs and another call between them.
abbrev command_event : String → String → EventRecord
command_event event_type id = codex event_type id "2026-01-05" (field "call_id" (string "run") end)

abbrev ran : List EventRecord
ran =
    command_event "exec_command_output_delta" "2"
    ∷ call_begin
    ∷ command_event "exec_command_begin" "1"
    ∷ command_event "exec_command_output_delta" "3"
    ∷ []

commands_met_example :
    get (project_events empty_projection ran 0).exec_buckets "run"
    ≡ command_met
        (last? (select (is_command CommandPart.begin "run") ran))
        (select (is_command CommandPart.output "run") ran)
        (select (is_command CommandPart.interaction "run") ran)
        (last? (select (is_command CommandPart.end "run") ran))
commands_met_example = commands_met ran 0 "run"

-- The outputs are those of the command, in order.
ran_outputs :
    select (is_command CommandPart.output "run") ran
    ≡ command_event "exec_command_output_delta" "2"
      ∷ command_event "exec_command_output_delta" "3"
      ∷ []
unfolding bucket_id msg_of get case_of codex_mcp_ui.Json.str codex_mcp_ui.Json.is_object
    codex_mcp_ui.Json.as_record
ran_outputs = refl

abbrev one_call : PairBucket
one_call = record { begin = some call_begin; end = none }

abbrev one_call_item : AssistantPartItem
one_call_item =
    tool_item call_begin
      (record (bare_tool mcp_tool_call "MCP tool call" running ("5" ∷ [])) { args = none })

one_call-item : project_pair PairKind.mcp_tool "call" one_call ≡ some one_call_item
unfolding project_mcp_tool_bucket msg_of get join codex_mcp_ui.Json.str codex_mcp_ui.Json.is_object
    codex_mcp_ui.Json.as_record
one_call-item = refl

abbrev one_command : ExecBucket
one_command = record { begin = none; outputs = []; interactions = []; end = some call_end }

abbrev one_command_item : AssistantPartItem
one_command_item =
    tool_item call_end
      (record (bare_tool exec_command "Command call" complete ("6" ∷ [])) { command = some [] })

one_command-item : project_exec_bucket no_decoders "call" one_command ≡ some one_command_item
unfolding project_exec_bucket map_exec_completion_status msg_of get join codex_mcp_ui.Json.str
    codex_mcp_ui.Json.num codex_mcp_ui.Json.list codex_mcp_ui.Json.is_object
    codex_mcp_ui.Json.as_record
one_command-item = refl

called :
    call_part no_decoders
      (pairs PairKind.mcp_tool)
      "call"
      (project_events empty_projection (e1 ∷ call_begin ∷ []) 0)
    ≡ some one_call_item
unfolding project_events project_event codex_mcp_ui.Projection.Dispatch.project_case pair_buckets
    codex_mcp_ui.Projection.Dispatch.set_pair_buckets codex_mcp_ui.Projection.Buckets.change_bucket
    get codex_mcp_ui.Common.Table.set bucket_id msg_of case_of project_mcp_tool_bucket join
    codex_mcp_ui.Json.str codex_mcp_ui.Json.is_object codex_mcp_ui.Json.as_record
called = refl

call_part-RunsUntil_example :
    (status_of (some one_call_item) ≡ some running)
    ↔ (select (ends_call (pairs PairKind.mcp_tool) "call") (e1 ∷ call_begin ∷ []) ≡ [])
call_part-RunsUntil_example =
    call_part-RunsUntil no_decoders (e1 ∷ call_begin ∷ []) 0 (pairs PairKind.mcp_tool) "call"
      one_call_item called
