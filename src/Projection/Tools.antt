-- ===== src/Projection/Tools.antt =====
-- The tool parts of web/src/lib/assistant-projection.ts: `projectExecBucket` and the functions
-- that read a pair of a begin and an end event.
pub mod Invocation
use codex_mcp_ui.Common.{
  ℕ, String, Bool, true, false, not, ◌&&◌, Option, none, some, List, [], ◌∷◌, ◌++◌, ◌==◌, map,
  present, if◌then◌else◌, is_empty, value_or, ◌or_else◌, truthy, is_some,
}
use codex_mcp_ui.Common.Table.{get, keys}
use codex_mcp_ui.Common.Text.{append, join}
use codex_mcp_ui.Json.{
  Json, Record, as_record, str, num, list, strings, strip_type_field, is_true, string,
}
use codex_mcp_ui.Event.{EventRecord}
use codex_mcp_ui.Projection.Parts.{
  Unknown, json, properties, elements, Interaction, ToolKind, exec_command, mcp_tool_call,
  web_search, image_generation, patch_apply, dynamic_tool_call, collab_agent, ToolStatus, running,
  complete, failed, ToolPart, Part, AssistantPartItem, ExecBucket, PairBucket, max_safe_integer,
}
use codex_mcp_ui.Projection.Access.{msg_of, msg_of_optional, Decoders, base64_decode_utf8}
use codex_mcp_ui.Projection.Status.{
  is_error_result, map_exec_completion_status, map_image_completion_status, collab_status,
}

-- A tool part with its optional fields left undefined.
abbrev pub bare_tool : ToolKind → String → ToolStatus → List String → ToolPart
bare_tool kind title status ids = record {
  tool_kind = kind;
  title = title;
  status = status;
  command = none;
  cwd = none;
  output = none;
  exit_code = none;
  server = none;
  tool_name = none;
  args = none;
  result = none;
  duration = none;
  query = none;
  action_type = none;
  changes = none;
  stdout = none;
  stderr = none;
  error = none;
  image_status = none;
  revised_prompt = none;
  saved_path = none;
  interactions = none;
  event_ids = ids;
}

-- A property's value; `undefined` where it is missing.
abbrev pub known : Option Json → Option Unknown
known none = none
known (some v) = some (json (some v))

-- `value || undefined` on texts and on lists.
abbrev pub nonempty : String → Option String
nonempty s = if truthy s then some s else none

abbrev pub nonempty_list {ℓ} : {A : Type ℓ} → List A → Option (List A)
nonempty_list xs = if is_empty xs then none else some xs

-- `a || b`.
abbrev pub or_text : String → String → String
or_text a b = if truthy a then a else b

abbrev pub event_id_of : Option EventRecord → List String
event_id_of none = []
event_id_of (some event) = event.event_id ∷ []

abbrev pub event_ids_of : List EventRecord → List String
event_ids_of = map (λ event. event.event_id)

abbrev first {ℓ} : {A : Type ℓ} → List A → Option A
first [] = none
first (x ∷ xs) = some x

abbrev pub tool_item : EventRecord → ToolPart → AssistantPartItem
tool_item anchor part = record {
  timestamp = anchor.timestamp;
  order = max_safe_integer;
  part = Part.tool part;
  close_message_after = false;
}

-- The anchor is the event that places the part; without one there is no part.
abbrev pub anchored : Option EventRecord → ToolPart → Option AssistantPartItem
anchored none part = none
anchored (some anchor) part = some (tool_item anchor part)

abbrev pub pair_event_ids : PairBucket → List String
pair_event_ids bucket = event_id_of bucket.begin ++ event_id_of bucket.end

abbrev pub exec_event_ids : ExecBucket → List String
exec_event_ids bucket =
    event_id_of bucket.begin
    ++ (event_ids_of bucket.outputs ++ (event_ids_of bucket.interactions ++ event_id_of bucket.end))

abbrev pub exec_command_of : Record → List String
exec_command_of begin_message =
    let command = strings (list begin_message "command") in
    if is_empty command then strings (list begin_message "cmd") else command

abbrev pub streamed_output : Decoders → List EventRecord → String
streamed_output d outputs =
    join (map (λ event. base64_decode_utf8 d (value_or (str (msg_of event) "chunk") "")) outputs) ""

abbrev pub exec_output : String → Record → String
exec_output streamed end_message = or_text streamed (
    or_text (value_or (str end_message "aggregated_output") "")
      (join (present (str end_message "stdout" ∷ str end_message "stderr" ∷ [])) "\n"))

abbrev interaction_of : EventRecord → Interaction
interaction_of event = record {
  process_id = str (msg_of event) "process_id";
  stdin = str (msg_of event) "stdin";
  interaction_input = str (msg_of event) "interaction_input";
}

abbrev pub exec_status : Option EventRecord → Record → ToolStatus
exec_status none end_message = running
exec_status (some event) end_message =
    map_exec_completion_status (str end_message "status") (num end_message "exit_code")

unfoldable pub project_exec_bucket : Decoders → String → ExecBucket → Option AssistantPartItem
project_exec_bucket d id bucket =
    let begin_message = msg_of_optional bucket.begin in
    let end_message = msg_of_optional bucket.end in
    let command = exec_command_of begin_message in
    anchored
      (bucket.begin
        or_else first bucket.outputs
        or_else first bucket.interactions
        or_else bucket.end)
      (record (bare_tool exec_command (or_text (join command " ") (append "Command " id))
        (exec_status bucket.end end_message) (exec_event_ids bucket)) {
          command = some command;
          cwd = str begin_message "cwd";
          output = nonempty (exec_output (streamed_output d bucket.outputs) end_message);
          stdout = str end_message "stdout";
          stderr = str end_message "stderr";
          interactions = nonempty_list (map interaction_of bucket.interactions);
          exit_code = num end_message "exit_code";
        })

-- The status of a pair: running until its end event is there.
abbrev pub ended : Option EventRecord → ToolStatus → ToolStatus
ended none status = running
ended (some event) status = status

abbrev pub string_value : Option Json → Option String
string_value (some (string s)) = some s
string_value _ = none

-- `asRecord(begin.invocation) || asRecord(end.invocation)`: a record is an object, also an empty
-- one, and so the left side always decides.
abbrev pub invocation_of : Record → Record → Record
invocation_of begin_message end_message = as_record (get begin_message "invocation")

unfoldable pub project_mcp_tool_bucket : String → PairBucket → Option AssistantPartItem
project_mcp_tool_bucket id bucket =
    let begin_message = msg_of_optional bucket.begin in
    let end_message = msg_of_optional bucket.end in
    let invocation = invocation_of begin_message end_message in
    let server = str invocation "server" in
    let tool_name = str invocation "tool" in
    let result = get end_message "result" in
    anchored (bucket.begin or_else bucket.end)
      (record (bare_tool mcp_tool_call
        (or_text (join (present (server ∷ tool_name ∷ [])) ".") (append "MCP tool " id))
        (ended bucket.end (if is_error_result result then failed else complete))
        (pair_event_ids bucket)) {
          server = server;
          tool_name = tool_name;
          args = known (get invocation "arguments");
          result = known result;
          duration = str end_message "duration";
          error = string_value (get (as_record result) "Err");
        })
