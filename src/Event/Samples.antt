-- ===== src/Event/Samples.antt =====
-- Events for the tests.
use codex_mcp_ui.Common.{String, none, some, []}
use codex_mcp_ui.Json.{Fields, object, field, end, string}
use codex_mcp_ui.Event.{EventRecord, EventDirection, SessionDetail}

-- An event of the category, the type and the payload, of the turn "turn".
abbrev pub sample : String → String → String → String → Fields → EventRecord
sample category event_type id timestamp payload = record {
  event_id = id;
  timestamp = timestamp;
  proxy_instance_id = "proxy";
  source_key = "source";
  thread_id = some "thread";
  turn_id = some "turn";
  request_id = none;
  direction = EventDirection.codex_to_upstream;
  category = category;
  event_type = some event_type;
  command_call_id = none;
  tool_call_id = none;
  payload = some (object payload);
}

abbrev pub codex : String → String → String → Fields → EventRecord
codex = sample "codex_event"

-- A message of the agent.
abbrev pub said : String → String → EventRecord
said id timestamp = codex "agent_message" id timestamp (field "message" (string "hi") end)

abbrev pub e1 : EventRecord
e1 = said "1" "2026-01-01"

abbrev pub e2 : EventRecord
e2 = said "2" "2026-01-02"

abbrev pub e3 : EventRecord
e3 = said "3" "2026-01-03"

abbrev pub e4 : EventRecord
e4 = said "4" "2026-01-04"

abbrev pub detail : SessionDetail
detail = record {
  session = record {
    thread_id = "thread";
    source_key = "source";
    title = none;
    model = some "model";
    cwd = none;
    approval_policy = none;
    sandbox = none;
    first_seen = "2026-01-01";
    last_seen = "2026-01-04";
    status = none;
  };
  client_source = record {
    source_key = "source";
    client_name = "client";
    pid = 7;
    protocol_version = none;
    executable = none;
    cwd = none;
    first_seen = "2026-01-01";
    last_seen = "2026-01-04";
    session_count = 1;
  };
  recent_events = [];
}
