-- ===== src/Event/Fixtures.antt =====
-- web/src/lib/fixtures.ts: a source, a session and its events, which the components' tests use.
use codex_mcp_ui.Common.{String, Option, none, some, List, [], ◌∷◌}
use codex_mcp_ui.Json.{Json, object, field, end, string, array, nil, cons, number}
use codex_mcp_ui.Event.{EventDirection, ClientSource, Session, EventRecord}
use mathlib.Core.Bool.{false}

abbrev pub fixture_client_source : ClientSource
fixture_client_source = record {
  source_key = "claude-desktop-18244";
  client_name = "Claude Desktop";
  pid = 18244;
  protocol_version = some "2024-11-05";
  executable = some "C:/Program Files/Claude/Claude.exe";
  cwd = some "C:/Users/demo";
  first_seen = "2026-04-12T12:00:00Z";
  last_seen = "2026-04-12T12:05:00Z";
  session_count = 1;
}

abbrev pub fixture_session : Session
fixture_session = record {
  thread_id = "thread-abc123";
  source_key = fixture_client_source.source_key;
  title = none;
  model = some "gpt-5.4";
  cwd = some "C:/Users/demo/project";
  approval_policy = some "on-request";
  sandbox = some "workspace-write";
  first_seen = "2026-04-12T12:00:05Z";
  last_seen = "2026-04-12T12:04:59Z";
  status = some "active";
}

-- What the events share.
abbrev fixture_event :
    String → String → String → String → String → Option String → Json → EventRecord
fixture_event id timestamp request turn event_type command payload = record {
  event_id = id;
  timestamp = timestamp;
  proxy_instance_id = "proxy-1";
  source_key = fixture_client_source.source_key;
  thread_id = some fixture_session.thread_id;
  request_id = some request;
  turn_id = some turn;
  direction = EventDirection.codex_to_upstream;
  category = "notification";
  event_type = some event_type;
  command_call_id = command;
  tool_call_id = none;
  payload = some payload;
}

abbrev one_field : String → Json → Json
one_field key value = object (field key value end)

abbrev pub fixture_events : List EventRecord
fixture_events =
    fixture_event "evt-1" "2026-04-12T12:00:05Z" "req-1" "turn-1" "session_configured" none
      (one_field "model" (string "gpt-5.4"))
    ∷ fixture_event "evt-2" "2026-04-12T12:00:10Z" "req-1" "turn-1" "session_configured" none
        (one_field "model" (string "gpt-5.4"))
    ∷ fixture_event "evt-3" "2026-04-12T12:01:00Z" "req-2" "turn-2" "exec_command_begin"
        (some "cmd-1") (one_field "cmd" (array (cons (string "ls") (cons (string "-la") nil))))
    ∷ fixture_event "evt-4" "2026-04-12T12:01:02Z" "req-2" "turn-2" "exec_command_output_delta"
        (some "cmd-1") (one_field "chunk" (string "file1\nfile2\n"))
    ∷ fixture_event "evt-5" "2026-04-12T12:01:03Z" "req-2" "turn-2" "exec_command_end"
        (some "cmd-1")
        (one_field "exit_code" (number (record { negative = false; digits = 0; scale = 0 })))
    ∷ fixture_event "evt-6" "2026-04-12T12:04:59Z" "req-3" "turn-3" "turn_complete" none
        (one_field "summary" (string "done"))
    ∷ []
