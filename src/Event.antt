-- ===== src/Event.antt =====
-- The records of web/src/lib/types.ts.
pub mod Samples
pub mod Fixtures
use codex_mcp_ui.Common.{ℕ, String, Option, List}
use codex_mcp_ui.Json.{Json}

pub data EventDirection : Type 0 where
  upstream_to_codex codex_to_upstream local : EventDirection

pub record ClientSource : Type 0 where
  pub source_key : String
  pub client_name : String
  pub pid : ℕ
  pub protocol_version : Option String
  pub executable : Option String
  pub cwd : Option String
  pub first_seen : String
  pub last_seen : String
  pub session_count : ℕ

pub record Session : Type 0 where
  pub thread_id : String
  pub source_key : String
  pub title : Option String
  pub model : Option String
  pub cwd : Option String
  pub approval_policy : Option String
  pub sandbox : Option String
  pub first_seen : String
  pub last_seen : String
  pub status : Option String

pub record EventRecord : Type 0 where
  pub event_id : String
  pub timestamp : String
  pub proxy_instance_id : String
  pub source_key : String
  pub thread_id : Option String
  pub turn_id : Option String
  pub request_id : Option String
  pub direction : EventDirection
  pub category : String
  pub event_type : Option String
  pub command_call_id : Option String
  pub tool_call_id : Option String
  pub payload : Option Json

pub record PaginatedEventsResponse : Type 0 where
  pub items : List EventRecord
  pub next_cursor : Option String

-- Declared, and used by nothing.
record Handshake : Type 0 where
  hub_version : String
  proxy_instance_id : Option String
  api_base : String
  sse_url : String

pub record SessionDetail : Type 0 where
  pub session : Session
  pub client_source : ClientSource
  pub recent_events : List EventRecord
