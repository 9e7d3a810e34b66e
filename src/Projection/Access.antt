-- ===== src/Projection/Access.antt =====
-- How web/src/lib/assistant-projection.ts reads an event: `msgOf`, `bucketId`, `streamBucketId`,
-- and the decoding of output chunks.
use codex_mcp_ui.Common.{
  ℕ, ◌%◌, String, ◌&&◌, Option, none, some, List, [], if◌then◌else◌, nat_eq, is_empty, value_or,
  ◌or_else◌, truthy, length,
}
use codex_mcp_ui.Common.Table.{get}
use codex_mcp_ui.Common.Text.{includes}
use codex_mcp_ui.Json.{Record, as_record, is_object, str}
use codex_mcp_ui.Event.{EventRecord}

unfoldable pub msg_of : EventRecord → Record
msg_of event =
    let payload = as_record event.payload in
    let params = as_record (get payload "params") in
    if is_object (get params "msg")
    then as_record (get params "msg")
    else if is_empty params
    then payload
    else params

-- `bucket.begin ? msgOf(bucket.begin) : {}`.
abbrev pub msg_of_optional : Option EventRecord → Record
msg_of_optional none = []
msg_of_optional (some event) = msg_of event

unfoldable pub bucket_id : EventRecord → String
bucket_id event =
    value_or (str (msg_of event) "call_id" or_else event.command_call_id or_else event.tool_call_id)
      event.event_id

unfoldable pub stream_bucket_id : EventRecord → String
stream_bucket_id event = value_or (event.turn_id or_else event.request_id) event.event_id

-- What the platform decodes: `atob`, and the fatal decoders of UTF-8 and UTF-16LE; none where
-- they throw.
pub record Decoders : Type 0 where
  pub atob : String → Option (List ℕ)
  pub utf8 : List ℕ → Option String
  pub utf16le : List ℕ → Option String

-- The text of one NUL character.
abbrev nul : String
nul = "\0"

-- Decoded bytes that hold a NUL, in an even number, are read as UTF-16LE.
unfoldable pub decode_bytes : Decoders → List ℕ → Option String
decode_bytes d bytes = elim (d.utf8 bytes) [
  | none ↦ none
  | some utf8 ↦
      if includes utf8 nul && nat_eq (length bytes % 2) 0 then d.utf16le bytes else some utf8
]

unfoldable pub base64_decode_utf8 : Decoders → String → String
base64_decode_utf8 d raw =
    if truthy raw
    then elim (d.atob raw) [ none ↦ raw | some bytes ↦ value_or (decode_bytes d bytes) raw ]
    else ""
