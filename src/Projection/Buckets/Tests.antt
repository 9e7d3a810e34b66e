-- ===== src/Projection/Buckets/Tests.antt =====
-- Streams of deltas, and the instances of their theorems at them.
use codex_mcp_ui.Common.{List, true, String, ◌≡◌, refl, false, none, some, [], ◌∷◌}
use codex_mcp_ui.Common.Table.{get}
use codex_mcp_ui.Json.{Json, Fields, object, field, end, string, str, as_record}
use codex_mcp_ui.Event.{EventRecord}
use codex_mcp_ui.Event.Samples.{codex, e2}
use codex_mcp_ui.Projection.Parts.{Variant, StreamBucket}
use codex_mcp_ui.Projection.Access.{msg_of, stream_bucket_id}
use codex_mcp_ui.Projection.Buckets.{project_stream_bucket, terminate_stream}
use codex_mcp_ui.Projection.Buckets.Streams.{append_all, stream_over}
use codex_mcp_ui.Projection.Dispatch.{empty_projection, project_events}
use codex_mcp_ui.Projection.Dispatch.StreamParts.{messages, stream_of}
use codex_mcp_ui.Projection.Dispatch.Streaming.{streams, streams_met}
use codex_mcp_ui.Projection.Switch.{case_of}
use codex_mcp_ui.Event.Samples.{e1}

abbrev delta : String → String → EventRecord
delta id text = codex "agent_message_delta" id "2026-01-02" (field "delta" (string text) end)

abbrev streamed : List EventRecord
streamed = delta "8" "He" ∷ e1 ∷ delta "9" "llo" ∷ []

streams_met_example :
    get (streams messages (project_events empty_projection streamed 0)) "turn"
    ≡ stream_of messages "turn" streamed 0
streams_met_example = streams_met streamed 0 messages "turn"

-- The bucket has the chunks of both deltas, and is ended by the message between them.
streamed-bucket :
    stream_of messages "turn" streamed 0
    ≡ some (record {
      timestamp = "2026-01-02";
      order = 0;
      event_ids = "8" ∷ "9" ∷ [];
      chunks = "He" ∷ "llo" ∷ [];
      variant = Variant.text;
      terminated = true;
    })
unfolding stream_of stream_bucket_id msg_of get case_of str codex_mcp_ui.Json.is_object as_record
streamed-bucket = refl

abbrev open_stream : StreamBucket
open_stream = record {
  timestamp = "2026-01-02";
  order = 0;
  event_ids = "8" ∷ [];
  chunks = "He" ∷ [];
  variant = Variant.text;
  terminated = false;
}

stream_over_example :
    (after : StreamBucket) × (get
        (append_all
          (terminate_stream (("turn", open_stream) ∷ []) e2)
          (delta "9" "llo" ∷ [])
          5
          Variant.text)
        (stream_bucket_id e2)
      ≡ some after)
    × (project_stream_bucket after ≡ none)
unfolding stream_bucket_id get
stream_over_example =
    stream_over (("turn", open_stream) ∷ []) e2 (delta "9" "llo" ∷ []) 5 Variant.text open_stream
      refl (refl, tt)
