-- ===== src/Projection/Buckets.antt =====
-- `getBucket`, `appendStreamChunk`, `terminateStream` and `projectStreamBucket` of
-- web/src/lib/assistant-projection.ts. A bucket that the source mutates in its `Map` is written
-- back under its key.
pub mod Streams
pub mod Laws
mod Tests
use codex_mcp_ui.Common.{
  ℕ, String, Bool, true, false, Option, none, some, List, [], ◌∷◌, ◌++◌, if◌then◌else◌, value_or,
  ◌or_else◌, truthy,
}
use codex_mcp_ui.Common.Table.{Table, get, set}
use codex_mcp_ui.Common.Text.{join}
use codex_mcp_ui.Json.{str}
use codex_mcp_ui.Event.{EventRecord}
use codex_mcp_ui.Projection.Parts.{
  Variant, Part, AssistantPartItem, ProjectionItem, ExecBucket, PairBucket, StreamBucket,
}
use codex_mcp_ui.Projection.Access.{msg_of, stream_bucket_id}

-- `getBucket(store, id, create)`, and the change that the caller makes to the bucket.
unfoldable pub change_bucket {ℓ} : {T : Type ℓ} → Table T → String → T → (T → T) → Table T
change_bucket store id create change = set store id (change (value_or (get store id) create))

abbrev pub empty_exec : ExecBucket
empty_exec = record { begin = none; outputs = []; interactions = []; end = none }

abbrev pub empty_pair : PairBucket
empty_pair = record { begin = none; end = none }

abbrev pub new_stream : EventRecord → ℕ → Variant → StreamBucket
new_stream event order variant = record {
  timestamp = event.timestamp;
  order = order;
  event_ids = [];
  chunks = [];
  variant = variant;
  terminated = false;
}

abbrev pub chunk_of : EventRecord → String
chunk_of event = value_or (str (msg_of event) "delta" or_else str (msg_of event) "text") ""

abbrev pub push_chunk : EventRecord → StreamBucket → StreamBucket
push_chunk event bucket = record bucket {
  event_ids = bucket.event_ids ++ event.event_id ∷ [];
  chunks = if truthy (chunk_of event) then bucket.chunks ++ chunk_of event ∷ [] else bucket.chunks;
}

unfoldable pub append_stream_chunk :
    Table StreamBucket → EventRecord → ℕ → Variant → Table StreamBucket
unfolding change_bucket
append_stream_chunk store event order variant =
    change_bucket store (stream_bucket_id event) (new_stream event order variant) (push_chunk event)

-- Without a bucket there is nothing to end.
unfoldable pub terminate_stream : Table StreamBucket → EventRecord → Table StreamBucket
terminate_stream store event = elim (get store (stream_bucket_id event)) [
  | none ↦ store
  | some bucket ↦ set store (stream_bucket_id event) (record bucket { terminated = true })
]

abbrev pub stream_part : Variant → String → List String → Part
stream_part Variant.text text ids = Part.text text none none ids
stream_part variant text ids = Part.reasoning text variant ids

unfoldable pub project_stream_bucket : StreamBucket → Option AssistantPartItem
project_stream_bucket bucket =
    let text = join bucket.chunks "" in
    if bucket.terminated
    then none
    else if truthy text
    then some (record {
      timestamp = bucket.timestamp;
      order = bucket.order;
      part = stream_part bucket.variant text bucket.event_ids;
      close_message_after = false;
    })
    else none
