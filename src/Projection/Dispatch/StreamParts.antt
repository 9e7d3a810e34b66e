-- ===== src/Projection/Dispatch/StreamParts.antt =====
-- The deltas of a turn among the events of web/src/lib/assistant-projection.ts, and the bucket that
-- they make.
use codex_mcp_ui.Common.{
  ℕ, suc, String, ◌≡◌, refl, ap, ◌∙◌, Bool, true, false, ◌||◌, Option, none, some, List, [], ◌∷◌,
  ◌==◌, if◌then◌else◌, select, any, value_or,
}
use codex_mcp_ui.Event.{EventRecord}
use codex_mcp_ui.Projection.Access.{stream_bucket_id}
use codex_mcp_ui.Projection.Parts.{Variant, StreamBucket}
use codex_mcp_ui.Projection.Buckets.{new_stream, push_chunk}
use codex_mcp_ui.Projection.Buckets.Streams.{pushed, pushed-cons, pushed-nil}
use codex_mcp_ui.Projection.Switch.{Case, case_of}
use codex_mcp_ui.Projection.Dispatch.{is_skipped}

-- The two maps of streams.
pub data StreamKind : Type 0 where
  messages reasonings : StreamKind

-- What an event is to a stream.
pub data StreamPart : Type 0 where
  delta : Variant → StreamPart
  final : StreamPart

abbrev pub part_of : StreamKind → Case → Option StreamPart
part_of messages Case.message_delta = some (delta Variant.text)
part_of messages Case.agent_message = some final
part_of reasonings Case.reasoning_delta = some (delta Variant.reasoning)
part_of reasonings Case.raw_content_delta = some (delta Variant.raw_content)
part_of reasonings Case.agent_reasoning = some final
part_of reasonings Case.agent_reasoning_raw_content = some final
part_of _ _ = none

abbrev pub part_if : Bool → Option StreamPart → Option StreamPart
part_if c part = if c then part else none

-- What an event is to the stream with a bucket id.
abbrev pub role : StreamKind → String → EventRecord → Option StreamPart
role kind id e =
    if is_skipped e
    then none
    else part_if (stream_bucket_id e == id) (part_of kind (case_of e.event_type))

abbrev pub is_delta_part : Option StreamPart → Bool
is_delta_part (some (delta v)) = true
is_delta_part _ = false

abbrev is_final_part : Option StreamPart → Bool
is_final_part (some final) = true
is_final_part _ = false

abbrev pub is_delta : StreamKind → String → EventRecord → Bool
is_delta kind id e = is_delta_part (role kind id e)

abbrev pub is_final : StreamKind → String → EventRecord → Bool
is_final kind id e = is_final_part (role kind id e)

-- What an event does to the bucket of a stream.
abbrev pub end_stream : Option StreamBucket → Option StreamBucket
end_stream none = none
end_stream (some bucket) = some (record bucket { terminated = true })

abbrev pub noted : Option StreamPart → EventRecord → ℕ → Option StreamBucket → Option StreamBucket
noted none e i o = o
noted (some (delta v)) e i o = some (push_chunk e (value_or o (new_stream e i v)))
noted (some final) e i o = end_stream o

unfoldable pub note_all :
    StreamKind → String → List EventRecord → ℕ → Option StreamBucket → Option StreamBucket
note_all kind id [] i o = o
note_all kind id (e ∷ es) i o = note_all kind id es (suc i) (noted (role kind id e) e i o)

-- A bucket, with some deltas added, and ended if it is or was.
abbrev grown : StreamBucket → List EventRecord → Bool → StreamBucket
grown bucket deltas ended = record (pushed bucket deltas) {
  terminated = bucket.terminated || ended;
}

-- A bucket after the events that come after it.
abbrev continued : StreamKind → String → List EventRecord → StreamBucket → StreamBucket
continued kind id es bucket =
    grown bucket (select (is_delta kind id) es) (any (is_final kind id) es)

abbrev stream_from :
    Option StreamPart
    → EventRecord
    → ℕ
    → (StreamBucket → StreamBucket)
    → Option StreamBucket
    → Option StreamBucket
stream_from (some (delta v)) e i continue otherwise =
    some (continue (push_chunk e (new_stream e i v)))
stream_from _ e i continue otherwise = otherwise

-- The bucket of a stream: it is made by the first delta, takes the ids of all deltas and their
-- nonempty chunks, and is ended by a final event after the first delta.
unfoldable pub stream_of : StreamKind → String → List EventRecord → ℕ → Option StreamBucket
stream_of kind id [] i = none
stream_of kind id (e ∷ es) i =
    stream_from (role kind id e) e i (continued kind id es) (stream_of kind id es (suc i))

grown-nil : (bucket : StreamBucket) → bucket ≡ grown bucket [] false
grown-nil bucket i = record (pushed-nil bucket i) { terminated = or_false bucket.terminated i }
  where
    or_false : (t : Bool) → t ≡ t || false
    or_false true = refl
    or_false false = refl

or_true : (t r : Bool) → true ≡ t || (true || r)
or_true true r = refl
or_true false r = refl

module _ (kind : StreamKind) (id : String) where
  note_all-noted :
      (part : Option StreamPart) (e : EventRecord) (es deltas : List EventRecord) (i : ℕ)
      (ended : Bool) (bucket : StreamBucket)
      → ((b : StreamBucket) → note_all kind id es (suc i) (some b) ≡ some (grown b deltas ended))
      → note_all kind id es (suc i) (noted part e i (some bucket))
        ≡ some (
            grown bucket
              (if is_delta_part part then e ∷ deltas else deltas)
              (is_final_part part || ended))
  note_all-noted none e es deltas i ended bucket go = go bucket
  note_all-noted (some (delta v)) e es deltas i ended bucket go =
      go (push_chunk e bucket)
      ∙ ap (λ (b : StreamBucket). some (record b { terminated = bucket.terminated || ended }))
          (pushed-cons bucket e deltas)
  note_all-noted (some final) e es deltas i ended bucket go =
      go (record bucket { terminated = true })
      ∙ ap (λ t. some (record (pushed bucket deltas) { terminated = t }))
          (or_true bucket.terminated ended)

  note_all-some :
      (es : List EventRecord) (i : ℕ) (bucket : StreamBucket)
      → note_all kind id es i (some bucket) ≡ some (continued kind id es bucket)
  unfolding note_all
  note_all-some [] i bucket = ap some (grown-nil bucket)
  note_all-some (e ∷ es) i bucket =
      note_all-noted (role kind id e) e es (select (is_delta kind id) es) i
        (any (is_final kind id) es) bucket (λ b. note_all-some es (suc i) b)

  note_all-first :
      (part : Option StreamPart) (e : EventRecord) (es : List EventRecord) (i : ℕ)
      → note_all kind id es (suc i) none ≡ stream_of kind id es (suc i)
      → note_all kind id es (suc i) (noted part e i none)
        ≡ stream_from part e i (continued kind id es) (stream_of kind id es (suc i))
  note_all-first none e es i later = later
  note_all-first (some final) e es i later = later
  note_all-first (some (delta v)) e es i later =
      note_all-some es (suc i) (push_chunk e (new_stream e i v))

  pub note_all-stream_of :
      (es : List EventRecord) (i : ℕ) → note_all kind id es i none ≡ stream_of kind id es i
  unfolding note_all stream_of
  note_all-stream_of [] i = refl
  note_all-stream_of (e ∷ es) i =
      note_all-first (role kind id e) e es i (note_all-stream_of es (suc i))
