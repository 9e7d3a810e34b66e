-- ===== src/Projection/Dispatch/StreamKeys.antt =====
-- The keys of the streams' maps of the loop in web/src/lib/assistant-projection.ts.
use codex_mcp_ui.Common.{
  ℕ, String, ◌≡◌, refl, ap, ◌∙◌, Bool, true, false, not, ◌&&◌, Option, none, some, List, [], ◌∷◌,
  ◌==◌, if◌then◌else◌, Bool-cases, inl, inr, map, select, any,
}
use codex_mcp_ui.Common.Table.{Table, get, keys}
use codex_mcp_ui.Common.Keys.{add_key, keys-set, firsts}
use codex_mcp_ui.Event.{EventRecord}
use codex_mcp_ui.Projection.Access.{stream_bucket_id}
use codex_mcp_ui.Projection.Parts.{StreamBucket, Variant}
use codex_mcp_ui.Projection.Buckets.{change_bucket, append_stream_chunk, terminate_stream}
use codex_mcp_ui.Projection.Switch.{Case, case_of}
use codex_mcp_ui.Projection.Dispatch.StreamParts.{
  StreamKind, messages, reasonings, part_of, is_delta_part,
}
use codex_mcp_ui.Projection.Dispatch.Streaming.{
  streams, Keeps-set_pair_buckets, terminated_in, terminate_stream-terminated_in,
}
use codex_mcp_ui.Projection.Dispatch.Default.{default_for-IsOf}
use codex_mcp_ui.Projection.Dispatch.Keyed.{add_key_if, loop-firsts}
use codex_mcp_ui.Projection.Dispatch.{
  Projection, empty_projection, project_default, project_case, project_event, project_events,
  is_skipped,
}

-- The deltas of a map of streams.
abbrev pub is_of_stream : StreamKind → EventRecord → Bool
is_of_stream kind e = not (is_skipped e) && is_delta_part (part_of kind (case_of e.event_type))

-- To end a stream makes no bucket.
found_key :
    (m : Table StreamBucket) (k : String) (b : StreamBucket)
    → get m k ≡ some b
    → any (λ j. j == k) (keys m) ≡ true
unfolding get
found_key [] k b h = cc
found_key ((j, w) ∷ m) k b h = elim (Bool-cases (j == k)) [
  | inl here ↦ rw here refl
  | inr there ↦ rw there (found_key m k b (rw (there) at h))
]

keys-terminated_in :
    (m : Table StreamBucket) (k : String) (o : Option StreamBucket)
    → get m k ≡ o
    → keys (terminated_in m k o) ≡ keys m
keys-terminated_in m k none h = refl
keys-terminated_in m k (some b) h = keys-set m k _ ∙ rw (found_key m k b h) refl

keys-terminate_stream :
    (m : Table StreamBucket) (event : EventRecord) → keys (terminate_stream m event) ≡ keys m
keys-terminate_stream m event =
    ap keys (terminate_stream-terminated_in m event)
    ∙ keys-terminated_in m (stream_bucket_id event) (get m (stream_bucket_id event)) refl

keys-append_stream_chunk :
    (m : Table StreamBucket) (event : EventRecord) (index : ℕ) (v : Variant)
    → keys (append_stream_chunk m event index v) ≡ add_key (keys m) (stream_bucket_id event)
unfolding append_stream_chunk change_bucket
keys-append_stream_chunk m event index v = keys-set m (stream_bucket_id event) _

module _ (p : Projection) (event : EventRecord) (index : ℕ) where
  abbrev IsKeyed : StreamKind → Projection → Bool → Type 0
  IsKeyed kind q c =
      keys (streams kind q) ≡ add_key_if c (keys (streams kind p)) (stream_bucket_id event)

  case-IsKeyed :
      (kind : StreamKind) (c : Case)
      → IsKeyed kind (project_case p event index c) (is_delta_part (part_of kind c))
  unfolding project_case project_default
  case-IsKeyed messages Case.user_message = refl
  case-IsKeyed messages Case.agent_message = keys-terminate_stream p.message_streams event
  case-IsKeyed messages Case.agent_reasoning = refl
  case-IsKeyed messages Case.agent_reasoning_raw_content = refl
  case-IsKeyed messages Case.message_delta =
      keys-append_stream_chunk p.message_streams event index _
  case-IsKeyed messages Case.reasoning_delta = refl
  case-IsKeyed messages Case.raw_content_delta = refl
  case-IsKeyed messages Case.section_break = refl
  case-IsKeyed messages Case.exec_begin = refl
  case-IsKeyed messages Case.exec_output = refl
  case-IsKeyed messages Case.exec_interaction = refl
  case-IsKeyed messages Case.exec_end = refl
  case-IsKeyed messages Case.view_image = refl
  case-IsKeyed messages Case.plan_update = refl
  case-IsKeyed messages Case.plan_delta = refl
  case-IsKeyed messages (Case.pair_begin k) = ap keys (Keeps-set_pair_buckets p k _).0
  case-IsKeyed messages (Case.pair_end k) = ap keys (Keeps-set_pair_buckets p k _).0
  case-IsKeyed messages Case.default =
      ap (λ q. keys q.message_streams) (default_for-IsOf p event index event.event_type).1
  case-IsKeyed reasonings Case.user_message = refl
  case-IsKeyed reasonings Case.agent_message = refl
  case-IsKeyed reasonings Case.agent_reasoning = keys-terminate_stream p.reasoning_streams event
  case-IsKeyed reasonings Case.agent_reasoning_raw_content =
      keys-terminate_stream p.reasoning_streams event
  case-IsKeyed reasonings Case.message_delta = refl
  case-IsKeyed reasonings Case.reasoning_delta =
      keys-append_stream_chunk p.reasoning_streams event index _
  case-IsKeyed reasonings Case.raw_content_delta =
      keys-append_stream_chunk p.reasoning_streams event index _
  case-IsKeyed reasonings Case.section_break = refl
  case-IsKeyed reasonings Case.exec_begin = refl
  case-IsKeyed reasonings Case.exec_output = refl
  case-IsKeyed reasonings Case.exec_interaction = refl
  case-IsKeyed reasonings Case.exec_end = refl
  case-IsKeyed reasonings Case.view_image = refl
  case-IsKeyed reasonings Case.plan_update = refl
  case-IsKeyed reasonings Case.plan_delta = refl
  case-IsKeyed reasonings (Case.pair_begin k) = ap keys (Keeps-set_pair_buckets p k _).1
  case-IsKeyed reasonings (Case.pair_end k) = ap keys (Keeps-set_pair_buckets p k _).1
  case-IsKeyed reasonings Case.default =
      ap (λ q. keys q.reasoning_streams) (default_for-IsOf p event index event.event_type).1

  skip-IsKeyed :
      (kind : StreamKind) (s : Bool) (c : Case)
      → IsKeyed kind
          (if s then p else project_case p event index c)
          (not s && is_delta_part (part_of kind c))
  skip-IsKeyed kind true c = refl
  skip-IsKeyed kind false c = case-IsKeyed kind c

event-IsKeyed :
    (kind : StreamKind) (p : Projection) (event : EventRecord) (index : ℕ)
    → IsKeyed p event index kind (project_event p event index) (is_of_stream kind event)
unfolding project_event
event-IsKeyed kind p event index =
    skip-IsKeyed p event index kind (is_skipped event) (case_of event.event_type)

pub streams-keys :
    (kind : StreamKind) (events : List EventRecord) (index : ℕ)
    → keys (streams kind (project_events empty_projection events index))
      ≡ firsts (map stream_bucket_id (select (is_of_stream kind) events))
streams-keys kind events index =
    loop-firsts (λ p. keys (streams kind p)) (is_of_stream kind) stream_bucket_id
      (event-IsKeyed kind) events index (empty kind)
  where
    empty : (kind : StreamKind) → keys (streams kind empty_projection) ≡ []
    empty messages = refl
    empty reasonings = refl
