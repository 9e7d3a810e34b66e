-- ===== src/Projection/Dispatch/Streaming.antt =====
-- What the buckets of streams hold after the loop of `projectReadonlyAssistantThread`
-- (web/src/lib/assistant-projection.ts), told from the events alone.
use codex_mcp_ui.Common.{
  ℕ, suc, String, ◌≡◌, refl, sym, ap, ◌∙◌, Bool, true, false, Option, none, some, List, [], ◌∷◌,
  ◌==◌, eq_iff, if◌then◌else◌, Bool-cases, inl, inr,
}
use codex_mcp_ui.Common.Table.{Table, get, set, get-set}
use codex_mcp_ui.Event.{EventRecord}
use codex_mcp_ui.Projection.Access.{stream_bucket_id}
use codex_mcp_ui.Projection.Parts.{Variant, PairBucket, StreamBucket}
use codex_mcp_ui.Projection.Buckets.{append_stream_chunk, terminate_stream}
use codex_mcp_ui.Projection.Buckets.Streams.{get-append_stream_chunk}
use codex_mcp_ui.Projection.Switch.{PairKind, Case, case_of}
use codex_mcp_ui.Projection.Dispatch.StreamParts.{
  StreamKind, messages, reasonings, StreamPart, delta, final, part_of, part_if, role, end_stream,
  noted, note_all, stream_of, note_all-stream_of,
}
use codex_mcp_ui.Projection.Dispatch.Default.{default_for-IsOf}
use codex_mcp_ui.Projection.Dispatch.{
  Projection, empty_projection, set_pair_buckets, project_default, project_case, project_event,
  project_events, is_skipped,
}

abbrev pub streams : StreamKind → Projection → Table StreamBucket
streams messages p = p.message_streams
streams reasonings p = p.reasoning_streams

-- Another branch leaves both maps of streams.
abbrev pub Keeps : Projection → Projection → Type 0
Keeps p q = (q.message_streams ≡ p.message_streams) × (q.reasoning_streams ≡ p.reasoning_streams)

pub Keeps-set_pair_buckets :
    (p : Projection) (kind : PairKind) (m : Table PairBucket) → Keeps p (set_pair_buckets p kind m)
unfolding set_pair_buckets
Keeps-set_pair_buckets p PairKind.mcp_tool m = (refl, refl)
Keeps-set_pair_buckets p PairKind.web_search m = (refl, refl)
Keeps-set_pair_buckets p PairKind.image_generation m = (refl, refl)
Keeps-set_pair_buckets p PairKind.patch m = (refl, refl)
Keeps-set_pair_buckets p PairKind.dynamic_tool m = (refl, refl)
Keeps-set_pair_buckets p PairKind.collab_spawn m = (refl, refl)
Keeps-set_pair_buckets p PairKind.collab_interaction m = (refl, refl)
Keeps-set_pair_buckets p PairKind.collab_wait m = (refl, refl)
Keeps-set_pair_buckets p PairKind.collab_close m = (refl, refl)
Keeps-set_pair_buckets p PairKind.collab_resume m = (refl, refl)

abbrev pub terminated_in : Table StreamBucket → String → Option StreamBucket → Table StreamBucket
terminated_in store key none = store
terminated_in store key (some bucket) = set store key (record bucket { terminated = true })

get-terminated_in :
    (store : Table StreamBucket) (key id : String) (o : Option StreamBucket)
    → get store key ≡ o
    → get (terminated_in store key o) id
      ≡ (if key == id then end_stream (get store id) else get store id)
get-terminated_in store key id none missing = elim (Bool-cases (key == id)) [
  | inl same ↦
      let none_there = ap (get store) (sym ((eq_iff key id).0 same)) ∙ missing in
      rw (same, none_there) refl
  | inr other ↦ rw other refl
]
get-terminated_in store key id (some bucket) found = elim (Bool-cases (key == id)) [
  | inl same ↦
      let there = ap (get store) (sym ((eq_iff key id).0 same)) ∙ found in
      rw (get-set, same, there) refl
  | inr other ↦ rw (get-set, other) refl
]

pub terminate_stream-terminated_in :
    (store : Table StreamBucket) (event : EventRecord)
    → terminate_stream store event
      ≡ terminated_in store (stream_bucket_id event) (get store (stream_bucket_id event))
unfolding terminate_stream
terminate_stream-terminated_in store event = by_bucket (get store (stream_bucket_id event))
  where
    by_bucket :
        (o : Option StreamBucket)
        → elim o as (λ x. Table StreamBucket) [
          | none ↦ store
          | some bucket ↦ set store (stream_bucket_id event) (record bucket { terminated = true })
        ]
          ≡ terminated_in store (stream_bucket_id event) o
    by_bucket none = refl
    by_bucket (some bucket) = refl

get-terminate_stream :
    (store : Table StreamBucket) (event : EventRecord) (id : String)
    → get (terminate_stream store event) id
      ≡ (if stream_bucket_id event == id then end_stream (get store id) else get store id)
get-terminate_stream store event id =
    ap (λ m. get m id) (terminate_stream-terminated_in store event)
    ∙ get-terminated_in store (stream_bucket_id event) id (get store (stream_bucket_id event)) refl

module _ (p : Projection) (event : EventRecord) (index : ℕ) (id : String) where
  abbrev own : Bool
  own = stream_bucket_id event == id

  abbrev After : StreamKind → Table StreamBucket → Option StreamPart → Type 0
  After kind store part =
      get store id ≡ noted (part_if own part) event index (get (streams kind p) id)

  none-After : (kind : StreamKind) → After kind (streams kind p) none
  none-After kind = if_none own
    where
      if_none :
          (c : Bool)
          → get (streams kind p) id ≡ noted (part_if c none) event index (get (streams kind p) id)
      if_none true = refl
      if_none false = refl

  kept-After :
      (kind : StreamKind) (store : Table StreamBucket)
      → store ≡ streams kind p
      → After kind store none
  kept-After kind store same = ap (λ m. get m id) same ∙ none-After kind

  delta-After :
      (kind : StreamKind) (v : Variant)
      → After kind (append_stream_chunk (streams kind p) event index v) (some (delta v))
  delta-After kind v =
      get-append_stream_chunk (streams kind p) event index v id ∙ elim (Bool-cases own) [
        | inl same ↦ let here = (eq_iff (stream_bucket_id event) id).0 same in rw (same, here) refl
        | inr other ↦ rw other refl
      ]

  final-After :
      (kind : StreamKind) → After kind (terminate_stream (streams kind p) event) (some final)
  final-After kind =
      get-terminate_stream (streams kind p) event id
      ∙ elim (Bool-cases own) [ inl same ↦ rw same refl | inr other ↦ rw other refl ]

  case-After :
      (kind : StreamKind) (c : Case)
      → After kind (streams kind (project_case p event index c)) (part_of kind c)
  unfolding project_case project_default
  case-After messages Case.agent_message = final-After messages
  case-After reasonings Case.agent_message = none-After reasonings
  case-After messages Case.agent_reasoning = none-After messages
  case-After reasonings Case.agent_reasoning = final-After reasonings
  case-After messages Case.agent_reasoning_raw_content = none-After messages
  case-After reasonings Case.agent_reasoning_raw_content = final-After reasonings
  case-After messages Case.message_delta = delta-After messages Variant.text
  case-After reasonings Case.message_delta = none-After reasonings
  case-After messages Case.reasoning_delta = none-After messages
  case-After reasonings Case.reasoning_delta = delta-After reasonings Variant.reasoning
  case-After messages Case.raw_content_delta = none-After messages
  case-After reasonings Case.raw_content_delta = delta-After reasonings Variant.raw_content
  case-After messages Case.user_message = none-After messages
  case-After reasonings Case.user_message = none-After reasonings
  case-After messages Case.section_break = none-After messages
  case-After reasonings Case.section_break = none-After reasonings
  case-After messages Case.exec_begin = none-After messages
  case-After reasonings Case.exec_begin = none-After reasonings
  case-After messages Case.exec_output = none-After messages
  case-After reasonings Case.exec_output = none-After reasonings
  case-After messages Case.exec_interaction = none-After messages
  case-After reasonings Case.exec_interaction = none-After reasonings
  case-After messages Case.exec_end = none-After messages
  case-After reasonings Case.exec_end = none-After reasonings
  case-After messages Case.view_image = none-After messages
  case-After reasonings Case.view_image = none-After reasonings
  case-After messages Case.plan_update = none-After messages
  case-After reasonings Case.plan_update = none-After reasonings
  case-After messages Case.plan_delta = none-After messages
  case-After reasonings Case.plan_delta = none-After reasonings
  case-After messages (Case.pair_begin kind) =
      kept-After messages _ (Keeps-set_pair_buckets p kind _).0
  case-After messages (Case.pair_end kind) =
      kept-After messages _ (Keeps-set_pair_buckets p kind _).0
  case-After messages Case.default =
      kept-After messages _
        (ap (λ q. q.message_streams) (default_for-IsOf p event index event.event_type).1)
  case-After reasonings (Case.pair_begin kind) =
      kept-After reasonings _ (Keeps-set_pair_buckets p kind _).1
  case-After reasonings (Case.pair_end kind) =
      kept-After reasonings _ (Keeps-set_pair_buckets p kind _).1
  case-After reasonings Case.default =
      kept-After reasonings _
        (ap (λ q. q.reasoning_streams) (default_for-IsOf p event index event.event_type).1)

event-noted :
    (p : Projection) (event : EventRecord) (index : ℕ) (kind : StreamKind) (id : String)
    → get (streams kind (project_event p event index)) id
      ≡ noted (role kind id event) event index (get (streams kind p) id)
unfolding project_event
event-noted p event index kind id = elim (Bool-cases (is_skipped event)) [
  | inl skipped ↦ rw skipped refl
  | inr kept ↦ rw kept (case-After p event index id kind (case_of event.event_type))
]

events-note_all :
    (p : Projection) (events : List EventRecord) (index : ℕ) (kind : StreamKind) (id : String)
    → get (streams kind (project_events p events index)) id
      ≡ note_all kind id events index (get (streams kind p) id)
unfolding project_events note_all
events-note_all p [] index kind id = refl
events-note_all p (event ∷ events) index kind id =
    events-note_all (project_event p event index) events (suc index) kind id
    ∙ ap (note_all kind id events (suc index)) (event-noted p event index kind id)

-- After the loop, the bucket of a stream is the one that its first delta makes: at that delta's
-- place, with its variant, with the ids of all deltas of the stream and their nonempty chunks in
-- order, whatever stood between them, and ended if a final event came after the first; and there is
-- no bucket if there was no delta.
pub streams_met :
    (events : List EventRecord) (index : ℕ) (kind : StreamKind) (id : String)
    → get (streams kind (project_events empty_projection events index)) id
      ≡ stream_of kind id events index
unfolding get
streams_met events index messages id =
    events-note_all empty_projection events index messages id
    ∙ note_all-stream_of messages id events index
streams_met events index reasonings id =
    events-note_all empty_projection events index reasonings id
    ∙ note_all-stream_of reasonings id events index
