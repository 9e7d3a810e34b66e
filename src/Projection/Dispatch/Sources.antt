-- ===== src/Projection/Dispatch/Sources.antt =====
-- Every event id that the event loop stores comes from an event that it does not skip.
use codex_mcp_ui.Common.{
  ℕ, suc, String, ◌≡◌, false, Bool-cases, inl, inr, Option, none, some, List, [], ◌∷◌, All,
  All-append, if_both, if_either, ◌==◌, ◌&&◌, not, is_empty, Option-cases, truthy,
}
use codex_mcp_ui.Common.Table.{Table, get, All-get, All-set}
use codex_mcp_ui.Common.Text.{trim}
use codex_mcp_ui.Json.{Json}
use codex_mcp_ui.Event.{EventRecord}
use codex_mcp_ui.Projection.Parts.{
  Title, Part, Variant, AssistantPartItem, ProjectionItem, StreamBucket,
}
use codex_mcp_ui.Projection.Access.{stream_bucket_id}
use codex_mcp_ui.Projection.Buckets.{append_stream_chunk, terminate_stream, new_stream, push_chunk}
use codex_mcp_ui.Projection.Buckets.Laws.{All-change_bucket}
use codex_mcp_ui.Projection.Items.{
  project_user_message, project_mcp_method, project_assistant_part, or_empty_text, text_parts,
  input_parts, method_for,
}
use codex_mcp_ui.Projection.Switch.{PairKind, Case, case_of}
use codex_mcp_ui.Projection.Titles.{is_approval_event, lifecycle_title}
use codex_mcp_ui.Projection.Dispatch.{
  Projection, empty_projection, pair_buckets, push_part, or_unknown, or_method, default_for,
  project_default, project_case, is_skipped, project_event, project_events,
}
use codex_mcp_ui.Projection.Dispatch.Cites.{
  Cites, CitesItem, CitesPair, CitesStream, IsSourced, rebuild, push-IsSourced,
  change_pair-IsSourced, change_exec-IsSourced,
}

-- `P id`: the id is allowed.
module _ (P : String → Type 0) where
  append_stream_chunk-Cites :
      (store : Table StreamBucket) (event : EventRecord) (index : ℕ) (variant : Variant)
      → All (λ entry. CitesStream P entry.1) store
      → P event.event_id
      → All (λ entry. CitesStream P entry.1) (append_stream_chunk store event index variant)
  unfolding append_stream_chunk
  append_stream_chunk-Cites store event index variant h own =
      All-change_bucket (CitesStream P) store (stream_bucket_id event)
        (new_stream event index variant) (push_chunk event) h tt
        (λ b cited. All-append P b.event_ids (event.event_id ∷ []) cited (own, tt))

  terminate_stream-Cites :
      (store : Table StreamBucket) (event : EventRecord)
      → All (λ entry. CitesStream P entry.1) store
      → All (λ entry. CitesStream P entry.1) (terminate_stream store event)
  unfolding terminate_stream
  terminate_stream-Cites store event h = elim (Option-cases (get store (stream_bucket_id event))) [
    | inl missing ↦ rw (terminate_stream, missing) h
    | inr (b, found) ↦
        rw (terminate_stream, found)
          (All-set (λ entry. CitesStream P entry.1) store (stream_bucket_id event) _ h
            (All-get (λ entry. CitesStream P entry.1) store (stream_bucket_id event) h found))
  ]

  or_empty_text-Cites :
      (ps : List Part) (message id : String)
      → P id
      → All (Cites P) ps
      → All (Cites P) (or_empty_text ps message id)
  or_empty_text-Cites [] message id own h = ((own, tt), tt)
  or_empty_text-Cites (p ∷ ps) message id own h = h

  text_parts-Cites : (message id : String) → P id → All (Cites P) (text_parts message id)
  text_parts-Cites message id own = elim (Bool-cases (truthy (trim message))) [
    | inl there ↦ rw there ((own, tt), tt)
    | inr blank ↦ rw blank tt
  ]

  input_parts-Cites :
      (images local_images : List String) (elements : List Json) (id : String)
      → P id
      → All (Cites P) (input_parts images local_images elements id)
  input_parts-Cites images local_images elements id own =
      elim (Bool-cases (is_empty images && is_empty local_images && is_empty elements)) [
        | inl nothing ↦ rw nothing tt
        | inr something ↦ rw something ((own, tt), tt)
      ]

  user-Cites :
      (event : EventRecord) (index : ℕ)
      → P event.event_id
      → CitesItem P (ProjectionItem.user (project_user_message event index))
  unfolding project_user_message
  user-Cites event index own = or_empty_text-Cites _ _ event.event_id own (
      All-append (Cites P) (text_parts _ event.event_id) _ (text_parts-Cites _ event.event_id own)
        (input_parts-Cites _ _ _ event.event_id own))

  abbrev pub CitesMaybe : Option AssistantPartItem → Type 0
  CitesMaybe none = Unit
  CitesMaybe (some item) = Cites P item.part

  method_for-Cites :
      (event : EventRecord) (index : ℕ) (event_type : Option String)
      → P event.event_id
      → CitesMaybe (method_for event index event_type)
  unfolding project_assistant_part
  method_for-Cites event index none own = tt
  method_for-Cites event index (some method) own =
      elim (Bool-cases (truthy method && not (event.category == "codex_event"))) [
        | inl named ↦ rw named (own, tt)
        | inr other ↦ rw other tt
      ]

  module _ (p : Projection) (event : EventRecord) (index : ℕ) (h : IsSourced P p)
      (own : P event.event_id) where
    pushed-IsSourced : (part : Part) → Cites P part → IsSourced P (push_part p event index part)
    unfolding project_assistant_part
    pushed-IsSourced part c = push-IsSourced P p _ h (c, tt)

    or_unknown-IsSourced :
        (event_type : String) (o : Option AssistantPartItem)
        → CitesMaybe o
        → IsSourced P (or_unknown p event index event_type o)
    or_unknown-IsSourced event_type none c = pushed-IsSourced _ (own, tt)
    or_unknown-IsSourced event_type (some item) c = push-IsSourced P p _ h (c, tt)

    or_method-IsSourced :
        (event_type : String) (o : Option Title)
        → IsSourced P (or_method p event index event_type o)
    unfolding project_mcp_method
    or_method-IsSourced event_type (some title) = pushed-IsSourced _ (own, tt)
    or_method-IsSourced event_type none =
        or_unknown-IsSourced event_type _ (method_for-Cites event index event.event_type own)

    default_for-IsSourced : (o : Option String) → IsSourced P (default_for p event index o)
    default_for-IsSourced none = h
    default_for-IsSourced (some event_type) =
        if_both (IsSourced P) (truthy event_type)
          (if_both (IsSourced P) (is_approval_event event_type) (pushed-IsSourced _ (own, tt))
            (or_method-IsSourced event_type (lifecycle_title event_type)))
          h

  case-IsSourced :
      (p : Projection) (event : EventRecord) (index : ℕ) (c : Case)
      → IsSourced P p
      → P event.event_id
      → IsSourced P (project_case p event index c)
  unfolding project_case project_default project_assistant_part
  case-IsSourced p event index Case.user_message h own =
      push-IsSourced P p _ h (user-Cites event index own)
  case-IsSourced p event index Case.agent_message h own =
      push-IsSourced P _ _
        (rebuild P p p.items p.exec_buckets _ p.reasoning_streams h h.items h.exec
          (terminate_stream-Cites p.message_streams event h.messages) h.reasonings)
        ((own, tt), tt)
  case-IsSourced p event index Case.agent_reasoning h own =
      push-IsSourced P _ _
        (rebuild P p p.items p.exec_buckets p.message_streams _ h h.items h.exec h.messages
          (terminate_stream-Cites p.reasoning_streams event h.reasonings))
        ((own, tt), tt)
  case-IsSourced p event index Case.agent_reasoning_raw_content h own =
      push-IsSourced P _ _
        (rebuild P p p.items p.exec_buckets p.message_streams _ h h.items h.exec h.messages
          (terminate_stream-Cites p.reasoning_streams event h.reasonings))
        ((own, tt), tt)
  case-IsSourced p event index Case.message_delta h own =
      rebuild P p p.items p.exec_buckets _ p.reasoning_streams h h.items h.exec
        (append_stream_chunk-Cites p.message_streams event index Variant.text h.messages own)
        h.reasonings
  case-IsSourced p event index Case.reasoning_delta h own =
      rebuild P p p.items p.exec_buckets p.message_streams _ h h.items h.exec h.messages (
        append_stream_chunk-Cites p.reasoning_streams event index Variant.reasoning h.reasonings
          own)
  case-IsSourced p event index Case.raw_content_delta h own =
      rebuild P p p.items p.exec_buckets p.message_streams _ h h.items h.exec h.messages (
        append_stream_chunk-Cites p.reasoning_streams event index Variant.raw_content h.reasonings
          own)
  case-IsSourced p event index Case.exec_begin h own =
      change_exec-IsSourced P p event _ h (λ b c. (own, c.1, c.2, c.3))
  case-IsSourced p event index Case.exec_output h own =
      change_exec-IsSourced P p event _ h
        (λ b c. (c.0, All-append _ b.outputs (event ∷ []) c.1 (own, tt), c.2, c.3))
  case-IsSourced p event index Case.exec_interaction h own =
      change_exec-IsSourced P p event _ h
        (λ b c. (c.0, c.1, All-append _ b.interactions (event ∷ []) c.2 (own, tt), c.3))
  case-IsSourced p event index Case.exec_end h own =
      change_exec-IsSourced P p event _ h (λ b c. (c.0, c.1, c.2, own))
  case-IsSourced p event index (Case.pair_begin kind) h own =
      change_pair-IsSourced P p kind event _ h (λ b c. (own, c.1))
  case-IsSourced p event index (Case.pair_end kind) h own =
      change_pair-IsSourced P p kind event _ h (λ b c. (c.0, own))
  case-IsSourced p event index Case.default h own =
      default_for-IsSourced p event index h own event.event_type
  case-IsSourced p event index c h own = push-IsSourced P p _ h ((own, tt), tt)

  -- The ids of the events that the loop skips are not asked for.
  abbrev pub KeptIds : List EventRecord → Type 0
  KeptIds = All (λ e. is_skipped e ≡ false → P e.event_id)

  project_events-IsSourced :
      (p : Projection) (events : List EventRecord) (index : ℕ)
      → IsSourced P p
      → KeptIds events
      → IsSourced P (project_events p events index)
  unfolding project_events project_event
  project_events-IsSourced p [] index h k = h
  project_events-IsSourced p (event ∷ events) index h k =
      project_events-IsSourced (project_event p event index) events (suc index)
        (if_either (IsSourced P) (is_skipped event) (λ skipped. h)
          (λ kept. case-IsSourced p event index (case_of event.event_type) h (k.0 kept)))
        k.1

  empty_pairs :
      (k : PairKind) → All (λ entry. CitesPair P entry.1) (pair_buckets empty_projection k)
  unfolding pair_buckets
  empty_pairs PairKind.mcp_tool = tt
  empty_pairs k = tt

  -- After the loop all that is stored comes from the kept events.
  pub loop-IsSourced :
      (events : List EventRecord)
      → KeptIds events
      → IsSourced P (project_events empty_projection events 0)
  loop-IsSourced events k =
      project_events-IsSourced empty_projection events 0
        (record { items = tt; exec = tt; pairs = empty_pairs; messages = tt; reasonings = tt }) k
