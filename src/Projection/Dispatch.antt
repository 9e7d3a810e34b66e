-- ===== src/Projection/Dispatch.antt =====
-- The event loop of `projectReadonlyAssistantThread` in web/src/lib/assistant-projection.ts.
pub mod Pairing
pub mod Default
pub mod Kinds
pub mod Meeting
pub mod CommandParts
pub mod Commands
pub mod StreamParts
pub mod Streaming
pub mod Pushed
pub mod Keyed
pub mod CommandKeys
pub mod StreamKeys
pub mod Cites
pub mod Sources
use codex_mcp_ui.Common.{
  ℕ, suc, String, Bool, true, false, ◌||◌, Option, none, some, List, [], ◌∷◌, ◌++◌, ◌==◌,
  if◌then◌else◌, value_or, truthy,
}
use codex_mcp_ui.Common.Table.{Table, get}
use codex_mcp_ui.Json.{str}
use codex_mcp_ui.Event.{EventRecord}
use codex_mcp_ui.Projection.Parts.{
  Title, Unknown, Variant, Part, AssistantPartItem, ProjectionItem, ExecBucket, PairBucket,
  StreamBucket,
}
use codex_mcp_ui.Projection.Access.{msg_of, bucket_id}
use codex_mcp_ui.Projection.Buckets.{
  change_bucket, empty_exec, empty_pair, append_stream_chunk, terminate_stream,
}
use codex_mcp_ui.Projection.Switch.{PairKind, Case, case_of}
use codex_mcp_ui.Projection.Titles.{is_approval_event, lifecycle_title}
use codex_mcp_ui.Projection.Items.{
  project_assistant_part, project_user_message, project_mcp_method, plan_update_part,
  plan_delta_part, view_image_part, lifecycle_part, approval_part,
}

-- The local variables of `projectReadonlyAssistantThread`.
pub record Projection : Type 0 where
  pub items : List ProjectionItem
  pub exec_buckets : Table ExecBucket
  pub mcp_tool_buckets : Table PairBucket
  pub web_search_buckets : Table PairBucket
  pub image_generation_buckets : Table PairBucket
  pub patch_buckets : Table PairBucket
  pub dynamic_tool_buckets : Table PairBucket
  pub collab_spawn_buckets : Table PairBucket
  pub collab_interaction_buckets : Table PairBucket
  pub collab_wait_buckets : Table PairBucket
  pub collab_close_buckets : Table PairBucket
  pub collab_resume_buckets : Table PairBucket
  pub message_streams : Table StreamBucket
  pub reasoning_streams : Table StreamBucket

abbrev pub empty_projection : Projection
empty_projection = record {
  items = [];
  exec_buckets = [];
  mcp_tool_buckets = [];
  web_search_buckets = [];
  image_generation_buckets = [];
  patch_buckets = [];
  dynamic_tool_buckets = [];
  collab_spawn_buckets = [];
  collab_interaction_buckets = [];
  collab_wait_buckets = [];
  collab_close_buckets = [];
  collab_resume_buckets = [];
  message_streams = [];
  reasoning_streams = [];
}

unfoldable pub pair_buckets : Projection → PairKind → Table PairBucket
pair_buckets p PairKind.mcp_tool = p.mcp_tool_buckets
pair_buckets p PairKind.web_search = p.web_search_buckets
pair_buckets p PairKind.image_generation = p.image_generation_buckets
pair_buckets p PairKind.patch = p.patch_buckets
pair_buckets p PairKind.dynamic_tool = p.dynamic_tool_buckets
pair_buckets p PairKind.collab_spawn = p.collab_spawn_buckets
pair_buckets p PairKind.collab_interaction = p.collab_interaction_buckets
pair_buckets p PairKind.collab_wait = p.collab_wait_buckets
pair_buckets p PairKind.collab_close = p.collab_close_buckets
pair_buckets p PairKind.collab_resume = p.collab_resume_buckets

unfoldable pub set_pair_buckets : Projection → PairKind → Table PairBucket → Projection
set_pair_buckets p PairKind.mcp_tool m = record p { mcp_tool_buckets = m }
set_pair_buckets p PairKind.web_search m = record p { web_search_buckets = m }
set_pair_buckets p PairKind.image_generation m = record p { image_generation_buckets = m }
set_pair_buckets p PairKind.patch m = record p { patch_buckets = m }
set_pair_buckets p PairKind.dynamic_tool m = record p { dynamic_tool_buckets = m }
set_pair_buckets p PairKind.collab_spawn m = record p { collab_spawn_buckets = m }
set_pair_buckets p PairKind.collab_interaction m = record p { collab_interaction_buckets = m }
set_pair_buckets p PairKind.collab_wait m = record p { collab_wait_buckets = m }
set_pair_buckets p PairKind.collab_close m = record p { collab_close_buckets = m }
set_pair_buckets p PairKind.collab_resume m = record p { collab_resume_buckets = m }

abbrev pub push : Projection → ProjectionItem → Projection
push p item = record p { items = p.items ++ item ∷ [] }

-- `items.push(projectAssistantPart(event, index, part))`.
abbrev pub push_part : Projection → EventRecord → ℕ → Part → Projection
push_part p event index part =
    push p (ProjectionItem.assistant (project_assistant_part event index part false))

abbrev pub change_exec : Projection → EventRecord → (ExecBucket → ExecBucket) → Projection
change_exec p event change = record p {
  exec_buckets = change_bucket p.exec_buckets (bucket_id event) empty_exec change;
}

abbrev pub change_pair :
    Projection → PairKind → EventRecord → (PairBucket → PairBucket) → Projection
change_pair p kind event change =
    set_pair_buckets p kind
      (change_bucket (pair_buckets p kind) (bucket_id event) empty_pair change)

-- What follows the `switch`: an approval, a known title, a method, or an unknown event.
abbrev pub or_unknown :
    Projection → EventRecord → ℕ → String → Option AssistantPartItem → Projection
or_unknown p event index event_type (some item) = push p (ProjectionItem.assistant item)
or_unknown p event index event_type none =
    push_part p event index
      (Part.unknown event_type event_type (Unknown.json event.payload) (event.event_id ∷ []))

abbrev pub or_method : Projection → EventRecord → ℕ → String → Option Title → Projection
or_method p event index event_type (some title) =
    push_part p event index (lifecycle_part event event_type title)
or_method p event index event_type none =
    or_unknown p event index event_type (project_mcp_method event index)

-- Without an event type no part is made: a method needs one too.
abbrev pub default_for : Projection → EventRecord → ℕ → Option String → Projection
default_for p event index none = p
default_for p event index (some event_type) =
    if truthy event_type
    then if is_approval_event event_type
      then push_part p event index (approval_part event event_type)
      else or_method p event index event_type (lifecycle_title event_type)
    else p

unfoldable pub project_default : Projection → EventRecord → ℕ → Projection
project_default p event index = default_for p event index event.event_type

unfoldable pub project_case : Projection → EventRecord → ℕ → Case → Projection
project_case p event index Case.user_message =
    push p (ProjectionItem.user (project_user_message event index))
project_case p event index Case.agent_message =
    let message = msg_of event in
    push (record p { message_streams = terminate_stream p.message_streams event })
      (ProjectionItem.assistant (
        project_assistant_part event index
          (Part.text (value_or (str message "message") "") (str message "phase")
            (get message "memory_citation") (event.event_id ∷ []))
          true))
project_case p event index Case.agent_reasoning =
    push_part (record p { reasoning_streams = terminate_stream p.reasoning_streams event }) event
      index
      (Part.reasoning (value_or (str (msg_of event) "text") "") Variant.reasoning
        (event.event_id ∷ []))
project_case p event index Case.agent_reasoning_raw_content =
    push_part (record p { reasoning_streams = terminate_stream p.reasoning_streams event }) event
      index
      (Part.reasoning (value_or (str (msg_of event) "text") "") Variant.raw_content
        (event.event_id ∷ []))
project_case p event index Case.message_delta = record p {
  message_streams = append_stream_chunk p.message_streams event index Variant.text;
}
project_case p event index Case.reasoning_delta = record p {
  reasoning_streams = append_stream_chunk p.reasoning_streams event index Variant.reasoning;
}
project_case p event index Case.raw_content_delta = record p {
  reasoning_streams = append_stream_chunk p.reasoning_streams event index Variant.raw_content;
}
project_case p event index Case.section_break =
    push_part p event index
      (lifecycle_part event "agent_reasoning_section_break" (Title.text "Reasoning section break"))
project_case p event index Case.exec_begin =
    change_exec p event (λ b. record b { begin = some event })
project_case p event index Case.exec_output =
    change_exec p event (λ b. record b { outputs = b.outputs ++ event ∷ [] })
project_case p event index Case.exec_interaction =
    change_exec p event (λ b. record b { interactions = b.interactions ++ event ∷ [] })
project_case p event index Case.exec_end = change_exec p event (λ b. record b { end = some event })
project_case p event index (Case.pair_begin kind) =
    change_pair p kind event (λ b. record b { begin = some event })
project_case p event index (Case.pair_end kind) =
    change_pair p kind event (λ b. record b { end = some event })
project_case p event index Case.view_image = push_part p event index (view_image_part event)
project_case p event index Case.plan_update = push_part p event index (plan_update_part event)
project_case p event index Case.plan_delta = push_part p event index (plan_delta_part event)
project_case p event index Case.default = project_default p event index

-- The first test of the loop.
abbrev pub is_skipped : EventRecord → Bool
is_skipped event = event.category == "raw_frame" || event.category == "response"

-- The body of `events.forEach`.
unfoldable pub project_event : Projection → EventRecord → ℕ → Projection
project_event p event index =
    if is_skipped event then p else project_case p event index (case_of event.event_type)

unfoldable pub project_events : Projection → List EventRecord → ℕ → Projection
project_events p [] index = p
project_events p (event ∷ events) index =
    project_events (project_event p event index) events (suc index)
