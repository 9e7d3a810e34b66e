-- ===== src/Projection/Thread.antt =====
-- `projectReadonlyAssistantThread`, `projectHeader` and `latestThreadTitle` of
-- web/src/lib/assistant-projection.ts.
pub mod Cited
pub mod Due
pub mod Order
pub mod Running
use mathlib.Core.List.{reverse}
use codex_mcp_ui.Common.{
  ℕ, String, Ordering, Option, none, some, List, [], ◌∷◌, ◌++◌, ◌==◌, Bool, true, false, map,
  compare, if◌then◌else◌, value_or, ◌or_else◌, truthy, present, select,
}
use codex_mcp_ui.Common.Sort.{then_by, sort}
use codex_mcp_ui.Common.Table.{Table, values}
use codex_mcp_ui.Common.Text.{append, trim, decimal}
use codex_mcp_ui.Collation.{Collation}
use codex_mcp_ui.Json.{str}
use codex_mcp_ui.Event.{EventRecord, Session, ClientSource, SessionDetail}
use codex_mcp_ui.Projection.Parts.{
  Message, AssistantPartItem, UserMessageItem, ProjectionItem, ExecBucket, PairBucket, StreamBucket,
}
use codex_mcp_ui.Projection.Access.{msg_of, Decoders}
use codex_mcp_ui.Projection.Buckets.{project_stream_bucket}
use codex_mcp_ui.Projection.Tools.{project_exec_bucket, project_mcp_tool_bucket}
use codex_mcp_ui.Projection.Pairs.{
  project_web_search_bucket, project_image_generation_bucket, project_patch_bucket,
  project_dynamic_tool_bucket, project_collab_bucket,
}
use codex_mcp_ui.Projection.Dispatch.{Projection, empty_projection, project_events}
use codex_mcp_ui.Projection.Fold.{fold_items_into_messages}

pub record Header : Type 0 where
  pub title : String
  pub subtitle : String
  pub badges : List String
  pub thread_id : String
  pub client_name : String
  pub client_pid : ℕ
  pub model : Option String
  pub status : Option String
  pub approval_policy : Option String
  pub sandbox : Option String
  pub cwd : Option String
  pub first_seen : String
  pub last_seen : String

pub record Thread : Type 0 where
  pub header : Header
  pub messages : List Message

-- The title that an event gives, trimmed; none if it is another event, or the title is blank.
abbrev nonblank : Option String → Option String
nonblank none = none
nonblank (some title) = if truthy (trim title) then some (trim title) else none

abbrev pub named_by : EventRecord → Option String
named_by event =
    if value_or event.event_type "" == "thread_name_updated"
    then nonblank (str (msg_of event) "thread_name" or_else str (msg_of event) "title")
    else none

unfoldable pub first_title : List EventRecord → Option String
first_title [] = none
first_title (event ∷ events) = named_by event or_else first_title events

-- The loop runs from the last event to the first.
unfoldable pub latest_thread_title : List EventRecord → Option String
latest_thread_title events = first_title (reverse events)

abbrev nonempty : Option String → Option String
nonempty none = none
nonempty (some s) = if truthy s then some s else none

abbrev trimmed : Option String → Option String
trimmed none = none
trimmed (some s) = some (trim s)

unfoldable pub project_header : SessionDetail → List EventRecord → Header
project_header detail events =
    let session = detail.session in
    let client_source = detail.client_source in
    record {
      title =
          value_or (nonempty (latest_thread_title events or_else trimmed session.title))
            (append "thread " session.thread_id);
      subtitle =
          append client_source.client_name (
            append " | pid " (append (decimal client_source.pid) (append " | " session.thread_id)));
      badges = present (nonempty session.model ∷ nonempty session.status ∷ []);
      thread_id = session.thread_id;
      client_name = client_source.client_name;
      client_pid = client_source.pid;
      model = session.model;
      status = session.status;
      approval_policy = session.approval_policy;
      sandbox = session.sandbox;
      cwd = session.cwd;
      first_seen = session.first_seen;
      last_seen = session.last_seen;
    }

-- `for (const [id, bucket] of store)` with a part pushed for each bucket that has one.
unfoldable pub bucket_items {ℓ} :
    {T : Type ℓ} → (String → T → Option AssistantPartItem) → Table T → List ProjectionItem
bucket_items project [] = []
bucket_items project ((id, bucket) ∷ store) = elim (project id bucket) [
  | none ↦ bucket_items project store
  | some item ↦ ProjectionItem.assistant item ∷ bucket_items project store
]

abbrev pub collab : String → String → PairBucket → Option AssistantPartItem
collab title id bucket = project_collab_bucket bucket title

unfoldable pub all_bucket_items : Decoders → Projection → List ProjectionItem
all_bucket_items d p =
    bucket_items (project_exec_bucket d) p.exec_buckets
    ++ (bucket_items project_mcp_tool_bucket p.mcp_tool_buckets
        ++ (bucket_items (λ id. project_web_search_bucket) p.web_search_buckets
            ++ (bucket_items (λ id. project_image_generation_bucket) p.image_generation_buckets
                ++ (bucket_items (λ id. project_patch_bucket) p.patch_buckets
                    ++ (bucket_items (λ id. project_dynamic_tool_bucket) p.dynamic_tool_buckets
                        ++ (bucket_items (collab "Spawn agent") p.collab_spawn_buckets
                            ++ (bucket_items (collab "Send input to agent")
                                  p.collab_interaction_buckets
                                ++ (bucket_items (collab "Wait for agents") p.collab_wait_buckets
                                    ++ (bucket_items (collab "Close agent") p.collab_close_buckets
                                        ++ (bucket_items (collab "Resume agent")
                                              p.collab_resume_buckets
                                            ++ (bucket_items (λ id. project_stream_bucket)
                                                  p.message_streams
                                                ++ bucket_items (λ id. project_stream_bucket)
                                                    p.reasoning_streams)))))))))))

abbrev pub item_timestamp : ProjectionItem → String
item_timestamp (ProjectionItem.assistant item) = item.timestamp
item_timestamp (ProjectionItem.user item) = item.timestamp

abbrev pub item_order : ProjectionItem → ℕ
item_order (ProjectionItem.assistant item) = item.order
item_order (ProjectionItem.user item) = item.order

unfoldable pub compare_items : Collation → ProjectionItem → ProjectionItem → Ordering
compare_items locale_compare left right =
    then_by (locale_compare (item_timestamp left) (item_timestamp right))
      (compare (item_order left) (item_order right))

-- The items of all events, and then those of the buckets.
unfoldable pub collect_items : Decoders → List EventRecord → List ProjectionItem
collect_items d events =
    let p = project_events empty_projection events 0 in p.items ++ all_bucket_items d p

unfoldable pub sorted_items : Collation → Decoders → List EventRecord → List ProjectionItem
sorted_items c d events = sort (compare_items c) (collect_items d events)

unfoldable pub project_readonly_assistant_thread :
    Collation → Decoders → SessionDetail → List EventRecord → Thread
project_readonly_assistant_thread c d detail events = record {
  header = project_header detail events;
  messages = fold_items_into_messages (sorted_items c d events);
}
