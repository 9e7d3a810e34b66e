-- ===== src/Projection/Thread/Due.antt =====
-- The items that the events of a session call for in `projectReadonlyAssistantThread`
-- (web/src/lib/assistant-projection.ts), told from the events alone.
use mathlib.Core.List.{flatten, append-nil, append_assoc}
use mathlib.Core.Path.{subst, fun_ext}
use codex_mcp_ui.Common.{
  String, ◌≡◌, refl, sym, ap, ◌∙◌, Option, none, some, List, [], ◌∷◌, ◌++◌, map, select, last?,
  Distinct,
}
use codex_mcp_ui.Common.Table.{Table, get, keys}
use codex_mcp_ui.Common.Keys.{firsts, firsts-Distinct, entries, entries-keys}
use codex_mcp_ui.Event.{EventRecord}
use codex_mcp_ui.Projection.Access.{bucket_id, stream_bucket_id, Decoders}
use codex_mcp_ui.Projection.Buckets.{project_stream_bucket}
use codex_mcp_ui.Projection.Parts.{AssistantPartItem, ProjectionItem}
use codex_mcp_ui.Projection.Pairs.Running.{project_pair}
use codex_mcp_ui.Projection.Switch.{PairKind}
use codex_mcp_ui.Projection.Tools.{project_exec_bucket}
use codex_mcp_ui.Projection.Dispatch.{Projection, empty_projection, pair_buckets, project_events}
use codex_mcp_ui.Projection.Dispatch.CommandParts.{CommandPart, is_command, command_met}
use codex_mcp_ui.Projection.Dispatch.CommandKeys.{is_of_command, commands-keys}
use codex_mcp_ui.Projection.Dispatch.Commands.{commands_met}
use codex_mcp_ui.Projection.Dispatch.Keyed.{is_of_kind, pairs-keys}
use codex_mcp_ui.Projection.Dispatch.Meeting.{is_begin, is_end, met, pairs_met}
use codex_mcp_ui.Projection.Dispatch.Pushed.{all_own_items, project_events-items}
use codex_mcp_ui.Projection.Dispatch.StreamKeys.{is_of_stream, streams-keys}
use codex_mcp_ui.Projection.Dispatch.StreamParts.{StreamKind, messages, reasonings, stream_of}
use codex_mcp_ui.Projection.Dispatch.Streaming.{streams, streams_met}
use codex_mcp_ui.Projection.Thread.{bucket_items, all_bucket_items, collect_items}
use codex_mcp_ui.Projection.Thread.Running.{ToolMap, commands, pairs, project_if}

abbrev items_of : Option AssistantPartItem → List ProjectionItem
items_of none = []
items_of (some item) = ProjectionItem.assistant item ∷ []

-- The ids of the calls of a map, each where it came first.
abbrev pub call_ids : ToolMap → List EventRecord → List String
call_ids commands events = firsts (map bucket_id (select is_of_command events))
call_ids (pairs kind) events = firsts (map bucket_id (select (is_of_kind kind) events))

-- The part of the call with an id: what is made of its last begin and end event and, for a command,
-- of its outputs and interactions.
abbrev pub call_of : Decoders → List EventRecord → ToolMap → String → Option AssistantPartItem
call_of d events commands id = project_if (project_exec_bucket d id) (
    command_met (last? (select (is_command CommandPart.begin id) events))
      (select (is_command CommandPart.output id) events)
      (select (is_command CommandPart.interaction id) events)
      (last? (select (is_command CommandPart.end id) events)))
call_of d events (pairs kind) id =
    project_if (project_pair kind id)
      (met (last? (select (is_begin kind id) events)) (last? (select (is_end kind id) events)))

abbrev pub calls_due : Decoders → List EventRecord → ToolMap → List ProjectionItem
calls_due d events map_of =
    flatten (map (λ id. items_of (call_of d events map_of id)) (call_ids map_of events))

abbrev pub streams_due : List EventRecord → StreamKind → List ProjectionItem
streams_due events kind = flatten (
    map (λ id. items_of (project_if project_stream_bucket (stream_of kind id events 0)))
      (firsts (map stream_bucket_id (select (is_of_stream kind) events))))

abbrev pub all_maps : List ToolMap
all_maps =
    commands
    ∷ pairs PairKind.mcp_tool
    ∷ pairs PairKind.web_search
    ∷ pairs PairKind.image_generation
    ∷ pairs PairKind.patch
    ∷ pairs PairKind.dynamic_tool
    ∷ pairs PairKind.collab_spawn
    ∷ pairs PairKind.collab_interaction
    ∷ pairs PairKind.collab_wait
    ∷ pairs PairKind.collab_close
    ∷ pairs PairKind.collab_resume
    ∷ []

-- What each event pushes by itself, the part of every call, and the part of every stream that has
-- one.
abbrev pub due_items : Decoders → List EventRecord → List ProjectionItem
due_items d events =
    all_own_items events 0
    ++ (flatten (map (calls_due d events) all_maps)
        ++ flatten (map (streams_due events) (messages ∷ reasonings ∷ [])))

bucket_items-entries :
    {T : Type 0} (project : String → T → Option AssistantPartItem) (m : Table T)
    → bucket_items project m ≡ entries (λ id o. items_of (project_if (project id) o)) m
unfolding bucket_items
bucket_items-entries project [] = refl
bucket_items-entries project ((id, b) ∷ m) =
    one (project id b) ∙ ap (λ l. items_of (project id b) ++ l) (bucket_items-entries project m)
  where
    one :
        (o : Option AssistantPartItem)
        → elim o as (λ x. List ProjectionItem) [
          | none ↦ bucket_items project m
          | some item ↦ ProjectionItem.assistant item ∷ bucket_items project m
        ]
          ≡ items_of o ++ bucket_items project m
    one none = refl
    one (some item) = refl

-- A map of which the keys and the values are known.
bucket_items-known :
    {T : Type 0} (project : String → T → Option AssistantPartItem) (m : Table T) (ids : List String)
    (at : String → Option T)
    → keys m ≡ firsts ids
    → ((id : String) → get m id ≡ at id)
    → bucket_items project m
      ≡ flatten (map (λ id. items_of (project_if (project id) (at id))) (firsts ids))
bucket_items-known {T} project m ids at same found =
    let part = λ (id : String) (o : Option T). items_of (project_if (project id) o) in
    bucket_items-entries project m
    ∙ entries-keys part m (subst Distinct (sym same) (firsts-Distinct ids))
    ∙ ap (λ ks. flatten (map (λ id. part id (get m id)) ks)) same
    ∙ ap (λ g. flatten (map g (firsts ids))) (fun_ext λ id. ap (part id) (found id))

module _ (d : Decoders) (events : List EventRecord) where
  abbrev after : Projection
  after = project_events empty_projection events 0

  commands-due :
      bucket_items (project_exec_bucket d) after.exec_buckets ≡ calls_due d events commands
  commands-due =
      bucket_items-known (project_exec_bucket d) after.exec_buckets
        (map bucket_id (select is_of_command events)) _ (commands-keys events 0)
        (commands_met events 0)

  pairs-due :
      (kind : PairKind)
      → bucket_items (project_pair kind) (pair_buckets after kind) ≡ calls_due d events (pairs kind)
  pairs-due kind =
      bucket_items-known (project_pair kind) (pair_buckets after kind)
        (map bucket_id (select (is_of_kind kind) events)) _ (pairs-keys kind events 0)
        (pairs_met events 0 kind)

  streams-due :
      (kind : StreamKind)
      → bucket_items (λ id. project_stream_bucket) (streams kind after) ≡ streams_due events kind
  streams-due kind =
      bucket_items-known (λ id. project_stream_bucket) (streams kind after)
        (map stream_bucket_id (select (is_of_stream kind) events)) _ (streams-keys kind events 0)
        (streams_met events 0 kind)

  both : {xs us ys vs : List ProjectionItem} → xs ≡ us → ys ≡ vs → xs ++ ys ≡ us ++ vs
  both {us = us} {ys} h k = ap (λ l. l ++ ys) h ∙ ap (λ l. us ++ l) k

  chain : List (List ProjectionItem) → List ProjectionItem → List ProjectionItem
  chain [] ys = ys
  chain (xs ∷ xss) ys = xs ++ chain xss ys

  chain-flatten :
      (xss : List (List ProjectionItem)) (ys : List ProjectionItem)
      → chain xss ys ≡ flatten xss ++ ys
  unfolding flatten chain
  chain-flatten [] ys = refl
  chain-flatten (xs ∷ xss) ys =
      ap (λ l. xs ++ l) (chain-flatten xss ys) ∙ sym (append_assoc xs (flatten xss) ys)

  buckets-due :
      all_bucket_items d after
      ≡ flatten (map (calls_due d events) all_maps)
        ++ flatten (map (streams_due events) (messages ∷ reasonings ∷ []))
  unfolding all_bucket_items pair_buckets flatten chain
  buckets-due =
      both commands-due (
        both (pairs-due PairKind.mcp_tool) (
          both (pairs-due PairKind.web_search) (
            both (pairs-due PairKind.image_generation) (
              both (pairs-due PairKind.patch) (
                both (pairs-due PairKind.dynamic_tool) (
                  both (pairs-due PairKind.collab_spawn) (
                    both (pairs-due PairKind.collab_interaction) (
                      both (pairs-due PairKind.collab_wait) (
                        both (pairs-due PairKind.collab_close) (
                          both (pairs-due PairKind.collab_resume) (
                            both (streams-due messages)
                              (streams-due reasonings ∙ sym (append-nil _)))))))))))))
      ∙ chain-flatten (map (calls_due d events) all_maps) _

  -- The collected items are those that the events call for.
  pub collect_items-due : collect_items d events ≡ due_items d events
  unfolding collect_items
  collect_items-due = both (project_events-items empty_projection events 0) buckets-due
