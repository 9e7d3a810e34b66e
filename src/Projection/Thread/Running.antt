-- ===== src/Projection/Thread/Running.antt =====
-- The tool calls of a whole session in web/src/lib/assistant-projection.ts: which of them are shown
-- as running.
use codex_mcp_ui.Common.{
  ℕ, String, ◌≡◌, ◌≢◌, ◌↔◌, refl, sym, ap, ◌∙◌, Bool, Option, none, some, List, [], ◌∷◌, select,
  last?,
}
use codex_mcp_ui.Common.Table.{get}
use codex_mcp_ui.Event.{EventRecord}
use codex_mcp_ui.Projection.Access.{Decoders}
use codex_mcp_ui.Projection.Parts.{running, AssistantPartItem}
use codex_mcp_ui.Projection.Pairs.Running.{
  project_pair, status_of, RunsUntil, pair, exec, project_tool-RunsUntil,
}
use codex_mcp_ui.Projection.Switch.{PairKind}
use codex_mcp_ui.Projection.Tools.{project_exec_bucket}
use codex_mcp_ui.Projection.Dispatch.{Projection, empty_projection, pair_buckets, project_events}
use codex_mcp_ui.Projection.Dispatch.Meeting.{is_end, is_begin, met, pairs_met}
use codex_mcp_ui.Projection.Dispatch.CommandParts.{CommandPart, is_command, command_met}
use codex_mcp_ui.Projection.Dispatch.Commands.{commands_met}

-- The maps of tool calls.
pub data ToolMap : Type 0 where
  commands : ToolMap
  pairs : PairKind → ToolMap

-- The end events of a call.
abbrev pub ends_call : ToolMap → String → EventRecord → Bool
ends_call commands id = is_command CommandPart.end id
ends_call (pairs kind) id = is_end kind id

abbrev pub project_if :
    {T : Type 0} → (T → Option AssistantPartItem) → Option T → Option AssistantPartItem
project_if project none = none
project_if project (some bucket) = project bucket

-- The part of a call, if there is a bucket and a part of it.
abbrev pub call_part : Decoders → ToolMap → String → Projection → Option AssistantPartItem
call_part d commands id p = project_if (project_exec_bucket d id) (get p.exec_buckets id)
call_part d (pairs kind) id p = project_if (project_pair kind id) (get (pair_buckets p kind) id)

last?-none_iff : (es : List EventRecord) → (last? es ≡ none) ↔ (es ≡ [])
last?-none_iff [] = (λ e. refl, λ e. refl)
last?-none_iff (e ∷ es) = (λ h. absurd (last?-some e es h), λ h. cc)
  where
    last?-some : (e : EventRecord) (es : List EventRecord) → last? (e ∷ es) ≢ none
    last?-some e [] h = cc
    last?-some e (f ∷ es) h = last?-some f es h

runs_iff :
    (end : Option EventRecord) (item : AssistantPartItem) (es : List EventRecord)
    → end ≡ last? es
    → RunsUntil end (some item)
    → (status_of (some item) ≡ some running) ↔ (es ≡ [])
runs_iff end item es same (to, from) =
    (λ r. (last?-none_iff es).0 (sym same ∙ to r), λ h. from (same ∙ (last?-none_iff es).1 h))

met-RunsUntil :
    (d : Decoders) (kind : PairKind) (id : String) (b e : Option EventRecord)
    (item : AssistantPartItem)
    → project_if (project_pair kind id) (met b e) ≡ some item
    → RunsUntil e (some item)
met-RunsUntil d kind id none none item h = cc
met-RunsUntil d kind id none (some x) item h =
    project_tool-RunsUntil d id (pair kind (record { begin = none; end = some x })) item h
met-RunsUntil d kind id (some x) e item h =
    project_tool-RunsUntil d id (pair kind (record { begin = some x; end = e })) item h

command_met-RunsUntil :
    (d : Decoders) (id : String) (b : Option EventRecord) (os ts : List EventRecord)
    (e : Option EventRecord) (item : AssistantPartItem)
    → project_if (project_exec_bucket d id) (command_met b os ts e) ≡ some item
    → RunsUntil e (some item)
command_met-RunsUntil d id none [] [] none item h = cc
command_met-RunsUntil d id none [] [] (some x) item h = project_tool-RunsUntil d id (exec _) item h
command_met-RunsUntil d id none [] (t ∷ ts) e item h = project_tool-RunsUntil d id (exec _) item h
command_met-RunsUntil d id none (o ∷ os) ts e item h = project_tool-RunsUntil d id (exec _) item h
command_met-RunsUntil d id (some x) os ts e item h = project_tool-RunsUntil d id (exec _) item h

-- The part of a tool call, be it a command or one of the ten kinds that a pair of events describes, is
-- shown as running if and only if no end event of the call is among the events, in whatever order
-- they came.
pub call_part-RunsUntil :
    (d : Decoders) (events : List EventRecord) (index : ℕ) (map_of : ToolMap) (id : String)
    (item : AssistantPartItem)
    → call_part d map_of id (project_events empty_projection events index) ≡ some item
    → (status_of (some item) ≡ some running) ↔ (select (ends_call map_of id) events ≡ [])
call_part-RunsUntil d events index (pairs kind) id item h =
    runs_iff _ item (select (is_end kind id) events) refl (
      met-RunsUntil d kind id (last? (select (is_begin kind id) events)) _ item
        (ap (project_if (project_pair kind id)) (sym (pairs_met events index kind id)) ∙ h))
call_part-RunsUntil d events index commands id item h =
    runs_iff _ item (select (is_command CommandPart.end id) events) refl (
      command_met-RunsUntil d id (last? (select (is_command CommandPart.begin id) events))
        (select (is_command CommandPart.output id) events)
        (select (is_command CommandPart.interaction id) events) _ item
        (ap (project_if (project_exec_bucket d id)) (sym (commands_met events index id)) ∙ h))
