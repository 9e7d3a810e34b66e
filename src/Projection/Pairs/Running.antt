-- ===== src/Projection/Pairs/Running.antt =====
-- When a projected tool call is shown as running.
use codex_mcp_ui.Common.{
  String, ◌≡◌, ◌≢◌, ◌↔◌, refl, Bool, Option, none, some, if◌then◌else◌, if_both, truthy, ◌==◌, ◌||◌,
  any, is_empty,
}
use mathlib.Core.Path.{subst}
use codex_mcp_ui.Common.Table.{get, has, values}
use codex_mcp_ui.Common.Text.{to_lower, includes}
use codex_mcp_ui.Json.{Record, Number, str, num, as_record, is_zero}
use codex_mcp_ui.Event.{EventRecord}
use codex_mcp_ui.Projection.Parts.{
  Part, ToolPart, ToolStatus, running, complete, failed, AssistantPartItem, PairBucket, ExecBucket,
}
use codex_mcp_ui.Projection.Access.{Decoders}
use codex_mcp_ui.Projection.Status.{
  exit_status, map_exec_completion_status, map_image_completion_status, collab_status,
  is_agent_status_failure, has_receiver,
}
use codex_mcp_ui.Projection.Switch.{PairKind}
use codex_mcp_ui.Projection.Tools.{
  ended, anchored, exec_status, project_exec_bucket, project_mcp_tool_bucket,
}
use codex_mcp_ui.Projection.Pairs.{
  project_web_search_bucket, project_image_generation_bucket, project_patch_bucket,
  project_dynamic_tool_bucket, project_collab_bucket,
}

-- The part of a pair, by the map that holds the pair.
abbrev pub project_pair : PairKind → String → PairBucket → Option AssistantPartItem
project_pair PairKind.mcp_tool id b = project_mcp_tool_bucket id b
project_pair PairKind.web_search id b = project_web_search_bucket b
project_pair PairKind.image_generation id b = project_image_generation_bucket b
project_pair PairKind.patch id b = project_patch_bucket b
project_pair PairKind.dynamic_tool id b = project_dynamic_tool_bucket b
project_pair PairKind.collab_spawn id b = project_collab_bucket b "Spawn agent"
project_pair PairKind.collab_interaction id b = project_collab_bucket b "Send input to agent"
project_pair PairKind.collab_wait id b = project_collab_bucket b "Wait for agents"
project_pair PairKind.collab_close id b = project_collab_bucket b "Close agent"
project_pair PairKind.collab_resume id b = project_collab_bucket b "Resume agent"

-- The status of a tool part.
abbrev pub status_of : Option AssistantPartItem → Option ToolStatus
status_of none = none
status_of (some item) = part_status item.part
  where
    part_status : Part → Option ToolStatus
    part_status (Part.tool t) = some t.status
    part_status _ = none

-- What it is for a part to be shown as running exactly while its end event is missing.
abbrev pub RunsUntil : Option EventRecord → Option AssistantPartItem → Type 0
RunsUntil end item = (status_of item ≡ some running) ↔ (end ≡ none)

abbrev Over : ToolStatus → Type 0
Over s = s ≢ running

complete-Over : Over complete
complete-Over e = cc

failed-Over : Over failed
failed-Over e = cc

either-Over : (b : Bool) → Over (if b then failed else complete)
either-Over b = if_both Over b failed-Over complete-Over

exit_status-Over : (code : Option Number) → Over (exit_status code)
exit_status-Over none = complete-Over
exit_status-Over (some code) = if_both Over (is_zero code) complete-Over failed-Over

exec_completion-Over :
    (status : Option String) (code : Option Number) → Over (map_exec_completion_status status code)
unfolding map_exec_completion_status
exec_completion-Over none code = exit_status-Over code
exec_completion-Over (some status) code =
    let normalized = to_lower status in
    if_both Over (truthy status)
      (if_both Over (normalized == "completed") complete-Over (
        if_both Over (normalized == "failed" || normalized == "declined") failed-Over
          (exit_status-Over code)))
      (exit_status-Over code)

image_completion-Over : (status : Option String) → Over (map_image_completion_status status)
unfolding map_image_completion_status
image_completion-Over none = complete-Over
image_completion-Over (some status) =
    let normalized = to_lower status in
    if_both Over (truthy status)
      (either-Over (includes normalized "fail" || includes normalized "error")) complete-Over

collab_status-Over :
    (begin_message end_message : Record) → Over (collab_status begin_message end_message)
unfolding collab_status
collab_status-Over b e =
    let receiver = if_both Over (has_receiver e) complete-Over failed-Over in
    if_both Over (is_agent_status_failure (get e "status")) failed-Over (
      if_both Over
        (any (λ v. is_agent_status_failure (some v)) (values (as_record (get e "statuses"))))
        failed-Over
        (if_both Over (is_empty e) complete-Over (
          if_both Over (has e "new_thread_id") receiver (
            if_both Over (has b "receiver_thread_id" || has e "receiver_thread_id") receiver
              complete-Over))))

-- The status of an ended pair is that of its end event.
ended-running :
    (end : Option EventRecord) (s : ToolStatus)
    → Over s
    → (some (ended end s) ≡ some running) ↔ (end ≡ none)
ended-running none s o = (λ e. refl, λ e. refl)
ended-running (some event) s o = (λ e. absurd (o cc), λ e. cc)

exec_status-running :
    (end : Option EventRecord) (m : Record)
    → (some (exec_status end m) ≡ some running) ↔ (end ≡ none)
exec_status-running none m = (λ e. refl, λ e. refl)
exec_status-running (some event) m =
    (λ e. absurd (exec_completion-Over (str m "status") (num m "exit_code") cc), λ e. cc)

anchored-RunsUntil :
    (anchor : Option EventRecord) (part : ToolPart) (end : Option EventRecord)
    (item : AssistantPartItem)
    → (some part.status ≡ some running) ↔ (end ≡ none)
    → anchored anchor part ≡ some item
    → RunsUntil end (some item)
anchored-RunsUntil none part end item h a = cc
anchored-RunsUntil (some event) part end item h a = subst (RunsUntil end) a h

project_pair-RunsUntil :
    (kind : PairKind) (id : String) (b : PairBucket) (item : AssistantPartItem)
    → project_pair kind id b ≡ some item
    → RunsUntil b.end (some item)
unfolding project_mcp_tool_bucket project_web_search_bucket project_image_generation_bucket
    project_patch_bucket project_dynamic_tool_bucket project_collab_bucket
project_pair-RunsUntil PairKind.mcp_tool id b item e =
    anchored-RunsUntil _ _ b.end item (ended-running b.end _ (either-Over _)) e
project_pair-RunsUntil PairKind.web_search id b item e =
    anchored-RunsUntil _ _ b.end item (ended-running b.end _ complete-Over) e
project_pair-RunsUntil PairKind.image_generation id b item e =
    anchored-RunsUntil _ _ b.end item (ended-running b.end _ (image_completion-Over _)) e
project_pair-RunsUntil PairKind.patch id b item e =
    anchored-RunsUntil _ _ b.end item
      (ended-running b.end _ (if_both Over _ complete-Over failed-Over)) e
project_pair-RunsUntil PairKind.dynamic_tool id b item e =
    anchored-RunsUntil _ _ b.end item
      (ended-running b.end _ (if_both Over _ complete-Over failed-Over)) e
project_pair-RunsUntil PairKind.collab_spawn id b item e =
    anchored-RunsUntil _ _ b.end item (ended-running b.end _ (collab_status-Over _ _)) e
project_pair-RunsUntil PairKind.collab_interaction id b item e =
    anchored-RunsUntil _ _ b.end item (ended-running b.end _ (collab_status-Over _ _)) e
project_pair-RunsUntil PairKind.collab_wait id b item e =
    anchored-RunsUntil _ _ b.end item (ended-running b.end _ (collab_status-Over _ _)) e
project_pair-RunsUntil PairKind.collab_close id b item e =
    anchored-RunsUntil _ _ b.end item (ended-running b.end _ (collab_status-Over _ _)) e
project_pair-RunsUntil PairKind.collab_resume id b item e =
    anchored-RunsUntil _ _ b.end item (ended-running b.end _ (collab_status-Over _ _)) e

project_exec_bucket-RunsUntil :
    (d : Decoders) (id : String) (b : ExecBucket) (item : AssistantPartItem)
    → project_exec_bucket d id b ≡ some item
    → RunsUntil b.end (some item)
unfolding project_exec_bucket
project_exec_bucket-RunsUntil d id b item e =
    anchored-RunsUntil _ _ b.end item (exec_status-running b.end _) e

-- The bucket of a tool call.
pub data ToolBucket : Type 0 where
  pair : PairKind → PairBucket → ToolBucket
  exec : ExecBucket → ToolBucket

abbrev pub end_of : ToolBucket → Option EventRecord
end_of (pair kind b) = b.end
end_of (exec b) = b.end

abbrev pub project_tool : Decoders → String → ToolBucket → Option AssistantPartItem
project_tool d id (pair kind b) = project_pair kind id b
project_tool d id (exec b) = project_exec_bucket d id b

-- A tool call, be it a command or one of the ten kinds that a pair of events describes, is shown as
-- running if and only if its end event has not arrived.
pub project_tool-RunsUntil :
    (d : Decoders) (id : String) (b : ToolBucket) (item : AssistantPartItem)
    → project_tool d id b ≡ some item
    → RunsUntil (end_of b) (some item)
project_tool-RunsUntil d id (pair kind b) item e = project_pair-RunsUntil kind id b item e
project_tool-RunsUntil d id (exec b) item e = project_exec_bucket-RunsUntil d id b item e
