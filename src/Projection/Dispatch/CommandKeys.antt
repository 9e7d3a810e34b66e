-- ===== src/Projection/Dispatch/CommandKeys.antt =====
-- The keys of the commands' map of the loop in web/src/lib/assistant-projection.ts.
use codex_mcp_ui.Common.{
  ℕ, ◌≡◌, refl, ap, Bool, true, false, not, ◌&&◌, List, if◌then◌else◌, is_some, map, select,
}
use codex_mcp_ui.Common.Table.{keys}
use codex_mcp_ui.Common.Keys.{keys-set, firsts}
use codex_mcp_ui.Event.{EventRecord}
use codex_mcp_ui.Projection.Access.{bucket_id}
use codex_mcp_ui.Projection.Buckets.{change_bucket}
use codex_mcp_ui.Projection.Switch.{Case, case_of}
use codex_mcp_ui.Projection.Dispatch.CommandParts.{part_of}
use codex_mcp_ui.Projection.Dispatch.Commands.{execs-set_pair_buckets}
use codex_mcp_ui.Projection.Dispatch.Default.{default_for-IsOf}
use codex_mcp_ui.Projection.Dispatch.Keyed.{add_key_if, loop-firsts}
use codex_mcp_ui.Projection.Dispatch.{
  Projection, empty_projection, project_default, project_case, project_event, project_events,
  is_skipped,
}

-- The events of commands.
abbrev pub is_of_command : EventRecord → Bool
is_of_command e = not (is_skipped e) && is_some (part_of (case_of e.event_type))

module _ (p : Projection) (event : EventRecord) (index : ℕ) where
  abbrev IsKeyed : Projection → Bool → Type 0
  IsKeyed q c = keys q.exec_buckets ≡ add_key_if c (keys p.exec_buckets) (bucket_id event)

  case-IsKeyed : (c : Case) → IsKeyed (project_case p event index c) (is_some (part_of c))
  unfolding project_case project_default change_bucket
  case-IsKeyed Case.user_message = refl
  case-IsKeyed Case.agent_message = refl
  case-IsKeyed Case.agent_reasoning = refl
  case-IsKeyed Case.agent_reasoning_raw_content = refl
  case-IsKeyed Case.message_delta = refl
  case-IsKeyed Case.reasoning_delta = refl
  case-IsKeyed Case.raw_content_delta = refl
  case-IsKeyed Case.section_break = refl
  case-IsKeyed Case.exec_begin = keys-set p.exec_buckets _ _
  case-IsKeyed Case.exec_output = keys-set p.exec_buckets _ _
  case-IsKeyed Case.exec_interaction = keys-set p.exec_buckets _ _
  case-IsKeyed Case.exec_end = keys-set p.exec_buckets _ _
  case-IsKeyed Case.view_image = refl
  case-IsKeyed Case.plan_update = refl
  case-IsKeyed Case.plan_delta = refl
  case-IsKeyed (Case.pair_begin k) = ap keys (execs-set_pair_buckets p k _)
  case-IsKeyed (Case.pair_end k) = ap keys (execs-set_pair_buckets p k _)
  case-IsKeyed Case.default =
      ap (λ q. keys q.exec_buckets) (default_for-IsOf p event index event.event_type).1

  skip-IsKeyed :
      (s : Bool) (c : Case)
      → IsKeyed (if s then p else project_case p event index c) (not s && is_some (part_of c))
  skip-IsKeyed true c = refl
  skip-IsKeyed false c = case-IsKeyed c

event-IsKeyed :
    (p : Projection) (event : EventRecord) (index : ℕ)
    → IsKeyed p event index (project_event p event index) (is_of_command event)
unfolding project_event
event-IsKeyed p event index =
    skip-IsKeyed p event index (is_skipped event) (case_of event.event_type)

pub commands-keys :
    (events : List EventRecord) (index : ℕ)
    → keys (project_events empty_projection events index).exec_buckets
      ≡ firsts (map bucket_id (select is_of_command events))
commands-keys events index =
    loop-firsts (λ p. keys p.exec_buckets) is_of_command bucket_id event-IsKeyed events index refl
