-- ===== src/Projection/Dispatch/Commands.antt =====
-- What the buckets of commands hold after the loop of `projectReadonlyAssistantThread`
-- (web/src/lib/assistant-projection.ts), told from the events alone.
use codex_mcp_ui.Common.{
  ℕ, suc, String, ◌≡◌, refl, ap, ◌∙◌, Bool, true, false, Option, none, some, List, [], ◌∷◌, ◌==◌,
  eq_iff, if◌then◌else◌, Bool-cases, inl, inr, select, last?,
}
use codex_mcp_ui.Common.Table.{Table, get}
use codex_mcp_ui.Common.{last_after-none}
use codex_mcp_ui.Event.{EventRecord}
use codex_mcp_ui.Projection.Access.{bucket_id}
use codex_mcp_ui.Projection.Parts.{ExecBucket, PairBucket}
use codex_mcp_ui.Projection.Buckets.{change_bucket, empty_exec}
use codex_mcp_ui.Projection.Buckets.Laws.{get-change_bucket}
use codex_mcp_ui.Projection.Switch.{PairKind, Case, case_of}
use codex_mcp_ui.Projection.Dispatch.CommandParts.{
  CommandPart, begin, output, interaction, end, part_of, is_command, command_met,
  value_or-command_met, Held, bucket_of, add, add_if, met_some, noted, note, note_all, note_all-b,
  note_all-e, note_all-os, note_all-ts,
}
use codex_mcp_ui.Projection.Dispatch.Default.{default_for-IsOf}
use codex_mcp_ui.Projection.Dispatch.{
  Projection, empty_projection, set_pair_buckets, project_default, project_case, project_event,
  project_events, is_skipped,
}

pub execs-set_pair_buckets :
    (p : Projection) (kind : PairKind) (m : Table PairBucket)
    → (set_pair_buckets p kind m).exec_buckets ≡ p.exec_buckets
unfolding set_pair_buckets
execs-set_pair_buckets p PairKind.mcp_tool m = refl
execs-set_pair_buckets p PairKind.web_search m = refl
execs-set_pair_buckets p PairKind.image_generation m = refl
execs-set_pair_buckets p PairKind.patch m = refl
execs-set_pair_buckets p PairKind.dynamic_tool m = refl
execs-set_pair_buckets p PairKind.collab_spawn m = refl
execs-set_pair_buckets p PairKind.collab_interaction m = refl
execs-set_pair_buckets p PairKind.collab_wait m = refl
execs-set_pair_buckets p PairKind.collab_close m = refl
execs-set_pair_buckets p PairKind.collab_resume m = refl

module _ (p : Projection) (event : EventRecord) (index : ℕ) (id : String) (h : Held)
    (before : get p.exec_buckets id ≡ bucket_of h) where
  abbrev After : Table ExecBucket → Option CommandPart → Type 0
  After execs part = get execs id ≡ bucket_of (add_if (bucket_id event == id) event part h)

  kept-After : (execs : Table ExecBucket) → execs ≡ p.exec_buckets → After execs none
  kept-After execs same = ap (λ m. get m id) same ∙ before ∙ if_same (bucket_id event == id)
    where
      if_same : (c : Bool) → bucket_of h ≡ bucket_of (if c then h else h)
      if_same true = refl
      if_same false = refl

  change-After :
      (part : CommandPart) (f : ExecBucket → ExecBucket)
      → some (f (record { begin = h.b; outputs = h.os; interactions = h.ts; end = h.e }))
        ≡ bucket_of (add event (some part) h)
      → After (change_bucket p.exec_buckets (bucket_id event) empty_exec f) (some part)
  change-After part f adds = elim (Bool-cases (bucket_id event == id)) [
    | inl same_id ↦
        let own = (eq_iff (bucket_id event) id).0 same_id in
        rw (get-change_bucket, same_id, own, before, value_or-command_met) adds
    | inr other ↦ rw (get-change_bucket, other) before
  ]

  case-After : (c : Case) → After (project_case p event index c).exec_buckets (part_of c)
  unfolding project_case project_default
  case-After Case.user_message = kept-After _ refl
  case-After Case.agent_message = kept-After _ refl
  case-After Case.agent_reasoning = kept-After _ refl
  case-After Case.agent_reasoning_raw_content = kept-After _ refl
  case-After Case.message_delta = kept-After _ refl
  case-After Case.reasoning_delta = kept-After _ refl
  case-After Case.raw_content_delta = kept-After _ refl
  case-After Case.section_break = kept-After _ refl
  case-After Case.exec_begin = change-After begin _ (met_some event begin h.b h.os h.ts h.e)
  case-After Case.exec_output = change-After output _ (met_some event output h.b h.os h.ts h.e)
  case-After Case.exec_interaction =
      change-After interaction _ (met_some event interaction h.b h.os h.ts h.e)
  case-After Case.exec_end = change-After end _ (met_some event end h.b h.os h.ts h.e)
  case-After (Case.pair_begin k) = kept-After _ (execs-set_pair_buckets p k _)
  case-After (Case.pair_end k) = kept-After _ (execs-set_pair_buckets p k _)
  case-After Case.view_image = kept-After _ refl
  case-After Case.plan_update = kept-After _ refl
  case-After Case.plan_delta = kept-After _ refl
  case-After Case.default =
      kept-After _ (ap (λ q. q.exec_buckets) (default_for-IsOf p event index event.event_type).1)

event-note :
    (p : Projection) (event : EventRecord) (index : ℕ) (id : String) (h : Held)
    → get p.exec_buckets id ≡ bucket_of h
    → get (project_event p event index).exec_buckets id ≡ bucket_of (note id event h)
unfolding project_event note noted
event-note p event index id h before = elim (Bool-cases (is_skipped event)) [
  | inl skipped ↦ rw skipped before
  | inr kept ↦ rw kept (case-After p event index id h before (case_of event.event_type))
]

events-note_all :
    (p : Projection) (events : List EventRecord) (index : ℕ) (id : String) (h : Held)
    → get p.exec_buckets id ≡ bucket_of h
    → get (project_events p events index).exec_buckets id ≡ bucket_of (note_all id events h)
unfolding project_events note_all
events-note_all p [] index id h before = before
events-note_all p (e ∷ es) index id h before =
    events-note_all (project_event p e index) es (suc index) id (note id e h)
      (event-note p e index id h before)

abbrev nothing : Held
nothing = record { b = none; os = []; ts = []; e = none }

-- After the loop, the bucket of a command under an id holds the last of its begin events, all its
-- outputs and all its interactions in order, and the last of its end events, among the events with
-- that bucket id that are not skipped, wherever they stood; and there is no bucket if there are none.
pub commands_met :
    (events : List EventRecord) (index : ℕ) (id : String)
    → get (project_events empty_projection events index).exec_buckets id
      ≡ command_met
          (last? (select (is_command begin id) events))
          (select (is_command output id) events)
          (select (is_command interaction id) events)
          (last? (select (is_command end id) events))
unfolding get
commands_met events index id =
    events-note_all empty_projection events index id nothing refl
    ∙ rw
        (
          note_all-b id events nothing,
          note_all-e id events nothing,
          note_all-os id events nothing,
          note_all-ts id events nothing,
          last_after-none (select (is_command begin id) events),
          last_after-none (select (is_command end id) events),
        )
        refl
