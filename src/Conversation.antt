-- ===== src/Conversation.antt =====
-- The parts together, as web/src/components/workbench/session-workbench.tsx puts them: the stream's
-- calls reach the hook, and the hook's events are projected for the selected thread.
mod Tests
use codex_mcp_ui.Common.{
  String, ◌≡◌, refl, sym, ap, ◌∙◌, Bool, true, false, Option, none, some, List, [], ◌∷◌, ◌++◌, map,
  All, All_mono, select, truthy, Ordering,
}
use codex_mcp_ui.Collation.{Collation, IsCollation}
use codex_mcp_ui.Event.{EventRecord, SessionDetail}
use codex_mcp_ui.History.Merge.{merge_session_events}
use codex_mcp_ui.History.Hook.{World, Effect, visible_state}
use codex_mcp_ui.History.Hook.Handlers.{System, Action, run}
use codex_mcp_ui.History.Hook.Owned.{IsIsolated}
use codex_mcp_ui.History.Hook.Isolation.{IsOwnRun, StartsSettled}
use codex_mcp_ui.History.Hook.Effects.{
  Mounted, Happening, happen_all, actions_now, IsCleanedUp, happen_all-All,
}
use codex_mcp_ui.History.Hook.Live.{IsSettled, one_by_one, live_run_lem}
use codex_mcp_ui.Projection.Parts.{Message}
use codex_mcp_ui.Projection.Access.{Decoders}
use codex_mcp_ui.Projection.Dispatch.{is_skipped}
use codex_mcp_ui.Projection.Dispatch.Cites.{Cites}
use codex_mcp_ui.Projection.Fold.Grouping.{parts_of_messages}
use codex_mcp_ui.Projection.Thread.{Thread, project_readonly_assistant_thread}
use codex_mcp_ui.Projection.Thread.Cited.{project_readonly_assistant_thread-Cites}
use codex_mcp_ui.Stream.{Signal, Call, Subscriber, subscribe_events}
use codex_mcp_ui.Stream.Reports.{reports, data_of, report_all, all-reports}

-- The projection of the hook's events, if there is a detail for the selected thread.
unfoldable pub readonly_thread :
    Collation → Decoders → World → Option String → Option SessionDetail → Option Thread
readonly_thread c d w thread_id none = none
readonly_thread c d w thread_id (some detail) =
    some (project_readonly_assistant_thread c d detail (visible_state w thread_id).events)

-- `thread?.messages ?? []`.
abbrev pub shown_messages : Option Thread → List Message
shown_messages none = []
shown_messages (some thread) = thread.messages

-- What the hook does with the calls of its subscription, with a render after each: it passes
-- `onEvent` and `onParseError`, and no `onStatusChange`.
unfoldable pub actions_of : List Call → List Action
actions_of [] = []
actions_of (Call.status_change status ∷ calls) = actions_of calls
actions_of (Call.event e ∷ calls) = Action.event e ∷ Action.rerender ∷ actions_of calls
actions_of (Call.parse_error e ∷ calls) = Action.parse_error e ∷ Action.rerender ∷ actions_of calls

-- From a system whose cache entries, state and buffers hold only events with ids of their own
-- threads, with the earlier effects cleaned up: if every event that is delivered to the effect that
-- started last, or loaded for it, has an id of its thread, and no update waits for a render where an
-- effect starts, then every part of the conversation that is shown for a thread cites ids of that
-- thread alone, whatever the order of renders, starts, deliveries and ends of loads, deliveries between
-- a render for another thread and the start of its effect included, and whatever the loads of earlier
-- effects bring.
pub readonly_thread-Cites :
    (P : String → String → Type 0) (c : Collation) (d : Decoders) (eager : Bool) (s : Mounted)
    (hs : List Happening) (t : String) (detail : Option SessionDetail)
    → All IsCleanedUp s.earlier
    → IsIsolated (λ thread_id e. P thread_id e.event_id) s.system
    → IsOwnRun (λ thread_id e. P thread_id e.event_id) c eager s.system (actions_now hs)
    → StartsSettled c eager s.system (actions_now hs)
    → All (Cites (P t)) (
        parts_of_messages (
          shown_messages
            (readonly_thread c d (happen_all c eager s hs).system.world (some t) detail)))
unfolding readonly_thread
readonly_thread-Cites P c d eager s hs t none clean isolated own settled = tt
readonly_thread-Cites P c d eager s hs t (some detail) clean isolated own settled =
    let shown = (visible_state (happen_all c eager s hs).system.world (some t)).events in
    project_readonly_assistant_thread-Cites (P t) c d detail shown (
      All_mono (λ e. P t e.event_id) (λ e. is_skipped e ≡ false → P t e.event_id) (λ e p kept. p)
        shown
        (happen_all-All (λ thread_id e. P thread_id e.event_id) c eager s hs t clean isolated own
          settled))

actions_of-reports : (calls : List Call) → actions_of (reports calls) ≡ actions_of calls
unfolding actions_of
actions_of-reports [] = refl
actions_of-reports (Call.status_change status ∷ calls) = actions_of-reports calls
actions_of-reports (Call.event e ∷ calls) = rw (actions_of-reports calls) refl
actions_of-reports (Call.parse_error e ∷ calls) = rw (actions_of-reports calls) refl

actions_of-events : (es : List EventRecord) → actions_of (map Call.event es) ≡ one_by_one es
unfolding actions_of one_by_one
actions_of-events [] = refl
actions_of-events (e ∷ es) = rw (actions_of-events es) refl

-- If the collation is a comparator that finds no two different texts equal: after the handoff, with
-- no update waiting, let the connection open, close, fail and deliver messages in any way, with a
-- render after each call. If the messages with data are events that the hook takes, then the hook
-- shows the merge of those that it had merged and of these.
pub actions_of-subscribe_events :
    (c : Collation) (eager : Bool) (w : World) (ef : Effect) (all es : List EventRecord)
    (subscriber : Subscriber) (signals : List Signal)
    → IsCollation c
    → ((a b : String) → c a b ≡ Ordering.eq → a ≡ b)
    → IsSettled w
    → ef.handoff_complete ≡ true
    → w.state.events ≡ merge_session_events c (all ∷ [])
    → report_all subscriber (select truthy (data_of signals)) ≡ map Call.event es
    → (run c eager
        (record { world = w; effect = some ef })
        (actions_of (subscribe_events subscriber signals))).world.state.events
      ≡ merge_session_events c ((all ++ es) ∷ [])
actions_of-subscribe_events c eager w ef all es subscriber signals h strict settled over known
      parsed =
    let calls = subscribe_events subscriber signals in
    ap
      (λ actions. (run c eager (record { world = w; effect = some ef }) actions).world.state.events)
      (sym (actions_of-reports calls)
        ∙ ap actions_of (all-reports subscriber signals ∙ parsed)
        ∙ actions_of-events es)
    ∙ live_run_lem c h strict eager w ef all es settled over known
