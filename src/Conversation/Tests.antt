-- ===== src/Conversation/Tests.antt =====
-- A conversation, and the instances of the theorems at it.
use codex_mcp_ui.Common.{
  String, ◌≡◌, refl, true, false, none, some, List, [], ◌∷◌, map, All, select, truthy, ◌==◌,
  if◌then◌else◌,
}
use codex_mcp_ui.Collation.CodePoints.{
  by_code_points, by_code_points-IsCollation, by_code_points-strict,
}
use codex_mcp_ui.Event.Samples.{e1, e2, e3, detail}
use codex_mcp_ui.History.Merge.{merge_session_events}
use codex_mcp_ui.History.Hook.{render, run_updates, run_update}
use codex_mcp_ui.History.Hook.Handlers.{
  Action, run, step, start_effect, on_event, on_loaded, update_events, set_state,
}
use codex_mcp_ui.History.Hook.Isolation.{IsOwnRun, StartsSettled}
use codex_mcp_ui.History.Hook.Effects.{
  Mounted, Happening, now, late, Completion, happen_all, actions_now,
}
use codex_mcp_ui.History.Hook.Samples.{fresh, live, over, live-IsSettled, merged_alone}
use codex_mcp_ui.Projection.Access.{Decoders}
use codex_mcp_ui.Projection.Dispatch.Cites.{Cites}
use codex_mcp_ui.Projection.Fold.Grouping.{parts_of_messages}
use codex_mcp_ui.Result.{ok}
use codex_mcp_ui.Stream.{Signal, Call, Subscriber, subscribe_events}
use codex_mcp_ui.Stream.Reports.{report_all, data_of}
use codex_mcp_ui.Conversation.{
  readonly_thread, shown_messages, readonly_thread-Cites, actions_of, actions_of-subscribe_events,
}

-- The events 1 and 2 are of the thread "thread", and 3 is of "other".
abbrev OfThread : String → String → Type 0
OfThread t id = (if id == "3" then "other" else "thread") ≡ t

abbrev no_decoders : Decoders
no_decoders = record { atob = λ s. none; utf8 = λ bytes. none; utf16le = λ bytes. none }

-- The load of the first thread ends after the effect of the second started.
abbrev switching_late : List Happening
switching_late =
    now (Action.start (some "thread"))
    ∷ now (Action.event e2)
    ∷ now Action.rerender
    ∷ now (Action.start (some "other"))
    ∷ now (Action.loaded (e3 ∷ []))
    ∷ late 0 (Completion.loaded (e1 ∷ []))
    ∷ now Action.rerender
    ∷ []

abbrev unmoved : Mounted
unmoved = record { system = record { world = fresh; effect = none }; earlier = [] }

switching_late-IsOwnRun :
    IsOwnRun
      (λ t e. OfThread t e.event_id)
      by_code_points
      false
      unmoved.system
      (actions_now switching_late)
unfolding run step start_effect on_event on_loaded update_events set_state render run_updates
    run_update actions_now
switching_late-IsOwnRun = (tt, (refl, (tt, (tt, ((refl, tt), (tt, tt))))))

switching_late-StartsSettled :
    StartsSettled by_code_points false unmoved.system (actions_now switching_late)
unfolding run step start_effect on_event on_loaded update_events set_state render run_updates
    run_update actions_now
switching_late-StartsSettled = (refl, (tt, (tt, (refl, (tt, (tt, tt))))))

readonly_thread-Cites_example : All (Cites (OfThread "other")) (
    parts_of_messages (
      shown_messages (
        readonly_thread by_code_points no_decoders
          (happen_all by_code_points false unmoved switching_late).system.world
          (some "other")
          (some detail))))
readonly_thread-Cites_example =
    readonly_thread-Cites OfThread by_code_points no_decoders false unmoved switching_late "other"
      (some detail) tt (tt, refl, refl) switching_late-IsOwnRun switching_late-StartsSettled

abbrev subscriber : Subscriber
subscriber = record { parse = λ text. if text == "3" then ok e3 else ok e2; raises = λ e. none }

abbrev signals : List Signal
signals = Signal.open_ ∷ Signal.message "3" ∷ Signal.error ∷ Signal.open_ ∷ Signal.message "2" ∷ []

parsed : report_all subscriber (select truthy (data_of signals)) ≡ map Call.event (e3 ∷ e2 ∷ [])
unfolding report_all
parsed = refl

actions_of-subscribe_events_example :
    (run by_code_points true
      (record { world = live; effect = some over })
      (actions_of (subscribe_events subscriber signals))).world.state.events
    ≡ merge_session_events by_code_points ((e1 ∷ e3 ∷ e2 ∷ []) ∷ [])
actions_of-subscribe_events_example =
    actions_of-subscribe_events by_code_points true live over (e1 ∷ []) (e3 ∷ e2 ∷ []) subscriber
      signals by_code_points-IsCollation by_code_points-strict live-IsSettled refl merged_alone
      parsed
