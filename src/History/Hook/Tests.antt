-- ===== src/History/Hook/Tests.antt =====
-- Runs of the hook's machine, and the instances of its theorems at them.
use codex_mcp_ui.Common.{
  is_some, String, ◌≡◌, ◌≢◌, refl, true, false, none, some, List, [], ◌∷◌, All, arith, eq_iff,
}
use codex_mcp_ui.Collation.CodePoints.{
  by_code_points, by_code_points-IsCollation, by_code_points-strict,
}
use codex_mcp_ui.Event.{EventRecord}
use codex_mcp_ui.Event.Samples.{e1, e2, e3, e4}
use codex_mcp_ui.Result.{Result, Thrown, ok, throw, to_error}
use codex_mcp_ui.History.Merge.{merge_session_events}
use codex_mcp_ui.History.Merge.Ids.{find_event}
use codex_mcp_ui.History.Load.{EventsPage, load_session_history}
use codex_mcp_ui.History.Load.Laws.{Offers, Fails}
use codex_mcp_ui.History.Hook.{ready, failed, visible_state, render, run_updates, run_update}
use codex_mcp_ui.History.Hook.Handlers.{
  Action, run, step, start_effect, on_event, on_loaded, update_events, set_state,
}
use codex_mcp_ui.History.Hook.Isolation.{IsOwnRun, StartsSettled}
use codex_mcp_ui.History.Hook.Effects.{
  Mounted, Happening, now, late, Completion, happen_all, actions_now, IsCleanedUp, happen_all-run,
  happen_all-All,
}
use codex_mcp_ui.History.Hook.Gap.{switched, garbled, gap_shows_old}
use codex_mcp_ui.History.Hook.Live.{one_by_one, live_run_lem}
use codex_mcp_ui.History.Hook.Burst.{burst, burst_loses_second}
use codex_mcp_ui.History.Hook.Handoff.{after_load, handoff_complete_lem, handoff_failed_lem}
use codex_mcp_ui.History.Hook.Refresh.{ids, visible_state-refresh_key}
use codex_mcp_ui.History.Hook.Samples.{fresh, starting, live, over, live-IsSettled, merged_alone}

abbrev one_page : EventsPage
one_page calls thread_id options = ok (record { items = e1 ∷ e2 ∷ []; next_cursor = none })

abbrev failing : EventsPage
failing calls thread_id options = throw (Thrown.other "timeout")

handoff_complete_lem_example :
    (r : Result (List EventRecord)) × (load_session_history by_code_points one_page 1 "thread"
        (e3 ∷ [])
      ≡ some r)
    × (((id : String)
          → find_event id (after_load by_code_points true fresh starting (e3 ∷ []) r).events
            ≡ find_event id (e1 ∷ e1 ∷ e2 ∷ e3 ∷ []))
        × ((after_load by_code_points true fresh starting (e3 ∷ []) r).status ≡ ready)
        × ((after_load by_code_points true fresh starting (e3 ∷ []) r).error ≡ none))
handoff_complete_lem_example =
    handoff_complete_lem by_code_points true fresh starting one_page 1 1 (e1 ∷ e2 ∷ []) (e3 ∷ [])
      refl refl (record { buffered = refl; handoff = refl; alive = refl }) (Offers.last refl refl)
      (omega arith)

handoff_failed_lem_example :
    (load_session_history by_code_points failing 1 "thread" (e3 ∷ [])
      ≡ some (throw (Thrown.other "timeout")))
    × (((id : String)
          → find_event id
              (after_load by_code_points false fresh starting
                (e3 ∷ [])
                (throw (Thrown.other "timeout"))).events
            ≡ find_event id (e1 ∷ e3 ∷ []))
        × ((after_load by_code_points false fresh starting
              (e3 ∷ [])
              (throw (Thrown.other "timeout"))).status
            ≡ failed)
        × ((after_load by_code_points false fresh starting
              (e3 ∷ [])
              (throw (Thrown.other "timeout"))).error
            ≡ some (to_error (Thrown.other "timeout"))))
handoff_failed_lem_example =
    handoff_failed_lem by_code_points false fresh starting failing 1 0 (Thrown.other "timeout")
      (e3 ∷ []) refl refl (record { buffered = refl; handoff = refl; alive = refl })
      (Fails.now refl) (omega arith)

live_run_lem_example :
    (run by_code_points true
      (record { world = live; effect = some over })
      (one_by_one (e3 ∷ e2 ∷ []))).world.state.events
    ≡ merge_session_events by_code_points ((e1 ∷ e3 ∷ e2 ∷ []) ∷ [])
live_run_lem_example =
    live_run_lem by_code_points by_code_points-IsCollation by_code_points-strict true live over
      (e1 ∷ []) (e3 ∷ e2 ∷ []) live-IsSettled refl merged_alone

new_event : find_event "3" (e1 ∷ []) ≡ none
unfolding find_event
new_event = refl

other : e2.event_id ≢ e3.event_id
other = ground (arith, eq_iff "2" "3")

another : e4.event_id ≢ e3.event_id
another = ground (arith, eq_iff "4" "3")

burst_loses_second_example :
    find_event "3"
      (run by_code_points true
        (record { world = live; effect = some over })
        (burst e2 e3 e4)).world.state.events
    ≡ none
burst_loses_second_example =
    burst_loses_second by_code_points true live over e2 e3 e4 live-IsSettled refl new_event other
      another

abbrev OfThread : String → EventRecord → Type 0
OfThread t e = e.thread_id ≡ some t

-- The thread "thread" is loaded; another is rendered, and an event of the first arrives before the
-- other's effect starts; after that the first one's stream has a message that cannot be parsed.
abbrev switching : List Happening
switching =
    now Action.rerender
    ∷ now (Action.start (some "thread"))
    ∷ now (Action.loaded (e1 ∷ []))
    ∷ now Action.rerender
    ∷ now (Action.event e2)
    ∷ now (Action.start (some "other"))
    ∷ late 0 (Completion.parse_error (Thrown.error "not JSON"))
    ∷ now Action.rerender
    ∷ []

abbrev unmoved : Mounted
unmoved = record { system = record { world = fresh; effect = none }; earlier = [] }

switching-IsOwnRun : IsOwnRun OfThread by_code_points true unmoved.system (actions_now switching)
unfolding run step start_effect on_event on_loaded update_events set_state render run_updates
    run_update actions_now
switching-IsOwnRun = (tt, (tt, ((refl, tt), (tt, (refl, (tt, (tt, tt)))))))

switching-StartsSettled : StartsSettled by_code_points true unmoved.system (actions_now switching)
unfolding run step start_effect on_event on_loaded update_events set_state render run_updates
    run_update actions_now
switching-StartsSettled = (tt, (refl, (tt, (tt, (tt, (refl, (tt, tt)))))))

happen_all-All_example :
    All
      (OfThread "other")
      (visible_state
        (happen_all by_code_points true unmoved switching).system.world
        (some "other")).events
happen_all-All_example =
    happen_all-All OfThread by_code_points true unmoved switching "other" tt (tt, refl, refl)
      switching-IsOwnRun switching-StartsSettled

happen_all-run_example :
    ((happen_all by_code_points true unmoved switching).system
      ≡ run by_code_points true unmoved.system (actions_now switching))
    × All IsCleanedUp (happen_all by_code_points true unmoved switching).earlier
happen_all-run_example = happen_all-run by_code_points true unmoved switching tt

gap_shows_old_example :
    is_some (
      find_event "3"
        (visible_state
          (run by_code_points true
            (switched by_code_points true live over e2 e3 "new")
            (garbled (Thrown.error "not JSON"))).world
          (some "new")).events)
    ≡ true
gap_shows_old_example =
    gap_shows_old by_code_points true live over e2 e3 "new" (Thrown.error "not JSON") refl refl

-- The events that are shown arrive again, from the stream and from the server.
abbrev repeated : List Action
repeated = Action.event e1 ∷ Action.rerender ∷ Action.loaded (e1 ∷ []) ∷ Action.rerender ∷ []

-- The key stays as it was.
repeated-key :
    (visible_state
      (run by_code_points false (record { world = live; effect = some over }) repeated).world
      (some "thread")).refresh_key
    ≡ (visible_state live (some "thread")).refresh_key
unfolding run step on_event on_loaded update_events set_state render run_updates run_update
    visible_state merge_session_events codex_mcp_ui.History.Merge.same_event_ids
    codex_mcp_ui.History.Merge.add_collections codex_mcp_ui.History.Merge.add_events
    codex_mcp_ui.Common.Sort.sort codex_mcp_ui.Common.Table.has codex_mcp_ui.Common.Table.set
repeated-key = refl

visible_state-refresh_key_example :
    ids
      (visible_state
        (run by_code_points false (record { world = live; effect = some over }) repeated).world
        (some "thread")).events
    ≡ ids (visible_state live (some "thread")).events
visible_state-refresh_key_example =
    visible_state-refresh_key by_code_points false (record { world = live; effect = some over })
      repeated "thread" refl refl tt (omega arith) (refl, (refl, (refl, (refl, tt)))) repeated-key
