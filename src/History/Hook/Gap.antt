-- ===== src/History/Hook/Gap.antt =====
-- Between the commit of a render for another thread and the start of its effect, the subscription of
-- web/src/lib/session-history.ts for the old thread is still there. An update that then waits runs in
-- a render after the start, and sets `eventsRef` back.
use mathlib.Core.Path.{subst}
use mathlib.Core.List.{flatten}
use codex_mcp_ui.Common.{
  String, ◌≡◌, refl, sym, ◌∙◌, ap, Bool, true, false, some, List, [], ◌∷◌, is_some, truthy, arith,
  eq_refl,
}
use codex_mcp_ui.Collation.{Collation}
use codex_mcp_ui.Event.{EventRecord}
use codex_mcp_ui.History.Merge.{merge_session_events}
use codex_mcp_ui.History.Merge.Ids.{find_event, find_event-append}
use codex_mcp_ui.History.Merge.Laws.{find_event-merge}
use codex_mcp_ui.History.Hook.{Effect, World, visible_state, run_update, run_updates, render}
use codex_mcp_ui.History.Hook.Handlers.{
  set_state, update_events, on_event, on_parse_error, start_for, start_effect, System, Action, step,
  run, started,
}
use codex_mcp_ui.Result.{Thrown}

-- A render for the thread t; then the stream of the old thread delivers two events; then t's effect
-- starts, and the next render runs the update that waits.
abbrev pub gap : EventRecord → EventRecord → String → List Action
gap a b t =
    Action.rerender ∷ Action.event a ∷ Action.event b ∷ Action.start (some t) ∷ Action.rerender ∷ []

abbrev pub switched :
    Collation → Bool → World → Effect → EventRecord → EventRecord → String → System
switched c eager w old a b t = run c eager (record { world = w; effect = some old }) (gap a b t)

-- The same by the callbacks, for any start.
abbrev started_in_gap :
    Collation → Bool → World → Effect → EventRecord → EventRecord → (World → System) → System
started_in_gap c eager w old a b start =
    let (w1, old1) = on_event c eager (render w) old a in
    let (w2, old2) = on_event c eager w1 old1 b in
    let s = start w2 in record s { world = render s.world }

-- Then the stream of t delivers a message that cannot be parsed.
abbrev pub garbled : Thrown → List Action
garbled e = Action.parse_error e ∷ Action.rerender ∷ []

module _ (c : Collation) where
  merged : List EventRecord → EventRecord → List EventRecord
  merged events e = merge_session_events c (events ∷ (e ∷ []) ∷ [])

  -- The events that the waiting update holds.
  held : Bool → World → EventRecord → EventRecord → List EventRecord
  held true w a b = merged (merged (render w).events_ref a) b
  held false w a b = merged (render w).events_ref b

  shown_after :
      (eager : Bool) (w : World) (old : Effect) (a b : EventRecord) (t : String) (e : Thrown)
      → (run c eager
          (started_in_gap c eager w
            (record old { handoff_complete = true })
            a
            b
            (λ v. started (start_for v (some t))))
          (garbled e)).world.state.events
        ≡ merge_session_events c (held eager w a b ∷ [] ∷ [])
  unfolding run step on_event on_parse_error update_events set_state render run_updates run_update
      held merged
  shown_after true w old a b t e = refl
  shown_after false w old a b t e = refl

  thread_after :
      (eager : Bool) (w : World) (old : Effect) (a b : EventRecord) (t : String) (e : Thrown)
      → (run c eager
          (started_in_gap c eager w
            (record old { handoff_complete = true })
            a
            b
            (λ v. started (start_for v (some t))))
          (garbled e)).world.state.thread_id
        ≡ some t
  unfolding run step on_event on_parse_error update_events set_state render run_updates run_update
  thread_after true w old a b t e = refl
  thread_after false w old a b t e = refl

  find_last :
      (events : List EventRecord) (b : EventRecord)
      → is_some (find_event b.event_id (merged events b)) ≡ true
  unfolding merged find_event flatten
  find_last events b = ground (
    arith,
    find_event-merge c b.event_id (events ∷ (b ∷ []) ∷ []),
    find_event-append b.event_id events (b ∷ []),
    eq_refl b.event_id,
  )

  held-last :
      (eager : Bool) (w : World) (a b : EventRecord)
      → is_some (find_event b.event_id (held eager w a b)) ≡ true
  unfolding held
  held-last true w a b = find_last (merged (render w).events_ref a) b
  held-last false w a b = find_last (render w).events_ref b

  find_again :
      (id : String) (events : List EventRecord)
      → is_some (find_event id events) ≡ true
      → is_some (find_event id (merge_session_events c (events ∷ [] ∷ []))) ≡ true
  unfolding find_event flatten
  find_again id events h =
      ground (arith, find_event-merge c id (events ∷ [] ∷ []), find_event-append id events [])

  visible_own :
      (w : World) (t : String)
      → w.state.thread_id ≡ some t
      → (visible_state w (some t)).events ≡ w.state.events
  unfolding visible_state
  visible_own w t h = rw (h, eq_refl t) refl

  gap_shown :
      (eager : Bool) (w : World) (old : Effect) (a b : EventRecord) (t : String) (e : Thrown)
      → is_some (
          find_event b.event_id
            (visible_state
              (run c eager
                (started_in_gap c eager w
                  (record old { handoff_complete = true })
                  a
                  b
                  (λ v. started (start_for v (some t))))
                (garbled e)).world
              (some t)).events)
        ≡ true
  gap_shown eager w old a b t e =
      ap (λ events. is_some (find_event b.event_id events))
        (visible_own _ t (thread_after eager w old a b t e) ∙ shown_after eager w old a b t e)
      ∙ find_again b.event_id (held eager w a b) (held-last eager w a b)

  -- If the load of the old thread is over, and its stream delivers two events between the commit of
  -- a render for the thread t, whose id is not empty, and the start of t's effect, then after a
  -- message of t that cannot be parsed the hook shows the second of those events for t, whatever
  -- thread it belongs to, and whether or not React runs the first update at once.
  pub gap_shows_old :
      (eager : Bool) (w : World) (old : Effect) (a b : EventRecord) (t : String) (e : Thrown)
      → old.handoff_complete ≡ true
      → truthy t ≡ true
      → is_some (
          find_event b.event_id
            (visible_state
              (run c eager (switched c eager w old a b t) (garbled e)).world
              (some t)).events)
        ≡ true
  unfolding start_effect run step
  gap_shows_old eager w old a b t e over given =
      subst
        (λ (old' : Effect).
          is_some (
            find_event b.event_id
              (visible_state
                (run c eager
                  (started_in_gap c eager w old' a b (λ v. started (start_effect v (some t))))
                  (garbled e)).world
                (some t)).events)
          ≡ true)
        (λ i. record old { handoff_complete = sym over i })
        (rw given (gap_shown eager w old a b t e))
