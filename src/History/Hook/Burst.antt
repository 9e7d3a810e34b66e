-- ===== src/History/Hook/Burst.antt =====
-- Events that the stream delivers between two renders: the update of the second reads
-- `eventsRef` before the update of the first has set it, or before a waiting one has.
use mathlib.Core.Path.{subst}
use mathlib.Core.List.{flatten}
use codex_mcp_ui.Common.{
  String, ◌≡◌, refl, sym, ◌∙◌, ap, ◌≢◌, Bool, true, false, none, some, List, [], ◌∷◌, arith, eq_iff,
  if◌then◌else◌,
}
use codex_mcp_ui.Collation.{Collation}
use codex_mcp_ui.Event.{EventRecord}
use codex_mcp_ui.History.Merge.{merge_session_events}
use codex_mcp_ui.History.Merge.Ids.{find_event, find_event-append}
use codex_mcp_ui.History.Merge.Laws.{find_event-merge}
use codex_mcp_ui.History.Hook.{Effect, World, run_update, run_updates, render}
use codex_mcp_ui.History.Hook.Live.{IsSettled}
use codex_mcp_ui.History.Hook.Handlers.{set_state, update_events, on_event, Action, step, run}

abbrev pub burst : EventRecord → EventRecord → EventRecord → List Action
burst a b d = Action.event a ∷ Action.event b ∷ Action.event d ∷ Action.rerender ∷ []

module _ (c : Collation) where
  burst-run :
      (eager : Bool) (w : World) (ef : Effect) (a b d : EventRecord)
      → (run c eager
          (record {
            world = record w { queue = []; unrendered = false };
            effect = some (record ef { handoff_complete = true });
          })
          (burst a b d)).world.state.events
        ≡ merge_session_events c (
            (if eager then merge_session_events c (w.events_ref ∷ (a ∷ []) ∷ []) else w.events_ref)
            ∷ (d ∷ [])
            ∷ [])
  unfolding run step on_event update_events set_state render run_updates run_update
  burst-run true w ef a b d = refl
  burst-run false w ef a b d = refl

  find_none :
      (id : String) (es : List EventRecord) (d : EventRecord)
      → find_event id es ≡ none
      → d.event_id ≢ id
      → find_event id (merge_session_events c (es ∷ (d ∷ []) ∷ [])) ≡ none
  unfolding find_event flatten
  find_none id es d h k = ground (
    arith,
    find_event-merge c id (es ∷ (d ∷ []) ∷ []),
    find_event-append id es (d ∷ []),
    eq_iff d.event_id id,
  )

  burst_loses :
      (eager : Bool) (w : World) (ef : Effect) (a b d : EventRecord)
      → find_event b.event_id w.events_ref ≡ none
      → a.event_id ≢ b.event_id
      → d.event_id ≢ b.event_id
      → find_event b.event_id
          (run c eager
            (record {
              world = record w { queue = []; unrendered = false };
              effect = some (record ef { handoff_complete = true });
            })
            (burst a b d)).world.state.events
        ≡ none
  burst_loses true w ef a b d new p q =
      ap (find_event b.event_id) (burst-run true w ef a b d)
      ∙ find_none b.event_id _ d (find_none b.event_id w.events_ref a new p) q
  burst_loses false w ef a b d new p q =
      ap (find_event b.event_id) (burst-run false w ef a b d)
      ∙ find_none b.event_id w.events_ref d new q

  -- After the handoff, with no update waiting: if the stream delivers three events before the
  -- next render, and the second is new, then after that render the hook does not show the second,
  -- whether or not React runs the first update at once.
  pub burst_loses_second :
      (eager : Bool) (w : World) (ef : Effect) (a b d : EventRecord)
      → IsSettled w
      → ef.handoff_complete ≡ true
      → find_event b.event_id w.state.events ≡ none
      → a.event_id ≢ b.event_id
      → d.event_id ≢ b.event_id
      → find_event b.event_id
          (run c eager (record { world = w; effect = some ef }) (burst a b d)).world.state.events
        ≡ none
  burst_loses_second eager w ef a b d s done new p q =
      subst
        (λ (r : World × Effect).
          find_event b.event_id
            (run c eager (record { world = r.0; effect = some r.1 })
              (burst a b d)).world.state.events
          ≡ none)
        (λ i. (
          record w { queue = sym s.queue i; unrendered = sym s.rendered i },
          record ef { handoff_complete = sym done i },
        ))
        (burst_loses eager w ef a b d (ap (find_event b.event_id) s.ref ∙ new) p q)
