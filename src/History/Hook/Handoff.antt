-- ===== src/History/Hook/Handoff.antt =====
-- From the subscription to the end of the loading: the events that were cached, loaded, or
-- delivered meanwhile are all shown.
use mathlib.Core.Path.{subst}
use mathlib.Core.List.{flatten, append-nil, append_assoc}
use codex_mcp_ui.Common.{
  ℕ, suc, ◌≤◌, String, ◌≡◌, refl, sym, ◌∙◌, ap, Bool, true, false, Option, none, some, List, [],
  ◌∷◌, ◌++◌, map, ◌or_else◌, arith,
}
use codex_mcp_ui.Collation.{Collation}
use codex_mcp_ui.Event.{EventRecord}
use codex_mcp_ui.Result.{Result, Thrown, ok, throw, to_error}
use codex_mcp_ui.History.Merge.{merge_session_events}
use codex_mcp_ui.History.Merge.Ids.{find_event, find_event-append}
use codex_mcp_ui.History.Merge.Laws.{find_event-merge}
use codex_mcp_ui.History.Load.{EventsPage, load_session_history}
use codex_mcp_ui.History.Load.Laws.{
  Offers, Fails, load_session_history_offered, load_session_history-Fails,
}
use codex_mcp_ui.History.Hook.{
  SessionHistoryStatus, ready, failed, InternalState, Effect, World, run_update, run_updates,
  render,
}
use codex_mcp_ui.History.Hook.Handlers.{
  set_state, update_events, on_event, on_loaded, on_load_failed, System, Action, step, run,
}

-- What `loadSessionHistory` ends with, as an action of the machine.
abbrev pub settled : Result (List EventRecord) → Action
settled (ok events) = Action.loaded events
settled (throw e) = Action.load_failed e

-- An effect that has just started.
pub record IsLoading (ef : Effect) : Type 0 where
  pub buffered : ef.buffered_events ≡ []
  pub handoff : ef.handoff_complete ≡ false
  pub alive : ef.cancelled ≡ false

-- The machine with no update waiting, and an effect that still loads and has buffered the events.
abbrev loading_system : World → Effect → List EventRecord → System
loading_system w ef es = record {
  world = record w { queue = []; unrendered = false };
  effect = some (record ef { buffered_events = es; handoff_complete = false; cancelled = false });
}

or_else_again : (a b : Option EventRecord) → ((a or_else b) or_else b) ≡ (a or_else b)
or_else_again a b = ground arith

module _ (c : Collation) where
  -- Before the handoff the events are only buffered.
  buffer_run :
      (eager : Bool) (w : World) (ef : Effect) (old es : List EventRecord) (rest : List Action)
      → run c eager (loading_system w ef old) (map Action.event es ++ rest)
        ≡ run c eager (loading_system w ef (old ++ es)) rest
  unfolding run step on_event
  buffer_run eager w ef old [] rest =
      ap (λ l. run c eager (loading_system w ef l) rest) (sym (append-nil old))
  buffer_run eager w ef old (e ∷ es) rest =
      buffer_run eager w ef (old ++ e ∷ []) es rest
      ∙ ap (λ l. run c eager (loading_system w ef l) rest) (append_assoc old (e ∷ []) es)

  abbrev Shows : System → List EventRecord → SessionHistoryStatus → Option String → Type 0
  Shows s events status error =
      (s.world.state.events ≡ events)
      × (s.world.state.status ≡ status)
      × (s.world.state.error ≡ error)

  loaded_run :
      (eager : Bool) (w : World) (ef : Effect) (es events : List EventRecord)
      → Shows
          (run c eager (loading_system w ef es) (Action.loaded events ∷ Action.rerender ∷ []))
          (merge_session_events c (ef.cached_events ∷ events ∷ es ∷ []))
          ready
          none
  unfolding run step on_loaded update_events set_state render run_updates run_update
  loaded_run true w ef es events = (refl, refl, refl)
  loaded_run false w ef es events = (refl, refl, refl)

  failed_run :
      (eager : Bool) (w : World) (ef : Effect) (es : List EventRecord) (e : Thrown)
      → Shows
          (run c eager (loading_system w ef es) (Action.load_failed e ∷ Action.rerender ∷ []))
          (merge_session_events c (ef.cached_events ∷ es ∷ []))
          failed
          (some (to_error e))
  unfolding run step on_load_failed update_events set_state render run_updates run_update
  failed_run true w ef es e = (refl, refl, refl)
  failed_run false w ef es e = (refl, refl, refl)

  -- The state after a load during which the stream delivered the events.
  abbrev pub after_load :
      Bool → World → Effect → List EventRecord → Result (List EventRecord) → InternalState
  after_load eager w ef es r =
      (run c eager (record { world = w; effect = some ef })
        (map Action.event es ++ settled r ∷ Action.rerender ∷ [])).world.state

  start_path :
      (w : World) (ef : Effect)
      → w.queue ≡ []
      → w.unrendered ≡ false
      → IsLoading ef
      → loading_system w ef [] ≡ record { world = w; effect = some ef }
  start_path w ef q u l i = record {
    world = record w { queue = sym q i; unrendered = sym u i };
    effect = some (record ef {
      buffered_events = sym l.buffered i;
      handoff_complete = sym l.handoff i;
      cancelled = sym l.alive i;
    });
  }

  load_path :
      (eager : Bool) (w : World) (ef : Effect) (es : List EventRecord) (rest : List Action)
      → w.queue ≡ []
      → w.unrendered ≡ false
      → IsLoading ef
      → run c eager (loading_system w ef es) rest
        ≡ run c eager (record { world = w; effect = some ef }) (map Action.event es ++ rest)
  load_path eager w ef es rest q u l =
      sym (buffer_run eager w ef [] es rest)
      ∙ ap (λ s. run c eager s (map Action.event es ++ rest)) (start_path w ef q u l)

  find_event-handoff :
      (id : String) (old all es : List EventRecord)
      → find_event id
          (merge_session_events c (old ∷ merge_session_events c (all ∷ es ∷ []) ∷ es ∷ []))
        ≡ find_event id (old ++ (all ++ es))
  unfolding flatten
  find_event-handoff id old all es =
      let loaded = merge_session_events c (all ∷ es ∷ []) in
      rw
        (
          find_event-merge c id (old ∷ loaded ∷ es ∷ []),
          append-nil es,
          find_event-append id old (loaded ++ es),
          find_event-append id loaded es,
          find_event-merge c id (all ∷ es ∷ []),
          append-nil es,
          find_event-append id old (all ++ es),
          find_event-append id all es,
        )
        (ap (λ o. find_event id old or_else o)
          (or_else_again (find_event id all) (find_event id es)))

  -- If no update waits when the effect starts, the server offers the thread in k pages holding
  -- the events `all`, and the stream delivers the events `es` before the load ends, then the hook
  -- is ready, with no error, and shows under each id the first of the cached events, of `all` and
  -- of `es`; and loading with fuel for k requests returns a result.
  pub handoff_complete_lem :
      (eager : Bool) (w : World) (ef : Effect) (page : EventsPage) (fuel k : ℕ)
      (all es : List EventRecord)
      → w.queue ≡ []
      → w.unrendered ≡ false
      → IsLoading ef
      → Offers page ef.thread_id 0 none k all
      → k ≤ fuel
      → (r : Result (List EventRecord)) × (load_session_history c page fuel ef.thread_id es
          ≡ some r)
        × (((id : String)
              → find_event id (after_load eager w ef es r).events
                ≡ find_event id (ef.cached_events ++ (all ++ es)))
            × ((after_load eager w ef es r).status ≡ ready)
            × ((after_load eager w ef es r).error ≡ none))
  unfolding flatten
  handoff_complete_lem eager w ef page fuel k all es q u l offers enough =
      let loaded = merge_session_events c (all ∷ es ∷ []) in
      let rest : List Action = Action.loaded loaded ∷ Action.rerender ∷ [] in
      let shown =
        subst
          (λ s. Shows s (merge_session_events c (ef.cached_events ∷ loaded ∷ es ∷ [])) ready none)
          (load_path eager w ef es rest q u l) (loaded_run eager w ef es loaded) in
      (
        ok loaded,
        load_session_history_offered page ef.thread_id c fuel es offers enough,
        (
          λ id. ap (find_event id) (shown.0) ∙ find_event-handoff id ef.cached_events all es,
          shown.1,
          shown.2,
        ),
      )

  -- If no update waits when the effect starts, k pages arrive and the next request throws e, then
  -- the load throws e, and the hook shows the error's message and, under each id, the first of the
  -- cached events and of those that the stream delivered; the pages that arrived are not shown.
  pub handoff_failed_lem :
      (eager : Bool) (w : World) (ef : Effect) (page : EventsPage) (fuel k : ℕ) (e : Thrown)
      (es : List EventRecord)
      → w.queue ≡ []
      → w.unrendered ≡ false
      → IsLoading ef
      → Fails page ef.thread_id e 0 none k
      → suc k ≤ fuel
      → (load_session_history c page fuel ef.thread_id es ≡ some (throw e))
        × (((id : String)
              → find_event id (after_load eager w ef es (throw e)).events
                ≡ find_event id (ef.cached_events ++ es))
            × ((after_load eager w ef es (throw e)).status ≡ failed)
            × ((after_load eager w ef es (throw e)).error ≡ some (to_error e)))
  unfolding flatten
  handoff_failed_lem eager w ef page fuel k e es q u l fails enough =
      let rest : List Action = Action.load_failed e ∷ Action.rerender ∷ [] in
      let shown =
        subst
          (λ s.
            Shows s (merge_session_events c (ef.cached_events ∷ es ∷ [])) failed
              (some (to_error e)))
          (load_path eager w ef es rest q u l) (failed_run eager w ef es e) in
      (
        load_session_history-Fails page ef.thread_id c fuel es fails enough,
        (
          λ id.
              ap (find_event id) (shown.0)
              ∙ find_event-merge c id (ef.cached_events ∷ es ∷ [])
              ∙ ap (λ l. find_event id (ef.cached_events ++ l)) (append-nil es),
          shown.1,
          shown.2,
        ),
      )
