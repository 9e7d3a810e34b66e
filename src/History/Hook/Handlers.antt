-- ===== src/History/Hook/Handlers.antt =====
-- The callbacks of the effect in `useSessionHistory` of web/src/lib/session-history.ts, and the
-- machine that they make with React's renders and the starts of effects.
use codex_mcp_ui.Common.{
  String, Bool, true, false, not, ◌&&◌, Option, none, some, List, [], ◌∷◌, ◌++◌, if◌then◌else◌,
}
use codex_mcp_ui.Collation.{Collation}
use codex_mcp_ui.Event.{EventRecord}
use codex_mcp_ui.History.Merge.{latest_event_id, merge_session_events}
use codex_mcp_ui.History.Hook.{
  SessionHistoryStatus, ready, failed, Update, Effect, World, selected, cached, run_update, render,
}
use codex_mcp_ui.Result.{Thrown, to_error}

module _ (c : Collation) (eager : Bool) where
  unfoldable pub set_state : World → Update → World
  set_state w u =
      if eager && not w.unrendered
      then record (run_update w u) { unrendered = true }
      else record w { queue = w.queue ++ u ∷ []; unrendered = true }

  unfoldable pub update_events :
      World → Effect → List EventRecord → SessionHistoryStatus → Option String → World
  update_events w effect next_events next_status next_error = set_state w (record {
    thread_id = effect.thread_id;
    next_events = next_events;
    next_status = next_status;
    next_error = next_error;
  })

  -- The stream delivers an event.
  unfoldable pub on_event : World → Effect → EventRecord → World × Effect
  on_event w effect event =
      let effect' = record effect { buffered_events = effect.buffered_events ++ event ∷ [] } in
      if not effect.handoff_complete then (w, effect') else (
        update_events w effect' (merge_session_events c (w.events_ref ∷ (event ∷ []) ∷ [])) ready
            none,
        effect',
      )

  -- The stream delivers a message that cannot be parsed.
  unfoldable pub on_parse_error : World → Effect → Thrown → World × Effect
  on_parse_error w effect e = if effect.cancelled then (w, effect) else (
    update_events w effect (merge_session_events c (w.events_ref ∷ effect.buffered_events ∷ []))
        failed (some (to_error e)),
    effect,
  )

  -- `loadSessionHistory` resolves, with these events.
  unfoldable pub on_loaded : World → Effect → List EventRecord → World × Effect
  on_loaded w effect events = if effect.cancelled then (w, effect) else (
    update_events w effect
        (merge_session_events c (effect.cached_events ∷ events ∷ effect.buffered_events ∷ [])) ready
        none,
    record effect { handoff_complete = true },
  )

  -- `loadSessionHistory` rejects.
  unfoldable pub on_load_failed : World → Effect → Thrown → World × Effect
  on_load_failed w effect e = if effect.cancelled then (w, effect) else (
    update_events w effect
        (merge_session_events c (effect.cached_events ∷ effect.buffered_events ∷ [])) failed
        (some (to_error e)),
    record effect { handoff_complete = true },
  )

-- The body of `useEffect`, for a thread id that is present and not empty, or for none.
abbrev pub start_for : World → Option String → World × Option Effect × Option String
start_for w none = (record w { events_ref = [] }, none, none)
start_for w (some t) = (
  record w { events_ref = cached w.history_cache t },
  some (record {
    thread_id = t;
    cached_events = cached w.history_cache t;
    buffered_events = [];
    handoff_complete = false;
    cancelled = false;
  }),
  latest_event_id (cached w.history_cache t),
)

-- The world, the new effect, and the `since` of its subscription.
unfoldable pub start_effect : World → Option String → World × Option Effect × Option String
start_effect w thread_id = start_for w (selected thread_id)

-- The clean-up of an effect; its subscription ends with it.
abbrev pub cleanup : Effect → Effect
cleanup effect = record effect { cancelled = true }

-- The world, and the effect that started last.
pub record System : Type 0 where
  pub world : World
  pub effect : Option Effect

-- What happens to the hook: a render, be it for the same thread or for another; after the render for
-- another thread, and not at once, the start of that thread's effect; what the stream of the effect
-- that started last delivers, and the end of its loading.
pub data Action : Type 0 where
  rerender : Action
  start : Option String → Action
  event : EventRecord → Action
  parse_error : Thrown → Action
  loaded : List EventRecord → Action
  load_failed : Thrown → Action

abbrev pub with_effect : World × Effect → System
with_effect (w, effect) = record { world = w; effect = some effect }

abbrev pub started : World × Option Effect × Option String → System
started (w, effect, since) = record { world = w; effect = effect }

-- A callback runs for the effect that started last, also between the render for another thread and the
-- start of its effect, which cleans it up; History/Hook/Effects has the callbacks of earlier effects
-- too.
unfoldable pub step : Collation → Bool → System → Action → System
step c eager s rerender = record s { world = render s.world }
step c eager s (start thread_id) = started (start_effect s.world thread_id)
step c eager s (event e) = elim s.effect [
  | none ↦ s
  | some effect ↦ with_effect (on_event c eager s.world effect e)
]
step c eager s (parse_error e) = elim s.effect [
  | none ↦ s
  | some effect ↦ with_effect (on_parse_error c eager s.world effect e)
]
step c eager s (loaded events) = elim s.effect [
  | none ↦ s
  | some effect ↦ with_effect (on_loaded c eager s.world effect events)
]
step c eager s (load_failed e) = elim s.effect [
  | none ↦ s
  | some effect ↦ with_effect (on_load_failed c eager s.world effect e)
]

unfoldable pub run : Collation → Bool → System → List Action → System
run c eager s [] = s
run c eager s (a ∷ actions) = run c eager (step c eager s a) actions
