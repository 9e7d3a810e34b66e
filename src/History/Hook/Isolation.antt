-- ===== src/History/Hook/Isolation.antt =====
-- No thread shows an event of another: an invariant of the machine of `useSessionHistory`.
use mathlib.Core.List.{flatten}
use mathlib.Core.Path.{subst}
use codex_mcp_ui.Common.{
  if_both, if_either, truthy, ap, ℕ, String, ◌≡◌, refl, sym, Bool, true, not, ◌&&◌, Option, none,
  some, List, [], ◌∷◌, All, All-append, Bool-cases, inl, inr, eq_iff,
}
use codex_mcp_ui.Common.Table.{Table}
use codex_mcp_ui.Collation.{Collation}
use codex_mcp_ui.Event.{EventRecord}
use codex_mcp_ui.History.Merge.{merge_session_events}
use codex_mcp_ui.History.Merge.Laws.{All-merge}
use codex_mcp_ui.History.Hook.{
  SessionHistoryStatus, ready, failed, Effect, World, selected, same_thread, initial_thread_state,
  initial_for, InternalState, visible_state, run_updates, render,
}
use codex_mcp_ui.Result.{Thrown}
use codex_mcp_ui.History.Hook.Handlers.{
  set_state, update_events, on_event, on_parse_error, on_loaded, on_load_failed, start_effect,
  start_for, System, Action, started, step, run,
}
use codex_mcp_ui.History.Hook.Owned.{
  Owned, OwnedEntry, OwnedUpdate, IsClean, IsIsolatedBy, IsIsolated, IsOwnAction, cached-All,
  run_update-IsClean, render-IsClean,
}

-- No update waits where an effect starts.
abbrev IsSettledAction : World → Action → Type 0
IsSettledAction w (Action.start t) = w.queue ≡ []
IsSettledAction w _ = Unit

abbrev pub StartsSettled : Collation → Bool → System → List Action → Type 0
StartsSettled c eager s [] = Unit
StartsSettled c eager s (a ∷ actions) =
    IsSettledAction s.world a × StartsSettled c eager (step c eager s a) actions

-- `P t e`: the event e belongs to the thread t.
module _ (P : String → EventRecord → Type 0) where
  module _ (c : Collation) (eager : Bool) where
    update_events-IsClean :
        (w : World) (ef : Effect) (ess : List (List EventRecord)) (status : SessionHistoryStatus)
        (error : Option String)
        → IsClean P ef.thread_id w
        → All (P ef.thread_id) (flatten ess)
        → IsClean P ef.thread_id
            (update_events c eager w ef (merge_session_events c ess) status error)
    unfolding update_events set_state
    update_events-IsClean w ef ess status error h k =
        let own = All-merge c (P ef.thread_id) ess k in
        elim (Bool-cases (eager && not w.unrendered)) [
          | inl now ↦
              let after = run_update-IsClean P ef.thread_id w _ h (refl, own) in
              rw now (record {
                cache = after.cache;
                state = after.state;
                ref = after.ref;
                queue = after.queue;
              })
          | inr wait ↦ rw wait (record {
            cache = h.cache;
            state = h.state;
            ref = h.ref;
            queue = All-append (OwnedUpdate P ef.thread_id) w.queue _ h.queue ((refl, own), tt);
          })
        ]

    abbrev IsIsolatedPair : World × Effect → Type 0
    IsIsolatedPair r = IsIsolatedBy P (some r.1) r.0

    event-IsIsolated :
        (w : World) (ef : Effect) (e : EventRecord)
        → IsIsolatedBy P (some ef) w
        → P ef.thread_id e
        → IsIsolatedPair (on_event c eager w ef e)
    unfolding on_event flatten
    event-IsIsolated w ef e (clean, old, buffered) k =
        let more = All-append (P ef.thread_id) ef.buffered_events (e ∷ []) buffered (k, tt) in
        let both = All-append (P ef.thread_id) w.events_ref (e ∷ []) clean.ref (k, tt) in
        if_both IsIsolatedPair (not ef.handoff_complete) (clean, old, more)
          (
            update_events-IsClean w _ (w.events_ref ∷ (e ∷ []) ∷ []) ready none clean both,
            old,
            more,
          )

    parse_error-IsIsolated :
        (w : World) (ef : Effect) (e : Thrown)
        → IsIsolatedBy P (some ef) w
        → IsIsolatedPair (on_parse_error c eager w ef e)
    unfolding on_parse_error flatten
    parse_error-IsIsolated w ef e (clean, old, buffered) =
        if_both IsIsolatedPair ef.cancelled (clean, old, buffered)
          (
            update_events-IsClean w ef (w.events_ref ∷ ef.buffered_events ∷ []) failed _ clean (
                All-append _ w.events_ref _ clean.ref
                  (All-append _ ef.buffered_events [] buffered tt)),
            old,
            buffered,
          )

    loaded-IsIsolated :
        (w : World) (ef : Effect) (events : List EventRecord)
        → IsIsolatedBy P (some ef) w
        → All (P ef.thread_id) events
        → IsIsolatedPair (on_loaded c eager w ef events)
    unfolding on_loaded flatten
    loaded-IsIsolated w ef events (clean, old, buffered) k =
        if_both IsIsolatedPair ef.cancelled (clean, old, buffered)
          (
            update_events-IsClean w ef (ef.cached_events ∷ events ∷ ef.buffered_events ∷ []) ready
                none clean
                (All-append _ ef.cached_events _ old
                  (All-append _ events _ k (All-append _ ef.buffered_events [] buffered tt))),
            old,
            buffered,
          )

    load_failed-IsIsolated :
        (w : World) (ef : Effect) (e : Thrown)
        → IsIsolatedBy P (some ef) w
        → IsIsolatedPair (on_load_failed c eager w ef e)
    unfolding on_load_failed flatten
    load_failed-IsIsolated w ef e (clean, old, buffered) =
        if_both IsIsolatedPair ef.cancelled (clean, old, buffered)
          (
            update_events-IsClean w ef (ef.cached_events ∷ ef.buffered_events ∷ []) failed _ clean (
                All-append _ ef.cached_events _ old
                  (All-append _ ef.buffered_events [] buffered tt)),
            old,
            buffered,
          )

    -- A render runs the updates of the effect that started last.
    render-IsIsolated :
        (w : World) (o : Option Effect) → IsIsolatedBy P o w → IsIsolatedBy P none (render w)
    unfolding render run_updates
    render-IsIsolated w none (cache, state, empty) =
        let same : run_updates w w.queue ≡ w = ap (λ q. run_updates w q) empty in
        (
          subst (λ v. All (OwnedEntry P) v.history_cache) (sym same) cache,
          subst (λ v. Owned P v.state.thread_id v.state.events) (sym same) state,
          refl,
        )
    render-IsIsolated w (some ef) (clean, rest, more) =
        let after = render-IsClean P ef.thread_id w clean in (after.cache, after.state, refl)

    -- Where no update waits, another effect may start.
    settled-IsIsolated :
        (w : World) (o : Option Effect) → IsIsolatedBy P o w → w.queue ≡ [] → IsIsolatedBy P none w
    settled-IsIsolated w none h q = h
    settled-IsIsolated w (some ef) (clean, rest, more) q = (clean.cache, clean.state, q)

    start-IsIsolated :
        (w : World) (o : Option String)
        → IsIsolatedBy P none w
        → IsIsolated P (started (start_for w o))
    start-IsIsolated w none h = h
    start-IsIsolated w (some t) (cache, state, empty) =
        let own = cached-All P w.history_cache t cache in
        (record { cache = cache; state = state; ref = own; queue = rw empty tt }, own, tt)

    step_by-IsIsolated :
        (w : World) (o : Option Effect) (a : Action)
        → IsIsolatedBy P o w
        → IsOwnAction P o a
        → IsSettledAction w a
        → IsIsolated P (step c eager (record { world = w; effect = o }) a)
    unfolding step start_effect
    step_by-IsIsolated w o (Action.start t) h k q =
        start-IsIsolated w (selected t) (settled-IsIsolated w o h q)
    step_by-IsIsolated w none Action.rerender h k q = render-IsIsolated w none h
    step_by-IsIsolated w (some ef) Action.rerender h k q =
        (render-IsClean P ef.thread_id w h.0, h.1, h.2)
    step_by-IsIsolated w (some ef) (Action.event e) h k q = event-IsIsolated w ef e h k
    step_by-IsIsolated w (some ef) (Action.parse_error e) h k q = parse_error-IsIsolated w ef e h
    step_by-IsIsolated w (some ef) (Action.loaded es) h k q = loaded-IsIsolated w ef es h k
    step_by-IsIsolated w (some ef) (Action.load_failed e) h k q = load_failed-IsIsolated w ef e h
    step_by-IsIsolated w none _ h k q = h

    -- Every action of a run finds only events of the thread whose effect is then alive.
    abbrev pub IsOwnRun : System → List Action → Type 0
    IsOwnRun s [] = Unit
    IsOwnRun s (a ∷ actions) = IsOwnAction P s.effect a × IsOwnRun (step c eager s a) actions

    run-IsIsolated :
        (s : System) (actions : List Action)
        → IsIsolated P s
        → IsOwnRun s actions
        → StartsSettled c eager s actions
        → IsIsolated P (run c eager s actions)
    unfolding run
    run-IsIsolated s [] h k q = h
    run-IsIsolated s (a ∷ actions) h k q =
        run-IsIsolated (step c eager s a) actions (step_by-IsIsolated s.world s.effect a h k.0 q.0)
          k.1 q.1

  same_thread-eq : (a b : Option String) → same_thread a b ≡ true → a ≡ b
  same_thread-eq none none h = refl
  same_thread-eq none (some b) h = cc
  same_thread-eq (some a) none h = cc
  same_thread-eq (some a) (some b) h = ap some ((eq_iff a b).0 h)

  initial-All :
      (m : Table (List EventRecord)) (t : String) (key : ℕ)
      → All (OwnedEntry P) m
      → All (P t) (initial_thread_state m (some t) key).events
  unfolding initial_thread_state
  initial-All m t key h =
      if_both (λ o. All (P t) (initial_for m key o).events) (truthy t) (cached-All P m t h) tt

  -- An isolated system holds clean entries and a state of its thread.
  IsIsolated-parts :
      (o : Option Effect) (w : World)
      → IsIsolatedBy P o w
      → All (OwnedEntry P) w.history_cache × Owned P w.state.thread_id w.state.events
  IsIsolated-parts none w (cache, state, empty) = (cache, state)
  IsIsolated-parts (some ef) w (clean, old, buffered) = (clean.cache, clean.state)

  -- From a system whose cache entries, state and buffers hold only events of their own threads, and
  -- whatever the order of renders, starts of effects, deliveries and loads: if every event that is
  -- delivered or loaded belongs to the thread of the effect that started last, and no update waits for
  -- a render where an effect starts, then the events that the hook returns for a thread all belong to
  -- that thread.
  pub visible_state-All :
      (c : Collation) (eager : Bool) (s : System) (actions : List Action) (t : String)
      → IsIsolated P s
      → IsOwnRun c eager s actions
      → StartsSettled c eager s actions
      → All (P t) (visible_state (run c eager s actions).world (some t)).events
  unfolding visible_state
  visible_state-All c eager s actions t h k q =
      let after = run c eager s actions in
      let (cache, state) =
        IsIsolated-parts after.effect after.world (run-IsIsolated c eager s actions h k q) in
      if_either (λ (v : InternalState). All (P t) v.events)
        (same_thread after.world.state.thread_id (some t))
        (λ same. subst (λ o. Owned P o after.world.state.events) (same_thread-eq _ _ same) state)
        (λ other. initial-All after.world.history_cache t after.world.state.refresh_key cache)
