-- ===== src/History/Hook/Refresh.antt =====
-- `refreshKey` of `useSessionHistory` (web/src/lib/session-history.ts): what a component that
-- reloads when the key changes may rely on.
use codex_mcp_ui.Common.{
  if_both, truthy, ℕ, ◌≤◌, String, ◌≡◌, refl, sym, ◌∙◌, Bool, true, false, not, ◌&&◌, Option, none,
  some, List, [], ◌∷◌, ◌==◌, All, All-append, Bool-cases, inl, inr, eq_iff, eq_refl, arith, map,
  if◌then◌else◌,
}
use codex_mcp_ui.Collation.{Collation}
use codex_mcp_ui.Event.{EventRecord}
use codex_mcp_ui.History.Merge.{same_event_ids}
use codex_mcp_ui.History.Hook.{
  SessionHistoryStatus, ready, failed, Effect, Update, World, cached, same_thread,
  initial_thread_state, visible_state, run_update, run_updates, render,
}
use codex_mcp_ui.History.Hook.Handlers.{
  set_state, update_events, on_event, on_parse_error, on_loaded, on_load_failed, System, Action,
  step, run,
}

abbrev pub ids : List EventRecord → List String
ids = map (λ (e : EventRecord). e.event_id)

same_event_ids-eq : (ls rs : List EventRecord) → same_event_ids ls rs ≡ true → ids ls ≡ ids rs
unfolding same_event_ids
same_event_ids-eq [] [] h = refl
same_event_ids-eq [] (r ∷ rs) h = cc
same_event_ids-eq (l ∷ ls) [] h = cc
same_event_ids-eq (l ∷ ls) (r ∷ rs) h = elim (Bool-cases (l.event_id == r.event_id)) [
  | inl same ↦ let rest = same_event_ids-eq ls rs (rw same at h) in rw ((eq_iff _ _).0 same, rest)
  | inr other ↦ ground arith
]

-- The events that the hook returns for the thread.
abbrev shown : World → String → List EventRecord
shown w t =
    if same_thread w.state.thread_id (some t) then w.state.events else cached w.history_cache t

abbrev pub IsEffectOf : String → Option Effect → Type 0
IsEffectOf t none = Unit
IsEffectOf t (some ef) = ef.thread_id ≡ t

-- The action is not the start of an effect.
abbrev pub is_within : Action → Bool
is_within (Action.start _) = false
is_within _ = true

-- Since a state of the thread t with the key `key` and events with the ids `before`, only t was
-- updated, and as long as the key is that one, the ids are those.
module _ (t : String) (key : ℕ) (before : List String) where
  record IsTracked (w : World) : Type 0 where
    waits : All (λ (u : Update). u.thread_id ≡ t) w.queue
    grown : key ≤ w.state.refresh_key
    bound : w.state.refresh_key ≤ w.refresh_counter
    kept : w.state.refresh_key ≡ key → ids (shown w t) ≡ before

  run_update-IsTracked :
      (w : World) (u : Update) → u.thread_id ≡ t → IsTracked w → IsTracked (run_update w u)
  unfolding run_update
  run_update-IsTracked w u own h = elim (Bool-cases (same_event_ids (shown w t) u.next_events)) [
    | inl same ↦
        rw (own, same)
          (record {
            waits = h.waits;
            grown = h.grown;
            bound = h.bound;
            kept = λ k. rw (eq_refl t) (sym (same_event_ids-eq _ _ same) ∙ h.kept k);
          })
    | inr other ↦
        rw (own, other)
          (record {
            waits = h.waits;
            grown = omega (arith, h.grown, h.bound);
            bound = omega arith;
            kept = λ k. ground (arith, h.grown, h.bound);
          })
  ]

  run_updates-IsTracked :
      (w : World) (us : List Update)
      → All (λ (u : Update). u.thread_id ≡ t) us
      → IsTracked w
      → IsTracked (run_updates w us)
  unfolding run_updates
  run_updates-IsTracked w [] own h = h
  run_updates-IsTracked w (u ∷ us) own h =
      run_updates-IsTracked (run_update w u) us own.1 (run_update-IsTracked w u own.0 h)

  render-IsTracked : (w : World) → IsTracked w → IsTracked (render w)
  unfolding render
  render-IsTracked w h =
      let after = run_updates-IsTracked w w.queue h.waits h in
      record { waits = tt; grown = after.grown; bound = after.bound; kept = after.kept }

  module _ (c : Collation) (eager : Bool) where
    update_events-IsTracked :
        (w : World) (ef : Effect) (events : List EventRecord) (status : SessionHistoryStatus)
        (error : Option String)
        → ef.thread_id ≡ t
        → IsTracked w
        → IsTracked (update_events c eager w ef events status error)
    unfolding update_events set_state
    update_events-IsTracked w ef events status error own h =
        let after = run_update-IsTracked w _ own h in
        if_both IsTracked (eager && not w.unrendered)
          (record {
            waits = after.waits;
            grown = after.grown;
            bound = after.bound;
            kept = after.kept;
          })
          (record {
            waits = All-append _ w.queue _ h.waits (own, tt);
            grown = h.grown;
            bound = h.bound;
            kept = h.kept;
          })

    abbrev IsTrackedSystem : System → Type 0
    IsTrackedSystem s = IsEffectOf t s.effect × IsTracked s.world

    abbrev IsTrackedPair : World × Effect → Type 0
    IsTrackedPair r = (r.1.thread_id ≡ t) × IsTracked r.0

    step_by-IsTracked :
        (w : World) (o : Option Effect) (a : Action)
        → is_within a ≡ true
        → IsEffectOf t o
        → IsTracked w
        → IsTrackedSystem (step c eager (record { world = w; effect = o }) a)
    unfolding step on_event on_parse_error on_loaded on_load_failed
    step_by-IsTracked w o (Action.start _) within own h = cc
    step_by-IsTracked w o Action.rerender within own h = (own, render-IsTracked w h)
    step_by-IsTracked w (some ef) (Action.event e) within own h =
        if_both IsTrackedPair (not ef.handoff_complete) (own, h)
          (own, update_events-IsTracked w _ _ ready none own h)
    step_by-IsTracked w (some ef) (Action.parse_error e) within own h =
        if_both IsTrackedPair ef.cancelled (own, h)
          (own, update_events-IsTracked w ef _ failed _ own h)
    step_by-IsTracked w (some ef) (Action.loaded events) within own h =
        if_both IsTrackedPair ef.cancelled (own, h)
          (own, update_events-IsTracked w ef _ ready none own h)
    step_by-IsTracked w (some ef) (Action.load_failed e) within own h =
        if_both IsTrackedPair ef.cancelled (own, h)
          (own, update_events-IsTracked w ef _ failed _ own h)
    step_by-IsTracked w none _ within own h = (own, h)

    run-IsTracked :
        (s : System) (actions : List Action)
        → All (λ a. is_within a ≡ true) actions
        → IsTrackedSystem s
        → IsTrackedSystem (run c eager s actions)
    unfolding run
    run-IsTracked s [] within h = h
    run-IsTracked s (a ∷ actions) within h =
        run-IsTracked (step c eager s a) actions within.1
          (step_by-IsTracked s.world s.effect a within.0 h.0 h.1)

visible_state-shown :
    (w : World) (t : String) → truthy t ≡ true → (visible_state w (some t)).events ≡ shown w t
unfolding visible_state initial_thread_state
visible_state-shown w t there = elim (Bool-cases (same_thread w.state.thread_id (some t))) [
  | inl same ↦ rw same
  | inr other ↦ rw (other, there)
]

visible_key :
    (w : World) (t : String)
    → truthy t ≡ true
    → (visible_state w (some t)).refresh_key ≡ w.state.refresh_key
unfolding visible_state initial_thread_state
visible_key w t there = elim (Bool-cases (same_thread w.state.thread_id (some t))) [
  | inl same ↦ rw same
  | inr other ↦ rw (other, there)
]

-- While a thread with a nonempty id stays selected, from a state whose key the counter has reached
-- and with only the thread's updates waiting: after any renders, deliveries and ends of loads, if
-- the refresh key that the hook returns is the one that it returned before, then so are the ids of
-- the events that it returns, in their order.
pub visible_state-refresh_key :
    (c : Collation) (eager : Bool) (s : System) (actions : List Action) (t : String)
    → truthy t ≡ true
    → IsEffectOf t s.effect
    → All (λ (u : Update). u.thread_id ≡ t) s.world.queue
    → s.world.state.refresh_key ≤ s.world.refresh_counter
    → All (λ a. is_within a ≡ true) actions
    → (visible_state (run c eager s actions).world (some t)).refresh_key
      ≡ (visible_state s.world (some t)).refresh_key
    → ids (visible_state (run c eager s actions).world (some t)).events
      ≡ ids (visible_state s.world (some t)).events
visible_state-refresh_key c eager s actions t there own waits bound within key =
    let after = run c eager s actions in
    let (effect, tracked) =
      run-IsTracked t s.world.state.refresh_key (ids (shown s.world t)) c eager s actions within
        (own, record { waits = waits; grown = omega arith; bound = bound; kept = λ k. refl }) in
    rw (visible_state-shown after.world t there, visible_state-shown s.world t there)
      (tracked.kept (sym (visible_key after.world t there) ∙ key ∙ visible_key s.world t there))
