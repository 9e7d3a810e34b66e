-- ===== src/History/Hook/Live.antt =====
-- Live delivery after the handoff, with a render after each event: nothing is lost.
use mathlib.Core.Path.{subst}
use mathlib.Core.List.{flatten, append-nil, append_assoc}
use codex_mcp_ui.Common.{
  String, ◌≡◌, refl, sym, ◌∙◌, ap, Bool, true, false, none, some, List, [], ◌∷◌, ◌++◌, Ordering,
}
use codex_mcp_ui.Collation.{Collation, IsCollation}
use codex_mcp_ui.Event.{EventRecord}
use codex_mcp_ui.History.Merge.{merge_session_events}
use codex_mcp_ui.History.Merge.Laws.{merge-eq_of_flatten}
use codex_mcp_ui.History.Merge.Order.{merge-merge}
use codex_mcp_ui.History.Hook.{Update, Effect, World, ready, run_update, run_updates, render}
use codex_mcp_ui.History.Hook.Handlers.{
  set_state, update_events, on_event, System, Action, step, run,
}

-- No update waits, and the reference holds the events of the state.
pub record IsSettled (w : World) : Type 0 where
  pub queue : w.queue ≡ []
  pub rendered : w.unrendered ≡ false
  pub ref : w.events_ref ≡ w.state.events

abbrev settle : World → World
settle w = record w { queue = []; unrendered = false }

abbrev hand_over : Effect → Effect
hand_over ef = record ef { handoff_complete = true }

-- Each event, and a render after it.
unfoldable pub one_by_one : List EventRecord → List Action
one_by_one [] = []
one_by_one (e ∷ es) = Action.event e ∷ Action.rerender ∷ one_by_one es

module _ (c : Collation) where
  abbrev live_update : World → Effect → EventRecord → Update
  live_update w ef e = record {
    thread_id = ef.thread_id;
    next_events = merge_session_events c (w.events_ref ∷ (e ∷ []) ∷ []);
    next_status = ready;
    next_error = none;
  }

  abbrev live_effect : Effect → EventRecord → Effect
  live_effect ef e = record ef { buffered_events = ef.buffered_events ++ e ∷ [] }

  live_step :
      (eager : Bool) (w : World) (ef : Effect) (e : EventRecord)
      → step c eager
          (step c eager
            (record { world = settle w; effect = some (hand_over ef) })
            (Action.event e))
          Action.rerender
        ≡ record {
          world = settle (run_update w (live_update w ef e));
          effect = some (hand_over (live_effect ef e));
        }
  unfolding step on_event update_events set_state render run_updates run_update
  live_step true w ef e = refl
  live_step false w ef e = refl

  module _ (h : IsCollation c) (strict : (a b : String) → c a b ≡ Ordering.eq → a ≡ b) where
    merge-concat :
        (all : List EventRecord) (e : EventRecord)
        → merge_session_events c (merge_session_events c (all ∷ []) ∷ (e ∷ []) ∷ [])
          ≡ merge_session_events c ((all ++ e ∷ []) ∷ [])
    unfolding flatten
    merge-concat all e =
        merge-merge c h strict (all ∷ []) ((e ∷ []) ∷ [])
        ∙ merge-eq_of_flatten c (all ∷ (e ∷ []) ∷ []) ((all ++ e ∷ []) ∷ [])
            (sym (append-nil (all ++ e ∷ [])))

    live_run :
        (eager : Bool) (w : World) (ef : Effect) (all es : List EventRecord)
        → w.events_ref ≡ merge_session_events c (all ∷ [])
        → w.events_ref ≡ w.state.events
        → (run c eager
            (record { world = settle w; effect = some (hand_over ef) })
            (one_by_one es)).world.state.events
          ≡ merge_session_events c ((all ++ es) ∷ [])
    unfolding run one_by_one run_update
    live_run eager w ef all [] known ref = sym ref ∙ known ∙ rw (append-nil all)
    live_run eager w ef all (e ∷ es) known ref =
        ap (λ (s : System). (run c eager s (one_by_one es)).world.state.events)
          (live_step eager w ef e)
        ∙ live_run eager (run_update w (live_update w ef e)) (live_effect ef e) (all ++ e ∷ []) es
            (ap (λ l. merge_session_events c (l ∷ (e ∷ []) ∷ [])) known ∙ merge-concat all e) refl
        ∙ ap (λ l. merge_session_events c (l ∷ [])) (append_assoc all (e ∷ []) es)

    -- If the collation is a comparator that finds no two different texts equal: after the handoff, with
    -- no update waiting and a render after each event, the hook shows what one merge of all the events
    -- would, the ones that it had merged and the new ones.
    pub live_run_lem :
        (eager : Bool) (w : World) (ef : Effect) (all es : List EventRecord)
        → IsSettled w
        → ef.handoff_complete ≡ true
        → w.state.events ≡ merge_session_events c (all ∷ [])
        → (run c eager (record { world = w; effect = some ef }) (one_by_one es)).world.state.events
          ≡ merge_session_events c ((all ++ es) ∷ [])
    live_run_lem eager w ef all es s done known =
        subst
          (λ (r : World × Effect).
            (run c eager (record { world = r.0; effect = some r.1 })
              (one_by_one es)).world.state.events
            ≡ merge_session_events c ((all ++ es) ∷ []))
          (λ i. (
            record w { queue = sym s.queue i; unrendered = sym s.rendered i },
            record ef { handoff_complete = sym done i },
          ))
          (live_run eager w ef all es (s.ref ∙ known) s.ref)
