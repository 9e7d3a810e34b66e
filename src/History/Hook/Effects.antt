-- ===== src/History/Hook/Effects.antt =====
-- The hook of web/src/lib/session-history.ts with every effect that it has run: the loading of an
-- earlier thread goes on after its effect's clean-up, and ends at any time.
use mathlib.Core.Path.{subst}
use codex_mcp_ui.Common.{
  sym, ℕ, zero, suc, String, ◌≡◌, refl, ap, Bool, true, Option, none, some, List, [], ◌∷◌, All,
}
use codex_mcp_ui.Collation.{Collation}
use codex_mcp_ui.Event.{EventRecord}
use codex_mcp_ui.History.Hook.{Effect, World, visible_state}
use codex_mcp_ui.History.Hook.Handlers.{
  cleanup, on_loaded, on_load_failed, on_parse_error, System, Action, step, run,
}
use codex_mcp_ui.History.Hook.Owned.{IsIsolated}
use codex_mcp_ui.History.Hook.Isolation.{IsOwnRun, StartsSettled, visible_state-All}
use codex_mcp_ui.Result.{Thrown}

-- The earlier effects, the last one first.
pub record Mounted : Type 0 where
  pub system : System
  pub earlier : List Effect

-- What a closure of an earlier effect may still be called with. Its subscription has ended, but the
-- stream may find a message that cannot be parsed while it ends.
pub data Completion : Type 0 where
  loaded : List EventRecord → Completion
  load_failed : Thrown → Completion
  parse_error : Thrown → Completion

-- An action of the current effect or of React, or a completion of the n-th of the earlier effects.
pub data Happening : Type 0 where
  now : Action → Happening
  late : ℕ → Completion → Happening

abbrev pub cleaned_up : Option Effect → List Effect → List Effect
cleaned_up none earlier = earlier
cleaned_up (some effect) earlier = cleanup effect ∷ earlier

-- The effects that are earlier ones after an action: a start cleans the current one up.
abbrev pub earlier_after : Option Effect → List Effect → Action → List Effect
earlier_after current earlier (Action.start t) = cleaned_up current earlier
earlier_after current earlier _ = earlier

module _ (c : Collation) (eager : Bool) where
  unfoldable pub complete : World → Effect → Completion → World × Effect
  complete w effect (loaded events) = on_loaded c eager w effect events
  complete w effect (load_failed e) = on_load_failed c eager w effect e
  complete w effect (parse_error e) = on_parse_error c eager w effect e

  -- The closure works on the world, and on its own effect's variables.
  unfoldable pub complete_nth : World → List Effect → ℕ → Completion → World × List Effect
  complete_nth w [] n completion = (w, [])
  complete_nth w (effect ∷ effects) zero completion =
      let (w', effect') = complete w effect completion in (w', effect' ∷ effects)
  complete_nth w (effect ∷ effects) (suc n) completion =
      let (w', effects') = complete_nth w effects n completion in (w', effect ∷ effects')

  unfoldable pub happen : Mounted → Happening → Mounted
  happen s (now a) = record {
    system = step c eager s.system a;
    earlier = earlier_after s.system.effect s.earlier a;
  }
  happen s (late n completion) =
      let (w', earlier') = complete_nth s.system.world s.earlier n completion in
      record { system = record s.system { world = w' }; earlier = earlier' }

  unfoldable pub happen_all : Mounted → List Happening → Mounted
  happen_all s [] = s
  happen_all s (h ∷ hs) = happen_all (happen s h) hs

-- The actions of the current effect and of React.
unfoldable pub actions_now : List Happening → List Action
actions_now [] = []
actions_now (now a ∷ hs) = a ∷ actions_now hs
actions_now (late n completion ∷ hs) = actions_now hs

abbrev pub IsCleanedUp : Effect → Type 0
IsCleanedUp effect = effect.cancelled ≡ true

module _ (c : Collation) (eager : Bool) where
  complete-cleanup :
      (w : World) (effect : Effect) (completion : Completion)
      → IsCleanedUp effect
      → complete c eager w effect completion ≡ (w, effect)
  unfolding complete on_loaded on_load_failed on_parse_error
  complete-cleanup w effect (loaded events) h = rw h refl
  complete-cleanup w effect (load_failed e) h = rw h refl
  complete-cleanup w effect (parse_error e) h = rw h refl

  complete_nth-cleanup :
      (w : World) (effects : List Effect) (n : ℕ) (completion : Completion)
      → All IsCleanedUp effects
      → complete_nth c eager w effects n completion ≡ (w, effects)
  unfolding complete_nth
  complete_nth-cleanup w [] n completion h = refl
  complete_nth-cleanup w (effect ∷ effects) zero completion (h, hs) =
      ap (λ (r : World × Effect). (r.0, r.1 ∷ effects)) (complete-cleanup w effect completion h)
  complete_nth-cleanup w (effect ∷ effects) (suc n) completion (h, hs) =
      ap (λ (r : World × List Effect). (r.0, effect ∷ r.1))
        (complete_nth-cleanup w effects n completion hs)

  happen-late :
      (s : Mounted) (n : ℕ) (completion : Completion)
      → All IsCleanedUp s.earlier
      → happen c eager s (late n completion) ≡ s
  unfolding happen
  happen-late s n completion h =
      ap
        (λ (r : World × List Effect). record {
          system = record s.system { world = r.0 };
          earlier = r.1;
        })
        (complete_nth-cleanup s.system.world s.earlier n completion h)

  earlier_after-All :
      (o : Option Effect) (effects : List Effect) (a : Action)
      → All IsCleanedUp effects
      → All IsCleanedUp (earlier_after o effects a)
  earlier_after-All none effects (Action.start t) h = h
  earlier_after-All (some effect) effects (Action.start t) h = (refl, h)
  earlier_after-All o effects Action.rerender h = h
  earlier_after-All o effects (Action.event e) h = h
  earlier_after-All o effects (Action.parse_error e) h = h
  earlier_after-All o effects (Action.loaded es) h = h
  earlier_after-All o effects (Action.load_failed e) h = h

  -- If the earlier effects are cleaned up: whatever completions of theirs come, of whatever threads,
  -- and between whatever actions, the hook is as if they had never come; and each effect that another
  -- start ends is then cleaned up too.
  pub happen_all-run :
      (s : Mounted) (hs : List Happening)
      → All IsCleanedUp s.earlier
      → ((happen_all c eager s hs).system ≡ run c eager s.system (actions_now hs))
        × All IsCleanedUp (happen_all c eager s hs).earlier
  unfolding happen_all happen run actions_now
  happen_all-run s [] h = (refl, h)
  happen_all-run s (now a ∷ hs) h =
      happen_all-run (happen c eager s (now a)) hs (earlier_after-All s.system.effect s.earlier a h)
  happen_all-run s (late n completion ∷ hs) h =
      subst
        (λ s'.
          ((happen_all c eager s' hs).system ≡ run c eager s.system (actions_now hs))
          × All IsCleanedUp (happen_all c eager s' hs).earlier)
        (sym (happen-late s n completion h)) (happen_all-run s hs h)

-- From a system whose cache entries, state and buffers hold only events of their own threads, with
-- the earlier effects cleaned up: if every event that is delivered to the effect that started last, or
-- loaded for it, belongs to its thread, and no update waits for a render where an effect starts, then
-- the events that the hook returns for a thread all belong to that thread, whatever the order of
-- renders, starts, deliveries and ends of loads, deliveries between a render for another thread and
-- the start of its effect included, and whatever the loads of earlier effects bring.
pub happen_all-All :
    (P : String → EventRecord → Type 0) (c : Collation) (eager : Bool) (s : Mounted)
    (hs : List Happening) (t : String)
    → All IsCleanedUp s.earlier
    → IsIsolated P s.system
    → IsOwnRun P c eager s.system (actions_now hs)
    → StartsSettled c eager s.system (actions_now hs)
    → All (P t) (visible_state (happen_all c eager s hs).system.world (some t)).events
happen_all-All P c eager s hs t clean isolated own settled =
    subst (λ s'. All (P t) (visible_state s'.world (some t)).events)
      (sym (happen_all-run c eager s hs clean).0)
      (visible_state-All P c eager s.system (actions_now hs) t isolated own settled)
