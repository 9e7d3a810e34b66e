-- ===== src/History/Hook/Owned.antt =====
-- What it is for the machine of `useSessionHistory` to hold, for each thread, only its own events.
use codex_mcp_ui.Common.{
  String, ◌≡◌, Option, none, some, List, [], ◌∷◌, All, Bool-cases, Option-cases, inl, inr, is_empty,
}
use codex_mcp_ui.Common.Table.{Table, get, All-set, All-delete, All-get}
use codex_mcp_ui.Event.{EventRecord}
use codex_mcp_ui.History.Hook.{Update, Effect, World, cached, run_update, run_updates, render}
use codex_mcp_ui.History.Hook.Handlers.{System, Action}

-- `P t e`: the event e belongs to the thread t.
module _ (P : String → EventRecord → Type 0) where
  -- Events held for a thread, or for none.
  abbrev pub Owned : Option String → List EventRecord → Type 0
  Owned none events = events ≡ []
  Owned (some t) events = All (P t) events

  abbrev pub OwnedEntry : String × List EventRecord → Type 0
  OwnedEntry entry = All (P entry.0) entry.1

  abbrev pub OwnedUpdate : String → Update → Type 0
  OwnedUpdate t u = (u.thread_id ≡ t) × All (P t) u.next_events

  -- The world holds only what belongs to its threads, and what waits is for the thread t.
  pub record IsClean (t : String) (w : World) : Type 0 where
    pub cache : All OwnedEntry w.history_cache
    pub state : Owned w.state.thread_id w.state.events
    pub ref : All (P t) w.events_ref
    pub queue : All (OwnedUpdate t) w.queue

  pub cached-All :
      (m : Table (List EventRecord)) (t : String) → All OwnedEntry m → All (P t) (cached m t)
  cached-All m t h = elim (Option-cases (get m t)) [
    | inl miss ↦ rw miss tt
    | inr (events, hit) ↦ rw hit (All-get OwnedEntry m t h hit)
  ]

  pub run_update-IsClean :
      (t : String) (w : World) (u : Update)
      → IsClean t w
      → OwnedUpdate t u
      → IsClean t (run_update w u)
  unfolding run_update
  run_update-IsClean t w u h (e, owned) =
      let mine : All (P u.thread_id) u.next_events = rw e owned in
      record {
        cache = elim (Bool-cases (is_empty u.next_events)) [
          | inl gone ↦ rw gone (All-delete OwnedEntry w.history_cache u.thread_id h.cache)
          | inr there ↦
              rw there (All-set OwnedEntry w.history_cache u.thread_id u.next_events h.cache mine)
        ];
        state = mine;
        ref = owned;
        queue = h.queue;
      }

  pub run_updates-IsClean :
      (t : String) (w : World) (us : List Update)
      → IsClean t w
      → All (OwnedUpdate t) us
      → IsClean t (run_updates w us)
  unfolding run_updates
  run_updates-IsClean t w [] h k = h
  run_updates-IsClean t w (u ∷ us) h k =
      run_updates-IsClean t (run_update w u) us (run_update-IsClean t w u h k.0) k.1

  pub render-IsClean : (t : String) (w : World) → IsClean t w → IsClean t (render w)
  unfolding render
  render-IsClean t w h =
      let after = run_updates-IsClean t w w.queue h h.queue in
      record { cache = after.cache; state = after.state; ref = after.ref; queue = tt }

  -- What the machine holds, with no effect or with the effect of a thread.
  abbrev pub IsIsolatedBy : Option Effect → World → Type 0
  IsIsolatedBy none w =
      All OwnedEntry w.history_cache × Owned w.state.thread_id w.state.events × (w.queue ≡ [])
  IsIsolatedBy (some ef) w =
      IsClean ef.thread_id w
      × All (P ef.thread_id) ef.cached_events
      × All (P ef.thread_id) ef.buffered_events

  abbrev pub IsIsolated : System → Type 0
  IsIsolated s = IsIsolatedBy s.effect s.world

  -- The stream and the pages of a thread hold events of that thread alone.
  abbrev pub IsOwnAction : Option Effect → Action → Type 0
  IsOwnAction (some ef) (Action.event e) = P ef.thread_id e
  IsOwnAction (some ef) (Action.loaded es) = All (P ef.thread_id) es
  IsOwnAction _ _ = Unit
