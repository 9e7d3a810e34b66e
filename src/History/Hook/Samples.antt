-- ===== src/History/Hook/Samples.antt =====
-- States of the hook, for the tests.
use codex_mcp_ui.Common.{
  ℕ, zero, suc, String, ◌≡◌, ◌≢◌, refl, Bool, true, false, Option, none, some, List, [], ◌∷◌, ◌++◌,
  All, arith, eq_iff,
}
use codex_mcp_ui.Collation.CodePoints.{by_code_points}
use codex_mcp_ui.Event.Samples.{e1}
use codex_mcp_ui.History.Merge.{merge_session_events}
use codex_mcp_ui.History.Hook.{World, Effect, initial_state, InternalState, ready}
use codex_mcp_ui.History.Hook.Live.{IsSettled}

-- The hook before its first effect.
abbrev pub fresh : World
fresh = record {
  history_cache = [];
  state = initial_state;
  refresh_counter = 0;
  events_ref = [];
  queue = [];
  unrendered = false;
}

-- The effect of a thread of which one event was cached.
abbrev pub starting : Effect
starting = record {
  thread_id = "thread";
  cached_events = e1 ∷ [];
  buffered_events = [];
  handoff_complete = false;
  cancelled = false;
}

-- The hook after its load, with one event.
abbrev pub live_state : InternalState
live_state = record {
  thread_id = some "thread";
  events = e1 ∷ [];
  status = ready;
  error = none;
  refresh_key = 1;
}

abbrev pub live : World
live = record {
  history_cache = ("thread", e1 ∷ []) ∷ [];
  state = live_state;
  refresh_counter = 1;
  events_ref = e1 ∷ [];
  queue = [];
  unrendered = false;
}

abbrev pub over : Effect
over = record starting { handoff_complete = true }

pub live-IsSettled : IsSettled live
live-IsSettled = record { queue = refl; rendered = refl; ref = refl }

pub merged_alone : e1 ∷ [] ≡ merge_session_events by_code_points ((e1 ∷ []) ∷ [])
unfolding merge_session_events codex_mcp_ui.History.Merge.add_collections
    codex_mcp_ui.History.Merge.add_events codex_mcp_ui.Common.Sort.sort
    codex_mcp_ui.Common.Table.has codex_mcp_ui.Common.Table.set
merged_alone = refl
