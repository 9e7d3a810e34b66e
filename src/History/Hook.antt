-- ===== src/History/Hook.antt =====
-- `useSessionHistory` of web/src/lib/session-history.ts as a state machine: the module's cache,
-- the hook's state and references, and the effect of the selected thread. React runs a functional
-- update of the state when it renders; it may run one at once while none waits (`eager`).
pub mod Handlers
pub mod Owned
pub mod Isolation
pub mod Live
pub mod Burst
pub mod Handoff
pub mod Effects
mod Gap
mod Refresh
pub mod Samples
mod Tests
use codex_mcp_ui.Common.{
  ℕ, ◌+◌, String, Bool, true, false, not, ◌&&◌, Option, none, some, List, [], ◌∷◌, ◌++◌, ◌==◌,
  truthy, if◌then◌else◌, value_or, is_empty,
}
use codex_mcp_ui.Common.Table.{Table, get, set, delete}
use codex_mcp_ui.Event.{EventRecord}
use codex_mcp_ui.History.Merge.{same_event_ids}

pub data SessionHistoryStatus : Type 0 where
  idle loading ready failed : SessionHistoryStatus

pub record SessionHistoryState : Type 0 where
  pub events : List EventRecord
  pub status : SessionHistoryStatus
  pub error : Option String
  pub refresh_key : ℕ

pub record InternalState : Type 0 where
  pub thread_id : Option String
  pub events : List EventRecord
  pub status : SessionHistoryStatus
  pub error : Option String
  pub refresh_key : ℕ

abbrev pub initial_state : InternalState
initial_state = record {
  thread_id = none;
  events = [];
  status = idle;
  error = none;
  refresh_key = 0;
}

-- The arguments of `updateEvents`, with the thread of the effect that called it.
pub record Update : Type 0 where
  pub thread_id : String
  pub next_events : List EventRecord
  pub next_status : SessionHistoryStatus
  pub next_error : Option String

-- The variables that the effect's closures share.
pub record Effect : Type 0 where
  pub thread_id : String
  pub cached_events : List EventRecord
  pub buffered_events : List EventRecord
  pub handoff_complete : Bool
  pub cancelled : Bool

-- `queue` holds the updates that wait for the next render; `unrendered` says that an update was
-- made since the last one.
pub record World : Type 0 where
  pub history_cache : Table (List EventRecord)
  pub state : InternalState
  pub refresh_counter : ℕ
  pub events_ref : List EventRecord
  pub queue : List Update
  pub unrendered : Bool

-- The empty text and `null` are both falsy.
abbrev pub selected : Option String → Option String
selected none = none
selected (some t) = if truthy t then some t else none

abbrev pub cached : Table (List EventRecord) → String → List EventRecord
cached history_cache thread_id = value_or (get history_cache thread_id) []

-- `initialThreadState`, for a thread id that is present and not empty, or for none.
abbrev pub initial_for : Table (List EventRecord) → ℕ → Option String → InternalState
initial_for history_cache key none = record initial_state { refresh_key = key }
initial_for history_cache key (some t) = record {
  thread_id = some t;
  events = cached history_cache t;
  status = loading;
  error = none;
  refresh_key = key;
}

unfoldable pub initial_thread_state : Table (List EventRecord) → Option String → ℕ → InternalState
initial_thread_state history_cache thread_id key =
    initial_for history_cache key (selected thread_id)

abbrev pub public_state : InternalState → SessionHistoryState
public_state state = record {
  events = state.events;
  status = state.status;
  error = state.error;
  refresh_key = state.refresh_key;
}

-- `left === right` on a thread id or `null`.
abbrev pub same_thread : Option String → Option String → Bool
same_thread none none = true
same_thread (some a) (some b) = a == b
same_thread _ _ = false

-- What the hook returns when it is rendered for a thread.
unfoldable pub visible_state : World → Option String → SessionHistoryState
visible_state w thread_id = public_state (
    if same_thread w.state.thread_id thread_id
    then w.state
    else initial_thread_state w.history_cache thread_id w.state.refresh_key)

-- The function that `updateEvents` hands to `setState`.
unfoldable pub run_update : World → Update → World
run_update w u =
    let previous_events =
      if same_thread w.state.thread_id (some u.thread_id)
      then w.state.events
      else cached w.history_cache u.thread_id in
    let changed = not (same_event_ids previous_events u.next_events) in
    let counter = if changed then w.refresh_counter + 1 else w.refresh_counter in
    record w {
      refresh_counter = counter;
      events_ref = u.next_events;
      history_cache =
          if is_empty u.next_events
          then delete w.history_cache u.thread_id
          else set w.history_cache u.thread_id u.next_events;
      state = record {
        thread_id = some u.thread_id;
        events = u.next_events;
        status = u.next_status;
        error = u.next_error;
        refresh_key = if changed then counter else w.state.refresh_key;
      };
    }

unfoldable pub run_updates : World → List Update → World
run_updates w [] = w
run_updates w (u ∷ us) = run_updates (run_update w u) us

-- A render runs the updates that wait, in their order.
unfoldable pub render : World → World
render w = record (run_updates w w.queue) { queue = []; unrendered = false }
