-- ===== src/Selection/Tests.antt =====
-- Selections among two sources, and the instances of the theorems at them.
use codex_mcp_ui.Common.{String, ◌≡◌, refl, true, false, some, List, [], ◌∷◌}
use codex_mcp_ui.Common.Table.{Table, get}
use codex_mcp_ui.Event.{ClientSource, Session}
use codex_mcp_ui.Event.Samples.{detail}
use codex_mcp_ui.Selection.{has_thread, is_listed, resolve_thread_selection, first_available_thread}
use codex_mcp_ui.Selection.Laws.{
  IsBest, resolve_thread_selection-IsBest, resolve_thread_selection_settles,
}
use codex_mcp_ui.Selection.Workbench.{detail_for_selected_thread, find_source}
use codex_mcp_ui.Selection.Workbench.Shown.{
  IsDetailOf, IsKeyed, detail_for_selected_thread-IsDetailOf,
}

abbrev source : String → ClientSource
source key = record detail.client_source { source_key = key }

abbrev session : String → String → Session
session key thread_id = record detail.session { thread_id = thread_id; source_key = key }

abbrev sources : List ClientSource
sources = source "a" ∷ source "b" ∷ []

abbrev sessions : Table (List Session)
sessions = ("a", []) ∷ ("b", session "b" "t1" ∷ session "b" "t2" ∷ []) ∷ []

selects_first :
    resolve_thread_selection (some "gone") sources sessions
    ≡ record { thread_id = some "t1"; should_write_hash = true }
unfolding resolve_thread_selection is_listed has_thread first_available_thread get
selects_first = refl

selects_hash :
    resolve_thread_selection (some "t2") sources sessions
    ≡ record { thread_id = some "t2"; should_write_hash = false }
unfolding resolve_thread_selection is_listed has_thread first_available_thread get
selects_hash = refl

resolve_thread_selection-IsBest_example :
    (is_listed sources sessions (some "gone") ≡ true
      → (resolve_thread_selection (some "gone") sources sessions).thread_id ≡ some "gone")
    × IsBest sources sessions (resolve_thread_selection (some "gone") sources sessions).thread_id
resolve_thread_selection-IsBest_example =
    resolve_thread_selection-IsBest (some "gone") sources sessions

resolve_thread_selection_settles_example :
    resolve_thread_selection
      (resolve_thread_selection (some "gone") sources sessions).thread_id
      sources
      sessions
    ≡ record {
      thread_id = (resolve_thread_selection (some "gone") sources sessions).thread_id;
      should_write_hash = false;
    }
resolve_thread_selection_settles_example =
    resolve_thread_selection_settles (some "gone") sources sessions

detail_for_selected_thread-IsDetailOf_example :
    IsDetailOf "t2" (detail_for_selected_thread (some "t2") sources sessions (some detail) [])
detail_for_selected_thread-IsDetailOf_example =
    detail_for_selected_thread-IsDetailOf "t2" sources sessions (some detail) []

sessions-IsKeyed : IsKeyed sources sessions
unfolding find_source
sessions-IsKeyed = ((refl, tt), ((refl, (refl, (refl, tt))), tt))

t2_listed : has_thread sources sessions "t2" ≡ true
unfolding has_thread get
t2_listed = refl
