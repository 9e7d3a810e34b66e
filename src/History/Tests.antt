-- ===== src/History/Tests.antt =====
-- Runs of the history's code, and the instances of its theorems at them.
use mathlib.Core.List.{flatten}
use codex_mcp_ui.Common.{
  ℕ, zero, suc, String, ◌≡◌, ◌≢◌, ◌↔◌, refl, Bool, true, false, Option, none, some, List, [], ◌∷◌,
  ◌++◌, map, All, arith,
}
use codex_mcp_ui.Common.Sort.{IsSorted}
use codex_mcp_ui.Collation.CodePoints.{
  by_code_points, by_code_points-IsCollation, by_code_points-strict,
}
use codex_mcp_ui.Event.{EventRecord, PaginatedEventsResponse}
use codex_mcp_ui.Event.Samples.{e1, e2, e3, e4}
use codex_mcp_ui.Result.{Thrown, ok, throw}
use codex_mcp_ui.History.Merge.{compare_events, merge_session_events}
use codex_mcp_ui.History.Merge.Ids.{find_event}
use codex_mcp_ui.History.Merge.Order.{IsMerge, merge_session_events-IsMerge_iff, merge-eq_iff}
use codex_mcp_ui.History.Merge.Abstract.{received, receive, view, view-receive}
use codex_mcp_ui.History.Load.{EventsPage, load_session_history}
use codex_mcp_ui.History.Load.Laws.{Offers, Fails, load_session_history_offered}

-- Three collections; two of them hold the event 2.
abbrev collections : List (List EventRecord)
collections = (e3 ∷ e2 ∷ []) ∷ (e1 ∷ []) ∷ (e2 ∷ []) ∷ []

merged_once : merge_session_events by_code_points collections ≡ e1 ∷ e2 ∷ e3 ∷ []
unfolding merge_session_events codex_mcp_ui.History.Merge.add_collections
    codex_mcp_ui.History.Merge.add_events codex_mcp_ui.History.Merge.compare_events
    codex_mcp_ui.Common.Sort.sort codex_mcp_ui.Common.Table.has codex_mcp_ui.Common.Table.set
merged_once = refl

merge-eq_iff_example :
    (merge_session_events by_code_points ((e1 ∷ []) ∷ (e2 ∷ []) ∷ [])
      ≡ merge_session_events by_code_points ((e2 ∷ e1 ∷ []) ∷ []))
    ↔ ((id : String)
        → find_event id (flatten ((e1 ∷ []) ∷ (e2 ∷ []) ∷ []))
          ≡ find_event id (flatten ((e2 ∷ e1 ∷ []) ∷ [])))
merge-eq_iff_example =
    merge-eq_iff by_code_points by_code_points-IsCollation by_code_points-strict
      ((e1 ∷ []) ∷ (e2 ∷ []) ∷ []) ((e2 ∷ e1 ∷ []) ∷ [])

abbrev page : List EventRecord → Option String → PaginatedEventsResponse
page items next_cursor = record { items = items; next_cursor = next_cursor }

-- A server with two pages.
abbrev two_pages : EventsPage
two_pages zero thread_id options = ok (page (e1 ∷ []) (some "next"))
two_pages (suc calls) thread_id options = ok (page (e2 ∷ []) none)

two_pages-Offers : Offers two_pages "thread" 0 none 2 (e1 ∷ e2 ∷ [])
two_pages-Offers = Offers.more refl refl (Offers.last refl refl)

load_session_history_offered_example :
    load_session_history by_code_points two_pages 2 "thread" (e3 ∷ e2 ∷ [])
    ≡ some (ok (merge_session_events by_code_points ((e1 ∷ e2 ∷ []) ∷ (e3 ∷ e2 ∷ []) ∷ [])))
load_session_history_offered_example =
    load_session_history_offered two_pages "thread" by_code_points 2 (e3 ∷ e2 ∷ []) two_pages-Offers
      (omega arith)

-- A server that fails after one page.
abbrev failing : EventsPage
failing zero thread_id options = ok (page (e1 ∷ []) (some "next"))
failing (suc calls) thread_id options = throw (Thrown.error "HTTP 500")

failing-Fails : Fails failing "thread" (Thrown.error "HTTP 500") 0 none 1
failing-Fails = Fails.later refl refl (Fails.now refl)

view-receive_example :
    ((view by_code_points by_code_points-IsCollation by_code_points-strict (received collections)
        ≡ view by_code_points by_code_points-IsCollation by_code_points-strict
            (received ((e1 ∷ e2 ∷ []) ∷ (e3 ∷ []) ∷ [])))
      ↔ (received collections ≡ received ((e1 ∷ e2 ∷ []) ∷ (e3 ∷ []) ∷ [])))
    × (view by_code_points by_code_points-IsCollation by_code_points-strict
          (receive ((e4 ∷ []) ∷ []) (received collections))
        ≡ merge_session_events by_code_points (
            view by_code_points by_code_points-IsCollation by_code_points-strict
              (received collections)
            ∷ (e4 ∷ [])
            ∷ []))
view-receive_example =
    view-receive by_code_points by_code_points-IsCollation by_code_points-strict
      (received collections) (received ((e1 ∷ e2 ∷ []) ∷ (e3 ∷ []) ∷ [])) ((e4 ∷ []) ∷ [])

merge_session_events-IsMerge_iff_example :
    (e1 ∷ e2 ∷ e3 ∷ [] ≡ merge_session_events by_code_points collections)
    ↔ IsMerge by_code_points collections (e1 ∷ e2 ∷ e3 ∷ [])
merge_session_events-IsMerge_iff_example =
    merge_session_events-IsMerge_iff by_code_points by_code_points-IsCollation by_code_points-strict
      collections (e1 ∷ e2 ∷ e3 ∷ [])
