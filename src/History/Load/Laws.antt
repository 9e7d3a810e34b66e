-- ===== src/History/Load/Laws.antt =====
-- The loop of `loadSessionHistory` against the chain of pages that the server offers.
use mathlib.Core.List.{append_assoc}
use codex_mcp_ui.Common.{
  ℕ, zero, suc, ◌+◌, ◌≤◌, String, ◌≡◌, true, false, Option, none, some, List, [], ◌∷◌, ◌++◌, arith,
}
use codex_mcp_ui.Collation.{Collation}
use codex_mcp_ui.Event.{EventRecord, PaginatedEventsResponse}
use codex_mcp_ui.History.Merge.{merge_session_events}
use codex_mcp_ui.Result.{Thrown, ok, throw}
use codex_mcp_ui.History.Load.{
  EventsPage, has_cursor, page_options, load_pages, load_session_history,
}

-- From the call with the number and a cursor on, the server offers so many pages with these
-- events, and then no cursor.
pub data Offers (events_page : EventsPage) (thread_id : String)
    : ℕ → Option String → ℕ → List EventRecord → Type 0 where
  last :
      {calls : ℕ} {cursor : Option String} {page : PaginatedEventsResponse}
      → events_page calls thread_id (page_options cursor) ≡ ok page
      → has_cursor page.next_cursor ≡ false
      → Offers events_page thread_id calls cursor 1 page.items
  more :
      {calls k : ℕ} {cursor : Option String} {page : PaginatedEventsResponse}
      {rest : List EventRecord}
      → events_page calls thread_id (page_options cursor) ≡ ok page
      → has_cursor page.next_cursor ≡ true
      → Offers events_page thread_id (calls + 1) page.next_cursor k rest
      → Offers events_page thread_id calls cursor (suc k) (page.items ++ rest)

-- So many pages arrive, and the request after them throws.
pub data Fails (events_page : EventsPage) (thread_id : String) (e : Thrown)
    : ℕ → Option String → ℕ → Type 0 where
  now :
      {calls : ℕ} {cursor : Option String}
      → events_page calls thread_id (page_options cursor) ≡ throw e
      → Fails events_page thread_id e calls cursor 0
  later :
      {calls k : ℕ} {cursor : Option String} {page : PaginatedEventsResponse}
      → events_page calls thread_id (page_options cursor) ≡ ok page
      → has_cursor page.next_cursor ≡ true
      → Fails events_page thread_id e (calls + 1) page.next_cursor k
      → Fails events_page thread_id e calls cursor (suc k)

module _ (events_page : EventsPage) (thread_id : String) where
  load_pages_offered :
      (fuel : ℕ) {calls k : ℕ} {cursor : Option String} {rest : List EventRecord}
      (persisted : List EventRecord)
      → Offers events_page thread_id calls cursor k rest
      → k ≤ fuel
      → load_pages events_page thread_id fuel calls cursor persisted ≡ some (ok (persisted ++ rest))
  unfolding load_pages
  load_pages_offered zero persisted (last a b) h = absurd (omega arith)
  load_pages_offered zero persisted (more a b o) h = absurd (omega arith)
  load_pages_offered (suc fuel) persisted (last a b) h = ground (arith, a, b)
  load_pages_offered (suc fuel) persisted (more {page = page} {rest = rest} a b o) h = ground (
    arith,
    a,
    b,
    load_pages_offered fuel (persisted ++ page.items) o,
    append_assoc persisted page.items rest,
  )

  load_pages-Fails :
      (fuel : ℕ) {e : Thrown} {calls k : ℕ} {cursor : Option String} (persisted : List EventRecord)
      → Fails events_page thread_id e calls cursor k
      → suc k ≤ fuel
      → load_pages events_page thread_id fuel calls cursor persisted ≡ some (throw e)
  unfolding load_pages
  load_pages-Fails zero persisted f h = absurd (omega arith)
  load_pages-Fails (suc fuel) persisted (now a) h = ground (arith, a)
  load_pages-Fails (suc fuel) persisted (later {page = page} a b f) h =
      ground (arith, a, b, load_pages-Fails fuel (persisted ++ page.items) f)

  -- If the server offers the thread in k pages, then loading with fuel for k requests returns the
  -- merge of all their events with the buffered ones.
  pub load_session_history_offered :
      (c : Collation) (fuel : ℕ) {k : ℕ} {all : List EventRecord} (buffered : List EventRecord)
      → Offers events_page thread_id 0 none k all
      → k ≤ fuel
      → load_session_history c events_page fuel thread_id buffered
        ≡ some (ok (merge_session_events c (all ∷ buffered ∷ [])))
  unfolding load_session_history
  load_session_history_offered c fuel buffered o h = ground (arith, load_pages_offered fuel [] o h)

  -- If k pages arrive and the next request throws, then loading with fuel for k + 1 requests
  -- throws the same value, whatever was buffered or had arrived.
  pub load_session_history-Fails :
      (c : Collation) (fuel : ℕ) {e : Thrown} {k : ℕ} (buffered : List EventRecord)
      → Fails events_page thread_id e 0 none k
      → suc k ≤ fuel
      → load_session_history c events_page fuel thread_id buffered ≡ some (throw e)
  unfolding load_session_history
  load_session_history-Fails c fuel buffered f h = ground (arith, load_pages-Fails fuel [] f h)
