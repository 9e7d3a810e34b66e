-- ===== src/History/Load.antt =====
-- `loadSessionHistory` of web/src/lib/session-history.ts: the pages of a thread, one request after
-- another, merged with what the stream delivered meanwhile.
pub mod Laws
use codex_mcp_ui.Common.{
  ℕ, zero, suc, ◌+◌, String, Bool, true, false, Option, none, some, List, [], ◌∷◌, ◌++◌, truthy,
  if◌then◌else◌,
}
use codex_mcp_ui.Collation.{Collation}
use codex_mcp_ui.Event.{EventRecord, PaginatedEventsResponse}
use codex_mcp_ui.History.Merge.{merge_session_events}
use codex_mcp_ui.Result.{Result, ok, throw}

abbrev pub page_limit : ℕ
page_limit = 500

pub record PageOptions : Type 0 where
  pub limit : ℕ
  pub cursor : Option String

-- The server's answers: to the call with the number, for a thread. Two calls with the same
-- arguments may be answered differently.
abbrev pub EventsPage : Type 0
EventsPage = ℕ → String → PageOptions → Result PaginatedEventsResponse

-- `cursor ? { limit, cursor } : { limit }`, and the test of the loop.
abbrev pub has_cursor : Option String → Bool
has_cursor none = false
has_cursor (some c) = truthy c

abbrev pub page_options : Option String → PageOptions
page_options cursor =
    if has_cursor cursor
    then record { limit = page_limit; cursor = cursor }
    else record { limit = page_limit; cursor = none }

-- The `do` loop, with fuel: `none` means that the fuel ran out.
unfoldable pub load_pages :
    EventsPage
    → String
    → ℕ
    → ℕ
    → Option String
    → List EventRecord
    → Option (Result (List EventRecord))
load_pages events_page thread_id zero calls cursor persisted = none
load_pages events_page thread_id (suc fuel) calls cursor persisted =
    elim (events_page calls thread_id (page_options cursor)) [
      | throw e ↦ some (throw e)
      | ok page ↦ elim (has_cursor page.next_cursor) [
        | true ↦
            load_pages events_page thread_id fuel (calls + 1) page.next_cursor
              (persisted ++ page.items)
        | false ↦ some (ok (persisted ++ page.items))
      ]
    ]

-- The buffered events are read when the last page is there.
abbrev merged : Collation → List EventRecord → Result (List EventRecord) → Result (List EventRecord)
merged c buffered (ok persisted) = ok (merge_session_events c (persisted ∷ buffered ∷ []))
merged c buffered (throw e) = throw e

unfoldable pub load_session_history :
    Collation → EventsPage → ℕ → String → List EventRecord → Option (Result (List EventRecord))
load_session_history c events_page fuel thread_id buffered =
    elim (load_pages events_page thread_id fuel 0 none []) [
      | none ↦ none
      | some r ↦ some (merged c buffered r)
    ]
