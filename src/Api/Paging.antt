-- ===== src/Api/Paging.antt =====
-- Loading a history through the API: what each request asks for, and a request that fails.
use codex_mcp_ui.Common.{
  ℕ, suc, ◌≤◌, String, ◌≡◌, refl, sym, ap, ◌∙◌, Bool, true, false, Bool-cases, inl, inr, Option,
  none, some, List, [], ◌∷◌, ◌==◌, truthy, if◌then◌else◌, if_both, arith,
}
use codex_mcp_ui.Common.Table.{get, set}
use codex_mcp_ui.Common.Text.{append}
use codex_mcp_ui.Collation.{Collation}
use codex_mcp_ui.Event.{EventRecord, PaginatedEventsResponse}
use codex_mcp_ui.History.Load.{page_options, load_session_history}
use codex_mcp_ui.History.Load.Laws.{Fails, load_session_history-Fails}
use codex_mcp_ui.Result.{ok, throw}
use codex_mcp_ui.Stream.Query.{given}
use codex_mcp_ui.Api.{
  Response, Fetch, api_base, request_failed, read_response, get_json, UrlCoding, events_query,
  events_path, api_events_page,
}

-- The cursor of a request, as the server reads it.
cursor_of : (o : Option String) → get (events_query (page_options o)) "cursor" ≡ given o
unfolding events_query get set codex_mcp_ui.Common.Text.decimal
cursor_of none = refl
cursor_of (some cursor) = elim (Bool-cases (truthy cursor)) [
  | inl there ↦ rw (there, there) refl
  | inr blank ↦ rw blank refl
]

limit_of : (o : Option String) → get (events_query (page_options o)) "limit" ≡ some "500"
unfolding events_query get set codex_mcp_ui.Common.Text.decimal
limit_of none = refl
limit_of (some cursor) = elim (Bool-cases (truthy cursor)) [
  | inl there ↦ rw (there, there) refl
  | inr blank ↦ rw blank refl
]

-- A request for a page asks for 500 events, and for those after the cursor exactly if it is there
-- and not empty.
pub events_query-page_options :
    (o : Option String)
    → (get (events_query (page_options o)) "limit" ≡ some "500")
      × (get (events_query (page_options o)) "cursor" ≡ given o)
events_query-page_options o = (limit_of o, cursor_of o)

-- If the server answers the first request with an error status, then loading the history throws an
-- error that names the status and its text, whatever the answer's body is.
pub load_session_history-request_failed :
    (c : Collation) (coding : UrlCoding) (fetch : Fetch PaginatedEventsResponse) (fuel : ℕ)
    (thread_id : String) (buffered : List EventRecord) (res : Response PaginatedEventsResponse)
    → fetch 0 (append api_base (events_path coding thread_id (page_options none))) ≡ ok res
    → res.ok_ ≡ false
    → 1 ≤ fuel
    → load_session_history c (api_events_page coding fetch) fuel thread_id buffered
      ≡ some (throw (request_failed res))
unfolding api_events_page get_json
load_session_history-request_failed c coding fetch fuel thread_id buffered res answer bad h =
    load_session_history-Fails (api_events_page coding fetch) thread_id c fuel buffered
      (Fails.now (ap read_response answer ∙ rw bad refl)) h
