-- ===== src/Api/Tests.antt =====
-- Requests, and the instances of the theorems at them.
use codex_mcp_ui.Common.{◌≡◌, refl, false, none, some}
use codex_mcp_ui.Common.Table.{get, set}
use codex_mcp_ui.Event.{PaginatedEventsResponse}
use codex_mcp_ui.History.Load.{page_options}
use codex_mcp_ui.Result.{Thrown, ok, throw}
use codex_mcp_ui.Api.{Response, Fetch, UrlCoding, events_query, events_path}
use codex_mcp_ui.Api.Paging.{events_query-page_options}

-- A coding that leaves ids as they are and knows one query.
abbrev coding : UrlCoding
coding = record { encode = λ t. t; to_string = λ qs. "limit=500" }

url : events_path coding "t1" (page_options none) ≡ "/sessions/t1/events?limit=500"
unfolding events_path events_query set
url = refl

abbrev refusal : Response PaginatedEventsResponse
refusal = record {
  ok_ = false;
  status = 404;
  status_text = "Not Found";
  body = throw (Thrown.error "Unexpected token");
}

abbrev refusing : Fetch PaginatedEventsResponse
refusing call path = ok refusal

events_query-page_options_example :
    (get (events_query (page_options (some "next"))) "limit" ≡ some "500")
    × (get (events_query (page_options (some "next"))) "cursor" ≡ some "next")
events_query-page_options_example = events_query-page_options (some "next")
