-- ===== src/Api.antt =====
-- web/src/lib/api.ts: the requests of the client.
pub mod Paging
mod Tests
use codex_mcp_ui.Common.{
  ℕ, String, Bool, true, false, Option, none, some, List, [], ◌∷◌, if◌then◌else◌, nat_eq,
}
use codex_mcp_ui.Common.Table.{Table, set}
use codex_mcp_ui.Common.Text.{append, decimal}
use codex_mcp_ui.Event.{ClientSource, Session, SessionDetail, PaginatedEventsResponse}
use codex_mcp_ui.History.Load.{PageOptions, EventsPage}
use codex_mcp_ui.Result.{Result, Thrown, ok, throw}
use codex_mcp_ui.Stream.{set_given, with_query}

abbrev pub api_base : String
api_base = "/api/v1"

-- An answer of the server, and what its body parses to.
pub record Response {ℓ} (T : Type ℓ) : Type ℓ where
  pub ok_ : Bool
  pub status : ℕ
  pub status_text : String
  pub body : Result T

-- `fetch`, at the call with the number, for a URL.
abbrev pub Fetch {ℓ} : Type ℓ → Type ℓ
Fetch T = ℕ → String → Result (Response T)

abbrev pub request_failed {ℓ} : {T : Type ℓ} → Response T → Thrown
request_failed res =
    Thrown.error
      (append "request failed: " (append (decimal res.status) (append " " res.status_text)))

abbrev pub read_response {ℓ} : {T : Type ℓ} → Result (Response T) → Result T
read_response (throw e) = throw e
read_response (ok res) = if res.ok_ then res.body else throw (request_failed res)

unfoldable pub get_json {ℓ} : {T : Type ℓ} → Fetch T → ℕ → String → Result T
get_json fetch call path = read_response (fetch call (append api_base path))

-- `encodeURIComponent`, and `URLSearchParams.toString`.
pub record UrlCoding : Type 0 where
  pub encode : String → String
  pub to_string : Table String → String

abbrev pub set_limit : Table String → ℕ → Table String
set_limit qs limit = if nat_eq limit 0 then qs else set qs "limit" (decimal limit)

unfoldable pub events_query : PageOptions → Table String
events_query opts = set_given (set_limit [] opts.limit) "cursor" opts.cursor

abbrev pub client_sources_path : String
client_sources_path = "/client-sources"

unfoldable pub sessions_path : UrlCoding → String → String
sessions_path coding source_key =
    append "/client-sources/" (append (coding.encode source_key) "/sessions")

unfoldable pub session_path : UrlCoding → String → String
session_path coding thread_id = append "/sessions/" (coding.encode thread_id)

unfoldable pub events_path : UrlCoding → String → PageOptions → String
events_path coding thread_id opts = append "/sessions/" (
    append (coding.encode thread_id)
      (append "/events" (with_query coding.to_string (events_query opts))))

-- `api.eventsPage`, as the history loads its pages.
unfoldable pub api_events_page : UrlCoding → Fetch PaginatedEventsResponse → EventsPage
api_events_page coding fetch call thread_id opts =
    get_json fetch call (events_path coding thread_id opts)
