-- ===== src/View/Live.antt =====
-- `LiveSessionWorkbench` of web/src/components/workbench/session-workbench.tsx, with the settings of
-- web/src/lib/query-client.ts: the queries and what the page is given of them. The query library is a
-- parameter: what it says of each query.
pub mod Fingerprint
pub mod Shown
use codex_mcp_ui.Common.{
  ℕ, String, Bool, true, false, not, Option, none, some, List, [], ◌∷◌, map, truthy, value_or,
  is_empty, if◌then◌else◌,
}
use codex_mcp_ui.Common.Table.{Table, set}
use codex_mcp_ui.Common.Text.{join}
use codex_mcp_ui.Event.{ClientSource, Session, SessionDetail}
use codex_mcp_ui.Result.{Result, Thrown, ok, throw, error, other}
use codex_mcp_ui.Selection.{resolve_thread_selection, is_given}
use codex_mcp_ui.Selection.Workbench.{Query, sidebar_state}
use codex_mcp_ui.View.Page.{SessionWorkbenchProps}

-- What the library says of a query.
pub record QueryResult (A : Type 0) : Type 0 where
  pub value : Option A
  pub is_pending : Bool
  pub is_error : Bool
  pub failure : Option Thrown

-- A query, by its key: whether it runs, and how often it is asked again, in milliseconds.
pub record QueryOptions : Type 0 where
  pub query_key : List (Option String)
  pub enabled : Bool
  pub refetch_interval : ℕ

pub record QueryDefaults : Type 0 where
  pub stale_time : ℕ
  pub refetch_on_window_focus : Bool
  pub retry : ℕ

abbrev pub query_client : QueryDefaults
query_client = record { stale_time = 5000; refetch_on_window_focus = false; retry = 1 }

abbrev pub session_detail_refetch_interval : ℕ
session_detail_refetch_interval = 15000

unfoldable pub source_keys_fingerprint : List ClientSource → String
source_keys_fingerprint sources =
    join (map (λ (source : ClientSource). source.source_key) sources) "|"

unfoldable pub sources_query_options : QueryOptions
sources_query_options = record {
  query_key = some "client-sources" ∷ [];
  enabled = true;
  refetch_interval = 10000;
}

unfoldable pub sessions_query_options : List ClientSource → QueryOptions
sessions_query_options sources = record {
  query_key = some "sessions-by-source" ∷ some (source_keys_fingerprint sources) ∷ [];
  enabled = not (is_empty sources);
  refetch_interval = 15000;
}

unfoldable pub session_query_options : Option String → QueryOptions
session_query_options thread_id = record {
  query_key = some "session" ∷ thread_id ∷ [];
  enabled = is_given thread_id;
  refetch_interval = session_detail_refetch_interval;
}

-- `Promise.all` of the requests, each with what it came to: a table if none failed. Which failure
-- the promise is rejected with, where several requests fail, is the one that came first in time;
-- here it is the first in the order of the sources, of which nothing depends on more than that
-- there is one.
abbrev pub with_entry :
    String
    → Result (List Session)
    → Result (List (String × List Session))
    → Result (List (String × List Session))
with_entry key (ok items) (ok entries) = ok ((key, items) ∷ entries)
with_entry key (ok items) (throw e) = throw e
with_entry key (throw e) entries = throw e

unfoldable pub session_entries :
    (String → Result (List Session)) → List ClientSource → Result (List (String × List Session))
session_entries sessions_for_source [] = ok []
session_entries sessions_for_source (source ∷ sources) =
    with_entry source.source_key (sessions_for_source source.source_key)
      (session_entries sessions_for_source sources)

-- `Object.fromEntries`.
unfoldable pub from_entries :
    Table (List Session) → List (String × List Session) → Table (List Session)
from_entries m [] = m
from_entries m ((key, items) ∷ entries) = from_entries (set m key items) entries

abbrev pub entries_table : Result (List (String × List Session)) → Result (Table (List Session))
entries_table (ok entries) = ok (from_entries [] entries)
entries_table (throw e) = throw e

-- The function of the query for the sessions.
unfoldable pub fetch_sessions :
    (String → Result (List Session)) → List ClientSource → Result (Table (List Session))
fetch_sessions sessions_for_source sources =
    entries_table (session_entries sessions_for_source sources)

-- `sessionQuery.error instanceof Error ? sessionQuery.error : null`.
abbrev error_message : Option Thrown → Option String
error_message (some (error message)) = some message
error_message _ = none

abbrev query_of : {A : Type 0} → QueryResult A → Query
query_of q = record { is_pending = q.is_pending; is_error = q.is_error }

-- The thread that the query for the detail asks for.
unfoldable pub queried_thread_id :
    Option String
    → QueryResult (List ClientSource)
    → QueryResult (Table (List Session))
    → Option String
queried_thread_id hash_thread_id sources_query sessions_query =
    (resolve_thread_selection hash_thread_id (value_or sources_query.value [])
      (value_or sessions_query.value [])).thread_id

-- The properties of the page.
unfoldable pub live_session_workbench :
    Option String
    → QueryResult (List ClientSource)
    → QueryResult (Table (List Session))
    → QueryResult SessionDetail
    → SessionWorkbenchProps
live_session_workbench hash_thread_id sources_query sessions_query session_query =
    let sources = value_or sources_query.value [] in
    record {
      sources = sources;
      sessions_by_source = value_or sessions_query.value [];
      hash_thread_id = hash_thread_id;
      session_detail = session_query.value;
      session_detail_error = error_message session_query.failure;
      can_retry_session_detail = true;
      sidebar_state =
          some (sidebar_state (query_of sources_query) sources (query_of sessions_query));
      can_retry = true;
    }
