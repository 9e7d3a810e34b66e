-- ===== src/Selection/Workbench.antt =====
-- The selection of web/src/components/workbench/session-workbench.tsx: the session, its source and
-- its detail for the selected thread, and the state of the sidebar.
pub mod Shown
use codex_mcp_ui.Common.{
  String, Bool, true, false, ◌&&◌, ◌||◌, not, Option, none, some, List, [], ◌∷◌, ◌==◌, truthy,
  is_empty, if◌then◌else◌,
}
use codex_mcp_ui.Common.Table.{Table, values}
use codex_mcp_ui.Event.{ClientSource, Session, EventRecord, SessionDetail}

-- `sessions.find(item => item.thread_id === threadId)`.
abbrev pub find_session : String → List Session → Option Session
find_session thread_id [] = none
find_session thread_id (session ∷ sessions) =
    let later = find_session thread_id sessions in
    if session.thread_id == thread_id then some session else later

-- The loop over `Object.values(sessionsBySource)`.
unfoldable pub find_in_all : String → List (List Session) → Option Session
find_in_all thread_id [] = none
find_in_all thread_id (sessions ∷ rest) = elim (find_session thread_id sessions) [
  | some session ↦ some session
  | none ↦ find_in_all thread_id rest
]

-- `sessionDetail?.session.thread_id === threadId`.
abbrev pub is_detail_of : String → Option SessionDetail → Bool
is_detail_of thread_id none = false
is_detail_of thread_id (some detail) = detail.session.thread_id == thread_id

abbrev pub session_of_detail : String → Option SessionDetail → Option Session → Option Session
session_of_detail thread_id none otherwise = otherwise
session_of_detail thread_id (some detail) otherwise =
    if detail.session.thread_id == thread_id then some detail.session else otherwise

unfoldable pub resolve_selected_session :
    Option String → Table (List Session) → Option SessionDetail → Option Session
resolve_selected_session none sessions_by_source session_detail = none
resolve_selected_session (some thread_id) sessions_by_source session_detail =
    if truthy thread_id
    then session_of_detail thread_id session_detail
        (find_in_all thread_id (values sessions_by_source))
    else none

-- `sources.find(source => source.source_key === session.source_key) ?? null`.
unfoldable pub find_source : String → List ClientSource → Option ClientSource
find_source key [] = none
find_source key (source ∷ sources) =
    let later = find_source key sources in if source.source_key == key then some source else later

unfoldable pub resolve_selected_source :
    Option SessionDetail → Option Session → List ClientSource → Option ClientSource
resolve_selected_source session_detail none sources = none
resolve_selected_source none (some session) sources = find_source session.source_key sources
resolve_selected_source (some detail) (some session) sources =
    if detail.session.thread_id == session.thread_id
    then some detail.client_source
    else find_source session.source_key sources

abbrev pub detail_of :
    Option Session → Option ClientSource → List EventRecord → Option SessionDetail
detail_of (some session) (some source) events =
    some (record { session = session; client_source = source; recent_events = events })
detail_of _ _ events = none

-- `sessionDetail`, if it is the selected thread's.
abbrev pub detail_or : String → Option SessionDetail → Option SessionDetail → Option SessionDetail
detail_or thread_id none otherwise = otherwise
detail_or thread_id (some detail) otherwise =
    if detail.session.thread_id == thread_id then some detail else otherwise

unfoldable pub detail_for_selected_thread :
    Option String
    → List ClientSource
    → Table (List Session)
    → Option SessionDetail
    → List EventRecord
    → Option SessionDetail
detail_for_selected_thread none sources sessions_by_source session_detail events = none
detail_for_selected_thread (some thread_id) sources sessions_by_source session_detail events =
    let session = resolve_selected_session (some thread_id) sessions_by_source session_detail in
    let source = resolve_selected_source session_detail session sources in
    if truthy thread_id
    then detail_or thread_id session_detail (detail_of session source events)
    else none

pub data SidebarState : Type 0 where
  loading failed empty ready : SidebarState

-- What a query of the query library says of itself.
pub record Query : Type 0 where
  pub is_pending : Bool
  pub is_error : Bool

unfoldable pub sidebar_state : Query → List ClientSource → Query → SidebarState
sidebar_state sources_query sources sessions_query =
    if sources_query.is_pending || (not (is_empty sources) && sessions_query.is_pending)
    then loading
    else if sources_query.is_error || sessions_query.is_error
    then failed
    else if is_empty sources
    then empty
    else ready
