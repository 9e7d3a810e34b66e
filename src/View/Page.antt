-- ===== src/View/Page.antt =====
-- `SessionWorkbench` and `SidebarPane` of web/src/components/workbench/session-workbench.tsx: the whole
-- page for what the queries and the hook of the history gave.
use codex_mcp_ui.Common.{
  ℕ, String, Bool, ◌&&◌, Option, none, some, List, [], ◌∷◌, ◌++◌, map, truthy, is_empty,
  if◌then◌else◌,
}
use codex_mcp_ui.Common.Table.{Table}
use codex_mcp_ui.Collation.{Collation}
use codex_mcp_ui.Event.{ClientSource, Session, EventRecord, SessionDetail}
use codex_mcp_ui.History.Hook.{SessionHistoryState}
use codex_mcp_ui.Markup.{Node, el, when, text, does}
use codex_mcp_ui.Projection.Access.{Decoders}
use codex_mcp_ui.Projection.Parts.{Role}
use codex_mcp_ui.Projection.Thread.{Thread, project_readonly_assistant_thread}
use codex_mcp_ui.Runtime.Messages.{ThreadMessage}
use codex_mcp_ui.Selection.{ThreadSelectionResult, resolve_thread_selection, is_given}
use codex_mcp_ui.Selection.Workbench.{
  SidebarState, loading, failed, empty, ready, resolve_selected_session, resolve_selected_source,
  detail_for_selected_thread,
}
use codex_mcp_ui.View.Messages.{Texts, readonly_assistant_thread}
use codex_mcp_ui.View.Panels.{session_header, metadata_panel}
use codex_mcp_ui.View.RawTable.Rows.{TableState, TableAction, raw_event_table}
use codex_mcp_ui.View.Sidebar.{grouped_thread_sidebar}
use codex_mcp_ui.View.Tabs.{session_conversation_tabs}

-- What the page can be asked to do.
pub data PageAction : Type 0 where
  select_thread : String → PageAction
  retry retry_session_detail : PageAction
  show_tab : String → PageAction
  use_table : TableAction → PageAction

pub record SessionWorkbenchProps : Type 0 where
  pub sources : List ClientSource
  pub sessions_by_source : Table (List Session)
  pub hash_thread_id : Option String
  pub session_detail : Option SessionDetail
  -- The message of the error.
  pub session_detail_error : Option String
  pub can_retry_session_detail : Bool
  pub sidebar_state : Option SidebarState
  pub can_retry : Bool

unfoldable pub sidebar_pane :
    SidebarState → List ClientSource → Table (List Session) → Option String → Bool → Node PageAction
sidebar_pane loading sources sessions selected can_retry =
    el "ul" (("aria-busy", text "true") ∷ [])
      (map (λ (key : String). el "li" (("key", text key) ∷ []) []) ("s1" ∷ "s2" ∷ "s3" ∷ "s4" ∷ []))
sidebar_pane failed sources sessions selected can_retry = el "div" [] (
    el "p" [] (text "Could not load client sources." ∷ [])
    ∷ when can_retry
        (el "button" (("type", text "button") ∷ ("onClick", does retry) ∷ []) (text "Retry" ∷ [])))
sidebar_pane empty sources sessions selected can_retry = el "div" [] (
    el "p" [] (text "No Codex sessions observed yet." ∷ [])
    ∷ el "p" [] (
        text "Launch"
        ∷ text " "
        ∷ el "code" [] (text "codex-mcp-ui --ui-port …" ∷ [])
        ∷ text " "
        ∷ text "from an MCP client and run a turn."
        ∷ [])
    ∷ [])
sidebar_pane ready sources sessions selected can_retry =
    grouped_thread_sidebar select_thread sources sessions selected

abbrev detail_error_bar : Option String → Bool → List (Node PageAction)
detail_error_bar none can_retry = []
detail_error_bar (some message) can_retry =
    el "div" [] (
      el "div" [] (
        el "div" [] (
          el "p" [] (text "Could not refresh session detail." ∷ [])
          ∷ el "p" [] (text message ∷ [])
          ∷ [])
        ∷ when can_retry (
            el "button" (("type", text "button") ∷ ("onClick", does retry_session_detail) ∷ [])
              (text "Retry session detail" ∷ [])))
      ∷ [])
    ∷ []

-- `resolvedSelection`, and what the page derives of it.
unfoldable pub selection_of : SessionWorkbenchProps → ThreadSelectionResult
selection_of props =
    resolve_thread_selection props.hash_thread_id props.sources props.sessions_by_source

-- The effect that writes the hash: the thread that `onSelectThreadId` is called with, if it is.
abbrev writes_of : Bool → Option String → Option String
writes_of should_write none = none
writes_of should_write (some t) = if should_write && truthy t then some t else none

unfoldable pub hash_to_write : SessionWorkbenchProps → Option String
hash_to_write props =
    let selection = selection_of props in writes_of selection.should_write_hash selection.thread_id

abbrev or_derived : Option SidebarState → List ClientSource → SidebarState
or_derived (some state) sources = state
or_derived none sources = if is_empty sources then empty else ready

abbrev selected_session : SessionWorkbenchProps → Option Session
selected_session props =
    resolve_selected_session (selection_of props).thread_id props.sessions_by_source
      props.session_detail

abbrev selected_source : SessionWorkbenchProps → Option ClientSource
selected_source props =
    resolve_selected_source props.session_detail (selected_session props) props.sources

-- `readonlyThread`.
abbrev pub thread_for :
    Collation → Decoders → List EventRecord → Option SessionDetail → Option Thread
thread_for c d events none = none
thread_for c d events (some detail) = some (project_readonly_assistant_thread c d detail events)

unfoldable pub page_thread :
    Collation → Decoders → SessionWorkbenchProps → SessionHistoryState → Option Thread
page_thread c d props history = thread_for c d history.events (
    detail_for_selected_thread (selection_of props).thread_id props.sources props.sessions_by_source
      props.session_detail history.events)

-- The states of the components of one thread; another thread has others.
pub record ThreadViewState : Type 0 where
  pub tab : String
  pub table : TableState

module _ {Date : Type 0} (c : Collation) (d : Decoders) (x : Texts) (new_date : String → Date)
    (lower : String → String)
    (primitive_messages : (ℕ → Role → List (Node PageAction))
      → List (ThreadMessage Date)
      → List (Node PageAction)) where
  abbrev thread_pane :
      Option String
      → SessionWorkbenchProps
      → SessionHistoryState
      → ThreadViewState
      → Node PageAction
  thread_pane none props history view =
      el "div" []
        (text "Select a session from the left to inspect its conversation and events." ∷ [])
  thread_pane (some t) props history view = el "SessionConversationTabs" (("key", text t) ∷ []) (
      session_conversation_tabs show_tab view.tab
        (readonly_assistant_thread x new_date primitive_messages (page_thread c d props history)
            history.status history.error
          ∷ [])
        (el "RawEventTable" (("key", text t) ∷ [])
            (raw_event_table x.number_text use_table lower view.table history.events ∷ [])
          ∷ [])
        (metadata_panel (selected_session props) (selected_source props) ∷ [])
      ∷ [])

  -- The empty id counts as none.
  abbrev nonempty : Option String → Option String
  nonempty none = none
  nonempty (some t) = if truthy t then some t else none

  unfoldable pub session_workbench :
      SessionWorkbenchProps → SessionHistoryState → ThreadViewState → Node PageAction
  session_workbench props history view =
      let selected = (selection_of props).thread_id in
      el "div" [] (
        el "aside" (("aria-label", text "Client sources") ∷ []) (
          el "div" [] (el "h2" [] (text "Client sources" ∷ []) ∷ [])
          ∷ el "Separator" [] []
          ∷ el "ScrollArea" [] (
              sidebar_pane (or_derived props.sidebar_state props.sources) props.sources
                props.sessions_by_source selected props.can_retry
              ∷ [])
          ∷ [])
        ∷ el "main" (("aria-label", text "Session detail") ∷ []) (
            session_header (selected_session props) (selected_source props)
              ∷ (if is_given selected
                  then detail_error_bar props.session_detail_error props.can_retry_session_detail
                  else [])
            ++ thread_pane (nonempty selected) props history view ∷ [])
        ∷ [])
