-- ===== src/View/Panels.antt =====
-- The header of a session, its metadata, and the badge of the stream's connection:
-- web/src/components/session-header.tsx, metadata-panel.tsx and connection-status.tsx.
use codex_mcp_ui.Common.{String, Option, none, some, List, [], ◌∷◌, ◌++◌, truthy, value_or}
use codex_mcp_ui.Common.Text.{append, decimal}
use codex_mcp_ui.Event.{ClientSource, Session}
use codex_mcp_ui.Markup.{Attribute, Node, el, when, text}
use codex_mcp_ui.View.Sidebar.{title_or, source_label}

abbrev session_title : Session → String
session_title session = title_or session.title (append "thread " session.thread_id)

abbrev session_subtitle : Session → ClientSource → String
session_subtitle session source = append (source_label source) (append " | " session.thread_id)

module _ {A : Type 0} where
  -- `value && <Badge>{value}</Badge>`.
  abbrev badge_of : List (String × Attribute A) → Option String → List (Node A)
  badge_of attributes none = []
  badge_of attributes (some value) = when (truthy value) (el "Badge" attributes (text value ∷ []))

  unfoldable pub session_header : Option Session → Option ClientSource → Node A
  session_header (some session) (some source) = el "header" [] (
      el "div" [] (
        el "h1" (("title", text (value_or session.title session.thread_id)) ∷ [])
          (text (session_title session) ∷ [])
        ∷ el "p" [] (text (session_subtitle session source) ∷ [])
        ∷ [])
      ∷ el "div" [] (
          badge_of (("variant", text "secondary") ∷ []) session.model ++ badge_of [] session.status)
      ∷ [])
  session_header _ _ = el "header" [] (
      el "h1" [] (text "Session detail" ∷ [])
      ∷ el "p" [] (text "Select a session on the left to inspect its live MCP traffic." ∷ [])
      ∷ [])

  abbrev row : String → Option String → Node A
  row label value =
      el "div" []
        (el "span" [] (text label ∷ []) ∷ el "span" [] (text (value_or value "—") ∷ []) ∷ [])

  unfoldable pub metadata_panel : Option Session → Option ClientSource → Node A
  metadata_panel (some session) (some source) = el "div" [] (
      el "div" [] (
        el "h3" [] (text "Session" ∷ [])
        ∷ row "Thread id" (some session.thread_id)
        ∷ row "Model" session.model
        ∷ row "CWD" session.cwd
        ∷ row "Approval policy" session.approval_policy
        ∷ row "Sandbox" session.sandbox
        ∷ row "First seen" (some session.first_seen)
        ∷ row "Last seen" (some session.last_seen)
        ∷ [])
      ∷ el "div" [] (
          el "h3" [] (text "Client source" ∷ [])
          ∷ row "Client" (some source.client_name)
          ∷ row "PID" (some (decimal source.pid))
          ∷ row "Protocol" source.protocol_version
          ∷ row "Executable" source.executable
          ∷ row "CWD" source.cwd
          ∷ [])
      ∷ [])
  metadata_panel _ _ = el "div" [] (text "No session selected." ∷ [])

pub data ConnectionState : Type 0 where
  connecting live disconnected : ConnectionState

abbrev connection_label : ConnectionState → String
connection_label connecting = "Connecting…"
connection_label live = "Live"
connection_label disconnected = "Disconnected"

abbrev connection_variant : ConnectionState → String
connection_variant connecting = "secondary"
connection_variant live = "default"
connection_variant disconnected = "destructive"

abbrev connection_dot : ConnectionState → String
connection_dot connecting = "bg-amber-500"
connection_dot live = "animate-pulse bg-green-500"
connection_dot disconnected = "bg-red-500"

unfoldable pub connection_status : {A : Type 0} → ConnectionState → Node A
connection_status state =
    el "Badge"
      (("variant", text (connection_variant state))
        ∷ ("aria-live", text "polite")
        ∷ ("aria-label", text (append "SSE stream " (connection_label state)))
        ∷ [])
      (el "span" (("className", text (connection_dot state)) ∷ []) []
        ∷ text (connection_label state)
        ∷ [])
