-- ===== src/View/Sidebar.antt =====
-- The list of threads of web/src/components/workbench/grouped-thread-sidebar.tsx, and the same in
-- web/src/components/client-source-tree.tsx.
pub mod Choose
use mathlib.Core.List.{flatten}
use codex_mcp_ui.Common.{
  ℕ, String, Bool, true, false, Option, none, some, List, [], ◌∷◌, ◌++◌, ◌==◌, map, is_empty,
  length, truthy, value_or, ◌≡◌, refl, ap, ◌∙◌, if◌then◌else◌,
}
use codex_mcp_ui.Common.Table.{Table, get}
use codex_mcp_ui.Common.Text.{append, trim, decimal}
use codex_mcp_ui.Event.{ClientSource, Session}
use codex_mcp_ui.Markup.{
  Attribute, Attributes, Node, Nodes, nodes, el, when, text, does, clicks, clicks_in, elements,
  elements_in, clicks_in-map, elements_in-map,
}
use codex_mcp_ui.Selection.{sessions_of, same_id, is_given}

-- `title?.trim() || otherwise`.
abbrev pub title_or : Option String → String → String
title_or none otherwise = otherwise
title_or (some title) otherwise = if truthy (trim title) then trim title else otherwise

-- `title ? title + "\n" + id : id`.
abbrev pub tooltip : Option String → String → String
tooltip none id = id
tooltip (some title) id = if truthy title then append title (append "\n" id) else id

-- The classes that mark the selected thread.
abbrev pub marked : {A : Type 0} → Bool → Attributes A
marked active = if active then ("className", text "bg-accent text-accent-foreground") ∷ [] else []

abbrev pub source_label : ClientSource → String
source_label source = append source.client_name (append " | pid " (decimal source.pid))

module _ {A : Type 0} (on_select_thread_id : String → A) where
  abbrev pub entry_attributes : Option String → Session → Attributes A
  entry_attributes selected_thread_id session =
      ("type", text "button")
      ∷ ("title", text (tooltip session.title session.thread_id))
      ∷ ("onClick", does (on_select_thread_id session.thread_id))
      ∷ marked (same_id (some session.thread_id) selected_thread_id)

  unfoldable pub session_entry : Option String → Session → Node A
  session_entry selected_thread_id session = el "li" (("key", text session.thread_id) ∷ []) (
      el "button" (entry_attributes selected_thread_id session) (
        el "span" [] (text (title_or session.title session.thread_id) ∷ [])
        ∷ when (is_given session.title) (el "span" [] (text session.thread_id ∷ [])))
      ∷ [])

  unfoldable pub source_entry : Option String → ClientSource → List Session → Node A
  source_entry selected_thread_id source sessions = el "li" (("key", text source.source_key) ∷ []) (
      el "div" [] (
        el "span" [] (text (source_label source) ∷ [])
        ∷ el "Badge" (("variant", text "outline") ∷ []) (text (decimal (length sessions)) ∷ [])
        ∷ [])
      ∷ el "ul" [] (
          map (session_entry selected_thread_id) sessions
          ++ when (is_empty sessions) (el "li" [] (text "no sessions yet" ∷ [])))
      ∷ [])

  unfoldable pub grouped_thread_sidebar :
      List ClientSource → Table (List Session) → Option String → Node A
  grouped_thread_sidebar sources sessions_by_source selected_thread_id =
      if is_empty sources
      then el "div" [] (text "Waiting for registrations..." ∷ [])
      else el "ul" [] (
          map
            (λ source.
              source_entry selected_thread_id source (sessions_of sessions_by_source source))
            sources)

  -- The other file's component has the same body, with `onSelectSession` for the handler.
  unfoldable pub client_source_tree :
      List ClientSource → Table (List Session) → Option String → Node A
  client_source_tree = grouped_thread_sidebar

-- The sessions of all sources, in the order of the sources.
abbrev pub all_sessions : List ClientSource → Table (List Session) → List Session
all_sessions sources sessions_by_source =
    flatten (map (λ source. sessions_of sessions_by_source source) sources)
