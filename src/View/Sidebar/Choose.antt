-- ===== src/View/Sidebar/Choose.antt =====
-- What a click on the list of threads does, from the entry to the thread that the workbench then
-- shows, and to a reload of the page.
use mathlib.Core.Path.{fun_ext}
use mathlib.Core.List.{flatten, append-nil}
use codex_mcp_ui.Common.{
  String, Bool, true, false, Bool-cases, inl, inr, Option, some, List, [], ◌∷◌, ◌++◌, ◌==◌,
  flatten-singles, map-flatten, any-flatten, any-map, map, any, is_empty, truthy, ◌≡◌, refl, sym,
  ap, ◌∙◌,
}
use codex_mcp_ui.Common.Table.{Table, has}
use codex_mcp_ui.Event.{ClientSource, Session}
use codex_mcp_ui.Markup.{
  Attributes, nodes, clicks, clicks_in, elements, elements_in, clicks_in-map, elements_in-map,
  clicks_in-append, elements_in-append, clicks_in-when, elements_in-when,
}
use codex_mcp_ui.Result.{ok}
use codex_mcp_ui.Location.{UriCoding, IsUriCoding, HashState, set_thread, first_render}
use codex_mcp_ui.Location.Synced.{first_render-set_thread}
use codex_mcp_ui.Selection.{
  sessions_of, same_id, is_given, has_thread, is_listed, resolve_thread_selection,
}
use codex_mcp_ui.View.Sidebar.{
  entry_attributes, session_entry, source_entry, grouped_thread_sidebar, all_sessions,
}

-- An entry is marked by a class.
abbrev pub is_marked : {A : Type 0} → Attributes A → Bool
is_marked attributes = has attributes "className"

module _ {A : Type 0} (f : String → A) (selected : Option String) where
  entry_clicks :
      (session : Session) → clicks (session_entry f selected session) ≡ f session.thread_id ∷ []
  unfolding clicks session_entry
  entry_clicks session = elim (Bool-cases (same_id (some session.thread_id) selected)) [
    | inl a ↦ elim (Bool-cases (is_given session.title)) [
      | inl g ↦ rw (a, g) refl
      | inr g ↦ rw (a, g) refl
    ]
    | inr a ↦ elim (Bool-cases (is_given session.title)) [
      | inl g ↦ rw (a, g) refl
      | inr g ↦ rw (a, g) refl
    ]
  ]

  entry_buttons :
      (session : Session)
      → elements "button" (session_entry f selected session)
        ≡ entry_attributes f selected session ∷ []
  unfolding elements session_entry
  entry_buttons session = elim (Bool-cases (is_given session.title)) [
    | inl g ↦ rw g refl
    | inr g ↦ rw g refl
  ]

  marks :
      (sessions : List Session)
      → map is_marked (map (entry_attributes f selected) sessions)
        ≡ map (λ s. same_id (some s.thread_id) selected) sessions
  unfolding has
  marks [] = refl
  marks (s ∷ sessions) = elim (Bool-cases (same_id (some s.thread_id) selected)) [
    | inl a ↦ rw a (ap (λ l. true ∷ l) (marks sessions))
    | inr a ↦ rw a (ap (λ l. false ∷ l) (marks sessions))
  ]

  source_clicks :
      (source : ClientSource) (sessions : List Session)
      → clicks (source_entry f selected source sessions) ≡ map (λ s. f s.thread_id) sessions
  unfolding clicks source_entry
  source_clicks source sessions =
      append-nil _
      ∙ clicks_in-append (map (session_entry f selected) sessions) _
      ∙ ap (λ l. clicks_in (nodes (map (session_entry f selected) sessions)) ++ l)
          (clicks_in-when (is_empty sessions) _ refl)
      ∙ append-nil _
      ∙ clicks_in-map (session_entry f selected) sessions
      ∙ ap (λ g. flatten (map g sessions)) (fun_ext entry_clicks)
      ∙ flatten-singles (λ s. f s.thread_id) sessions

  source_buttons :
      (source : ClientSource) (sessions : List Session)
      → elements "button" (source_entry f selected source sessions)
        ≡ map (entry_attributes f selected) sessions
  unfolding elements source_entry
  source_buttons source sessions =
      append-nil _
      ∙ elements_in-append "button" (map (session_entry f selected) sessions) _
      ∙ ap (λ l. elements_in "button" (nodes (map (session_entry f selected) sessions)) ++ l)
          (elements_in-when "button" (is_empty sessions) _ refl)
      ∙ append-nil _
      ∙ elements_in-map "button" (session_entry f selected) sessions
      ∙ ap (λ g. flatten (map g sessions)) (fun_ext entry_buttons)
      ∙ flatten-singles (entry_attributes f selected) sessions

  -- The list offers a button for each session of each source, in their order: a click on it selects
  -- the session's thread, and it is marked exactly if that is the selected one.
  pub grouped_thread_sidebar_buttons :
      (sources : List ClientSource) (sessions : Table (List Session))
      → (clicks (grouped_thread_sidebar f sources sessions selected)
          ≡ map (λ s. f s.thread_id) (all_sessions sources sessions))
        × (map is_marked (elements "button" (grouped_thread_sidebar f sources sessions selected))
            ≡ map (λ s. same_id (some s.thread_id) selected) (all_sessions sources sessions))
  unfolding clicks elements grouped_thread_sidebar flatten has
  grouped_thread_sidebar_buttons [] sessions = (refl, refl)
  grouped_thread_sidebar_buttons (x ∷ xs) sessions =
      let entry =
        λ (source : ClientSource). source_entry f selected source (sessions_of sessions source) in
      let own = λ (source : ClientSource). sessions_of sessions source in
      (
        clicks_in-map entry (x ∷ xs)
            ∙ ap (λ g. flatten (map g (x ∷ xs)))
                (fun_ext λ source. source_clicks source (own source))
            ∙ sym (map-flatten (λ s. f s.thread_id) own (x ∷ xs)),
        ap (map is_marked) (elements_in-map "button" entry (x ∷ xs))
            ∙ map-flatten is_marked (λ source. elements "button" (entry source)) (x ∷ xs)
            ∙ ap (λ g. flatten (map g (x ∷ xs)))
                (fun_ext λ source.
                  ap (map is_marked) (source_buttons source (own source)) ∙ marks (own source))
            ∙ sym (map-flatten (λ s. same_id (some s.thread_id) selected) own (x ∷ xs)),
      )

-- The threads that can be clicked are those that the selection finds.
offered :
    (sources : List ClientSource) (sessions : Table (List Session)) (selected : Option String)
    (t : String)
    → any (λ a. a == t) (clicks (grouped_thread_sidebar (λ id. id) sources sessions selected))
      ≡ has_thread sources sessions t
unfolding has_thread
offered sources sessions selected t =
    ap (any (λ a. a == t)) (grouped_thread_sidebar_buttons (λ id. id) selected sources sessions).0
    ∙ any-map (λ a. a == t) (λ (s : Session). s.thread_id) (all_sessions sources sessions)
    ∙ any-flatten (λ (s : Session). s.thread_id == t) (λ source. sessions_of sessions source)
        sources

-- If encoded texts decode: after a click on any entry of the list whose thread id is not empty, the
-- workbench selects the entry's thread and does not write the hash again, and a page that is
-- reloaded at the hash that was written starts with that thread.
pub click_selects :
    (coding : UriCoding) (s : HashState) (sources : List ClientSource)
    (sessions : Table (List Session)) (selected : Option String) (t : String)
    → IsUriCoding coding
    → truthy t ≡ true
    → any (λ a. a == t) (clicks (grouped_thread_sidebar (λ id. id) sources sessions selected))
      ≡ true
    → (resolve_thread_selection (set_thread coding s (some t)).value sources sessions
        ≡ record { thread_id = some t; should_write_hash = false })
      × (first_render coding (set_thread coding s (some t)).hash
          ≡ ok (set_thread coding s (some t)))
unfolding resolve_thread_selection is_listed set_thread
click_selects coding s sources sessions selected t c given clicked =
    let listed = sym (offered sources sessions selected t) ∙ clicked in
    (rw (given, listed) refl, first_render-set_thread coding s t c given)
