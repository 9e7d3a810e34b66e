-- ===== src/View/RawTable/Shown.antt =====
-- What the table of web/src/components/raw-event-table.tsx shows after any use of it.
use mathlib.Core.Path.{fun_ext}
use mathlib.Core.List.{flatten, append-nil, map-map}
use codex_mcp_ui.Common.{
  String, false, Bool-cases, inl, inr, List, [], ◌∷◌, ◌==◌, map, select, map-flatten,
  flatten-singles, flatten-flatten-map, flatten-select, map-select, ◌≡◌, refl, sym, ap, ◌∙◌,
  if◌then◌else◌,
}
use codex_mcp_ui.Json.{Number}
use codex_mcp_ui.Event.{EventRecord}
use codex_mcp_ui.Markup.{
  Attributes, Node, nodes, text, clicks, clicks_in, elements, elements_in, clicks_in-map,
  elements_in-map, clicks_in-map_none, elements_in-map_none,
}
use codex_mcp_ui.View.MessageBlock.{highlighted_code}
use codex_mcp_ui.View.RawTable.{
  Filters, filtered, row_passes, contains, clicked, is_open, contains-clicked,
}
use codex_mcp_ui.View.RawTable.Rows.{
  TableState, initial_table, TableAction, filter_type, filter_request, filter_turn, click_row,
  table_step, table_run, Row, rows, filtered_rows, meta, given_meta, meta_row, expanded_detail,
  detail_row, event_row, row_nodes, raw_event_table, test_id,
}

-- The ids of the details among the rows.
abbrev pub test_ids : {A : Type 0} → Attributes A → List String
test_ids [] = []
test_ids ((name, text v) ∷ attributes) =
    let rest = test_ids attributes in if name == "data-testid" then v ∷ rest else rest
test_ids (_ ∷ attributes) = test_ids attributes

abbrev pub details : {A : Type 0} → Node A → List String
details table = flatten (map test_ids (elements "TableRow" table))

-- The rows that were clicked.
abbrev pub row_clicks : List TableAction → List String
row_clicks [] = []
row_clicks (click_row id ∷ actions) = id ∷ row_clicks actions
row_clicks (_ ∷ actions) = row_clicks actions

expanded-table_run :
    (s : TableState) (actions : List TableAction)
    → (table_run s actions).expanded ≡ clicked s.expanded (row_clicks actions)
unfolding table_run table_step clicked
expanded-table_run s [] = refl
expanded-table_run s (filter_type value ∷ actions) =
    expanded-table_run (table_step s (filter_type value)) actions
expanded-table_run s (filter_request value ∷ actions) =
    expanded-table_run (table_step s (filter_request value)) actions
expanded-table_run s (filter_turn value ∷ actions) =
    expanded-table_run (table_step s (filter_turn value)) actions
expanded-table_run s (click_row id ∷ actions) =
    expanded-table_run (table_step s (click_row id)) actions

module _ (number_text : Number → String) where
  events-filtered_rows :
      (lower : String → String) (filters : Filters) (events : List EventRecord)
      → map (λ (r : Row). r.evt) (filtered_rows number_text lower filters (rows number_text events))
        ≡ filtered lower filters events
  unfolding filtered_rows rows filtered
  events-filtered_rows lower filters [] = refl
  events-filtered_rows lower filters (e ∷ events) = elim (Bool-cases (row_passes lower filters e)) [
    | inl passed ↦ rw passed (ap (λ l. e ∷ l) (events-filtered_rows lower filters events))
    | inr failed ↦ rw failed (events-filtered_rows lower filters events)
  ]

  module _ (A : Type 0) where
    detail-clicks : (e : EventRecord) → clicks (detail_row number_text {A = A} e) ≡ []
    unfolding clicks detail_row expanded_detail highlighted_code
    detail-clicks e =
        rw (clicks_in-map_none (meta_row {A = A}) (given_meta (meta e)) λ p. refl) refl

    detail-details :
        (e : EventRecord) → details (detail_row number_text {A = A} e) ≡ test_id e.event_id ∷ []
    unfolding elements detail_row expanded_detail highlighted_code flatten
    detail-details e =
        rw (elements_in-map_none "TableRow" (meta_row {A = A}) (given_meta (meta e)) λ p. refl) refl

  module _ {A : Type 0} (act : TableAction → A) (expanded : List String) where
    row-clicks :
        (r : Row)
        → clicks (row_nodes number_text act expanded r) ≡ act (click_row r.evt.event_id) ∷ []
    unfolding clicks row_nodes event_row
    row-clicks r = elim (Bool-cases (contains expanded r.evt.event_id)) [
      | inl opened ↦ rw (opened, detail-clicks A r.evt) refl
      | inr closed ↦ rw closed refl
    ]

    row-details :
        (r : Row)
        → details (row_nodes number_text act expanded r)
          ≡ (if contains expanded r.evt.event_id then test_id r.evt.event_id ∷ [] else [])
    unfolding elements row_nodes event_row flatten
    row-details r = elim (Bool-cases (contains expanded r.evt.event_id)) [
      | inl opened ↦ rw opened (
          ap (λ (l : List (Attributes A)). flatten (map test_ids l))
            (append-nil (elements "TableRow" (detail_row number_text {A = A} r.evt)))
          ∙ detail-details A r.evt)
      | inr closed ↦ rw closed refl
    ]

    rows-clicks :
        (rs : List Row)
        → clicks_in (nodes (map (row_nodes number_text act expanded) rs))
          ≡ map (λ r. act (click_row r.evt.event_id)) rs
    rows-clicks rs =
        clicks_in-map (row_nodes number_text act expanded) rs
        ∙ ap (λ g. flatten (map g rs)) (fun_ext row-clicks)
        ∙ flatten-singles (λ r. act (click_row r.evt.event_id)) rs

    rows-details :
        (rs : List Row)
        → flatten (
            map test_ids
              (elements_in "TableRow" (nodes (map (row_nodes number_text act expanded) rs))))
          ≡ map
              (λ r. test_id r.evt.event_id)
              (select (λ (r : Row). contains expanded r.evt.event_id) rs)
    rows-details rs =
        let g = λ (r : Row). elements "TableRow" (row_nodes number_text act expanded r) in
        ap (λ (l : List (Attributes A)). flatten (map test_ids l))
          (elements_in-map "TableRow" (row_nodes number_text act expanded) rs)
        ∙ ap flatten (map-flatten test_ids g rs)
        ∙ flatten-flatten-map (λ r. map test_ids (g r)) rs
        ∙ ap (λ k. flatten (map k rs)) (fun_ext row-details)
        ∙ flatten-select (λ (r : Row). contains expanded r.evt.event_id)
            (λ r. test_id r.evt.event_id) rs

  -- After any use of its filters and rows, the table shows the events that the filters let pass, one
  -- row for each and in their order, and a click on a row is a click on its event; and it shows the
  -- details of those among them that were clicked an odd number of times, whichever filters stood
  -- then.
  pub raw_event_table_shows :
      (lower : String → String) (events : List EventRecord) (actions : List TableAction)
      → let s = table_run initial_table actions in
        let shown = filtered lower s.filters events in
        let table = raw_event_table number_text (λ a. a) lower s events in
        (clicks table ≡ map (λ e. click_row e.event_id) shown)
        × (details table
            ≡ map
                (λ e. test_id e.event_id)
                (select (λ e. is_open false e.event_id (row_clicks actions)) shown))
  unfolding clicks elements raw_event_table flatten
  raw_event_table_shows lower events actions =
      let s = table_run initial_table actions in
      let rs = filtered_rows number_text lower s.filters (rows number_text events) in
      let same = events-filtered_rows lower s.filters events in
      let opened = λ (e : EventRecord). contains s.expanded e.event_id in
      (
        append-nil _
            ∙ append-nil _
            ∙ append-nil _
            ∙ rows-clicks (λ a. a) s.expanded rs
            ∙ sym (map-map (λ (e : EventRecord). click_row e.event_id) (λ (r : Row). r.evt) rs)
            ∙ ap (map (λ (e : EventRecord). click_row e.event_id)) same,
        ap (λ (l : List (Attributes TableAction)). flatten (map test_ids l))
              (append-nil _
                ∙ append-nil _
                ∙ append-nil (
                    elements_in "TableRow"
                      (nodes (map (row_nodes number_text (λ a. a) s.expanded) rs))))
            ∙ rows-details (λ a. a) s.expanded rs
            ∙ sym (
                map-map (λ (e : EventRecord). test_id e.event_id) (λ (r : Row). r.evt)
                  (select (λ (r : Row). contains s.expanded r.evt.event_id) rs))
            ∙ ap (map (λ (e : EventRecord). test_id e.event_id)) (
                map-select (λ (r : Row). r.evt) opened rs
                ∙ ap (select opened) same
                ∙ ap (λ p. select p (filtered lower s.filters events))
                    (fun_ext λ e.
                      ap (λ ids. contains ids e.event_id) (expanded-table_run initial_table actions)
                      ∙ contains-clicked [] (row_clicks actions) e.event_id tt)),
      )
