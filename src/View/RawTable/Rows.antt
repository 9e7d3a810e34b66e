-- ===== src/View/RawTable/Rows.antt =====
-- The table of web/src/components/raw-event-table.tsx: its state, what its inputs and rows do to it,
-- and what it renders.
use codex_mcp_ui.Common.{
  ℕ, String, Bool, true, Option, none, some, List, [], ◌∷◌, map, select, truthy, value_or,
  if◌then◌else◌,
}
use codex_mcp_ui.Common.Text.{append}
use codex_mcp_ui.Json.{Number}
use codex_mcp_ui.Event.{EventDirection, EventRecord, upstream_to_codex, codex_to_upstream, local}
use codex_mcp_ui.Markup.{Node, el, when, text, units, number, flag, does, takes}
use codex_mcp_ui.Payload.{pretty_payload, compact_payload_preview}
use codex_mcp_ui.View.MessageBlock.{highlighted_code}
use codex_mcp_ui.View.RawTable.{Filters, row_passes, contains, toggle}

pub record TableState : Type 0 where
  pub filters : Filters
  pub expanded : List String

abbrev pub initial_table : TableState
initial_table = record {
  filters = record { event_type = ""; request = ""; turn = "" };
  expanded = [];
}

pub data TableAction : Type 0 where
  filter_type filter_request filter_turn : String → TableAction
  click_row : String → TableAction

unfoldable pub table_step : TableState → TableAction → TableState
table_step s (filter_type value) = record s { filters = record s.filters { event_type = value } }
table_step s (filter_request value) = record s { filters = record s.filters { request = value } }
table_step s (filter_turn value) = record s { filters = record s.filters { turn = value } }
table_step s (click_row id) = record s { expanded = toggle s.expanded id }

unfoldable pub table_run : TableState → List TableAction → TableState
table_run s [] = s
table_run s (a ∷ actions) = table_run (table_step s a) actions

abbrev direction_name : EventDirection → String
direction_name upstream_to_codex = "upstream_to_codex"
direction_name codex_to_upstream = "codex_to_upstream"
direction_name local = "local"

-- `compactPayloadPreview(evt.payload)` has the default bound.
abbrev pub preview_max : ℕ
preview_max = 120

pub record Row : Type 0 where
  pub evt : EventRecord
  pub preview : List ℕ

abbrev pub meta : EventRecord → List (String × Option String)
meta evt =
    ("event_id", some evt.event_id)
    ∷ ("category", some evt.category)
    ∷ ("thread_id", evt.thread_id)
    ∷ ("source_key", some evt.source_key)
    ∷ ("proxy_instance_id", some evt.proxy_instance_id)
    ∷ ("command_call_id", evt.command_call_id)
    ∷ ("tool_call_id", evt.tool_call_id)
    ∷ []

-- `.filter(([, v]) => v && v.length > 0)`, with the values that it leaves.
unfoldable pub given_meta : List (String × Option String) → List (String × String)
given_meta [] = []
given_meta ((k, none) ∷ ms) = given_meta ms
given_meta ((k, some v) ∷ ms) = let rest = given_meta ms in if truthy v then (k, v) ∷ rest else rest

abbrev pub test_id : String → String
test_id event_id = append "raw-expand-" event_id

abbrev pub meta_row : {A : Type 0} → String × String → Node A
meta_row (k, v) =
    el "div" (("key", text k) ∷ []) (el "dt" [] (text k ∷ []) ∷ el "dd" [] (text v ∷ []) ∷ [])

module _ (number_text : Number → String) where
  unfoldable pub rows : List EventRecord → List Row
  rows events =
      map
        (λ evt. record {
          evt = evt;
          preview = compact_payload_preview number_text evt.payload preview_max;
        })
        events

  unfoldable pub filtered_rows : (String → String) → Filters → List Row → List Row
  filtered_rows to_lower_case filters rs = select (λ r. row_passes to_lower_case filters r.evt) rs

  module _ {A : Type 0} where
    -- A template prints "undefined" for a missing text.
    unfoldable pub expanded_detail : EventRecord → Node A
    expanded_detail evt = el "div" [] (
        el "dl" [] (map meta_row (given_meta (meta evt)))
        ∷ el "div" [] (
            highlighted_code "json" (value_or (pretty_payload number_text evt.payload) "undefined")
            ∷ [])
        ∷ [])

    abbrev cell : Option String → String → Node A
    cell value otherwise = el "TableCell" [] (text (value_or value otherwise) ∷ [])

    unfoldable pub detail_row : EventRecord → Node A
    detail_row evt =
        el "TableRow" (("data-testid", text (test_id evt.event_id)) ∷ [])
          (el "TableCell" (("colSpan", number 7) ∷ []) (expanded_detail evt ∷ []) ∷ [])

    module _ (act : TableAction → A) where
      unfoldable pub event_row : Bool → Row → Node A
      event_row open_ r =
          el "TableRow"
            (("onClick", does (act (click_row r.evt.event_id)))
              ∷ ("aria-expanded", flag open_)
              ∷ [])
            (el "TableCell" [] (
                el "span"
                  (("aria-hidden", flag true)
                    ∷ (if open_ then ("className", text "rotate-90") ∷ [] else []))
                  (text "›" ∷ [])
                ∷ [])
              ∷ cell (some r.evt.timestamp) ""
              ∷ el "TableCell" [] (
                  el "Badge" (("variant", text "secondary") ∷ [])
                    (text (direction_name r.evt.direction) ∷ [])
                  ∷ [])
              ∷ cell r.evt.event_type r.evt.category
              ∷ cell r.evt.request_id "-"
              ∷ cell r.evt.turn_id "-"
              ∷ el "TableCell" [] (units r.preview ∷ [])
              ∷ [])

      -- A row, and its detail if it is open.
      unfoldable pub row_nodes : List String → Row → Node A
      row_nodes expanded r =
          let open_ = contains expanded r.evt.event_id in
          el "Fragment" (("key", text r.evt.event_id) ∷ [])
            (event_row open_ r ∷ when open_ (detail_row r.evt))

      abbrev filter_input : String → String → String → (String → TableAction) → Node A
      filter_input title name value change = el "label" [] (
          text title
          ∷ el "input"
              (("aria-label", text name)
                ∷ ("value", text value)
                ∷ ("onChange", takes (λ v. act (change v)))
                ∷ [])
              []
          ∷ [])

      abbrev head : String → Node A
      head title = el "TableHead" [] (text title ∷ [])

      unfoldable pub raw_event_table : (String → String) → TableState → List EventRecord → Node A
      raw_event_table to_lower_case s events = el "div" [] (
          el "div" [] (
            filter_input "Event type" "event type" s.filters.event_type filter_type
            ∷ filter_input "Request id" "request id" s.filters.request filter_request
            ∷ filter_input "Turn id" "turn id" s.filters.turn filter_turn
            ∷ [])
          ∷ el "div" [] (
              el "Table" [] (
                el "TableHeader" [] (
                  el "TableRow" [] (
                    el "TableHead" [] []
                    ∷ head "Time"
                    ∷ head "Direction"
                    ∷ head "Type"
                    ∷ head "Request"
                    ∷ head "Turn"
                    ∷ head "Payload"
                    ∷ [])
                  ∷ [])
                ∷ el "TableBody" [] (
                    map (row_nodes s.expanded)
                      (filtered_rows to_lower_case s.filters (rows events)))
                ∷ [])
              ∷ [])
          ∷ [])
