-- ===== src/View/Scenarios.antt =====
-- Pages, tables and clicks, and the instances of the theorems about them, at the fixtures of
-- web/src/lib/fixtures.ts.
use mathlib.Core.Path.{subst}
use mathlib.Core.List.{flatten}
use codex_mcp_ui.Common.{
  eq_iff, String, ◌≡◌, refl, Bool, true, false, none, some, List, [], ◌∷◌, ◌==◌, ◌++◌, map, any,
  select, is_some, All, arith, Option, if◌then◌else◌, ◌↔◌,
}
use codex_mcp_ui.Common.Table.{Table, get, set}
use codex_mcp_ui.Collation.CodePoints.{by_code_points}
use codex_mcp_ui.Event.{ClientSource, Session}
use codex_mcp_ui.Event.Fixtures.{fixture_client_source, fixture_session, fixture_events}
use codex_mcp_ui.History.Hook.{SessionHistoryState, SessionHistoryStatus}
use codex_mcp_ui.Json.{Number}
use codex_mcp_ui.Location.{UriCoding, IsUriCoding, HashState, set_thread, read_hash, first_render}
use codex_mcp_ui.Markup.{nodes, clicks, clicks_in, elements}
use codex_mcp_ui.Projection.Parts.{Part, Variant, user, assistant, Message}
use codex_mcp_ui.Result.{Result, Thrown, ok, throw}
use codex_mcp_ui.Selection.{resolve_thread_selection, same_id}
use codex_mcp_ui.View.Boundary.{Workbench, AppState, retry, mount, app_run, app}
use codex_mcp_ui.View.Boundary.Recovery.{
  Wait, visits, selects, arrives, wait_action, last_hash, last_data, Renders, app_run-retry,
}
use codex_mcp_ui.Projection.Access.{Decoders}
use codex_mcp_ui.View.Live.{QueryResult, source_keys_fingerprint, fetch_sessions}
use codex_mcp_ui.View.Live.Fingerprint.{IsSourceKey}
use codex_mcp_ui.View.Live.Shown.{Bears, holding, live_session_workbench_shows}
use codex_mcp_ui.View.Page.{page_thread, selection_of}
use codex_mcp_ui.View.Messages.{Texts, message_nodes}
use codex_mcp_ui.View.Messages.Shown.{each, message_nodes-outline}
use codex_mcp_ui.View.Messages.Outline.{outline_in, message_marks}
use codex_mcp_ui.View.RawTable.{filtered, is_open}
use codex_mcp_ui.View.RawTable.Rows.{
  TableAction, filter_type, click_row, initial_table, table_run, raw_event_table, test_id,
}
use codex_mcp_ui.View.RawTable.Shown.{details, row_clicks, raw_event_table_shows}
use codex_mcp_ui.View.Sidebar.{grouped_thread_sidebar, all_sessions}
use codex_mcp_ui.View.Sidebar.Choose.{is_marked, grouped_thread_sidebar_buttons, click_selects}

-- A coding that leaves every text as it is.
abbrev plain : UriCoding
plain = record { encode = λ t. t; decode = λ t. ok t }

plain-IsUriCoding : IsUriCoding plain
plain-IsUriCoding t = refl

abbrev sources : List ClientSource
sources = fixture_client_source ∷ []

abbrev sessions : Table (List Session)
sessions = ("claude-desktop-18244", fixture_session ∷ []) ∷ []

abbrev blank : HashState
blank = record { hash = ""; value = none }

clicked_fixture :
    any
      (λ a. a == "thread-abc123")
      (clicks (grouped_thread_sidebar (λ id. id) sources sessions none))
    ≡ true
unfolding clicks grouped_thread_sidebar codex_mcp_ui.View.Sidebar.source_entry
    codex_mcp_ui.View.Sidebar.session_entry get
clicked_fixture = refl

click_selects_example :
    (resolve_thread_selection (set_thread plain blank (some "thread-abc123")).value sources sessions
      ≡ record { thread_id = some "thread-abc123"; should_write_hash = false })
    × (first_render plain (set_thread plain blank (some "thread-abc123")).hash
        ≡ ok (set_thread plain blank (some "thread-abc123")))
click_selects_example =
    click_selects plain blank sources sessions none "thread-abc123" plain-IsUriCoding refl
      clicked_fixture

grouped_thread_sidebar_buttons_example :
    (clicks (grouped_thread_sidebar (λ id. id) sources sessions (some "other"))
      ≡ map (λ s. s.thread_id) (all_sessions sources sessions))
    × (map is_marked (
          elements "button"
            (grouped_thread_sidebar (λ (id : String). id) sources sessions (some "other")))
        ≡ map (λ s. same_id (some s.thread_id) (some "other")) (all_sessions sources sessions))
grouped_thread_sidebar_buttons_example =
    grouped_thread_sidebar_buttons (λ id. id) (some "other") sources sessions

abbrev seven : Number → String
seven n = "7"

-- A filter, and three clicks on two rows.
abbrev uses : List TableAction
uses = click_row "evt-3" ∷ click_row "evt-4" ∷ filter_type " exec " ∷ click_row "evt-3" ∷ []

raw_event_table_shows_example :
    (clicks (raw_event_table seven (λ a. a) (λ s. s) (table_run initial_table uses) fixture_events)
      ≡ map
          (λ e. click_row e.event_id)
          (filtered (λ s. s) (table_run initial_table uses).filters fixture_events))
    × (details (
          raw_event_table seven
            (λ (a : TableAction). a)
            (λ s. s)
            (table_run initial_table uses)
            fixture_events)
        ≡ map
            (λ e. test_id e.event_id)
            (select
              (λ e. is_open false e.event_id (row_clicks uses))
              (filtered (λ s. s) (table_run initial_table uses).filters fixture_events)))
raw_event_table_shows_example = raw_event_table_shows seven (λ s. s) fixture_events uses

abbrev texts : Texts
texts = record {
  number_text = seven;
  part_text = λ part. "{}";
  locale_date = λ t. some t;
  inherited = λ key. key;
}

abbrev projected : List Message
projected =
    record { id = "u"; role = user; created_at = "t"; parts = Part.text "hi" none none [] ∷ [] }
    ∷ record {
      id = "a";
      role = assistant;
      created_at = "t";
      parts = Part.text "yo" none none [] ∷ Part.reasoning "why" Variant.reasoning [] ∷ [];
    }
    ∷ []

message_nodes-outline_example :
    outline_in (nodes (message_nodes {A = String} texts (λ (s : String). s) (each 0) projected))
    ≡ flatten (map (message_marks texts) projected)
message_nodes-outline_example =
    message_nodes-outline texts (λ s. s) (each 0) projected (λ component ms. refl)

-- A workbench that does not render a thread for which no text has arrived.
abbrev missing : Option String → Option Thrown
missing none = none
missing (some t) = some (Thrown.error "Cannot read properties of undefined")

abbrev fragile : Workbench (Option String)
fragile = record {
  render = λ thread_id content. if is_some content then none else missing thread_id;
  remount = λ content. content;
}

-- A page that was opened at a thread with nothing to show.
abbrev stopped_page : AppState (Option String)
stopped_page = mount fragile plain "#thread=%" none

abbrev waits : List (Wait (Option String))
waits = visits "#thread=a" ∷ selects "b" ∷ arrives (some "text") ∷ visits "#thread=c" ∷ []

stops_page : stopped_page.error ≡ some "Cannot read properties of undefined"
unfolding mount first_render read_hash codex_mcp_ui.Result.to_error
stops_page = refl

app_run-retry_example :
    (clicks_in (nodes (app (app_run fragile plain stopped_page (map wait_action waits)) []))
      ≡ retry ∷ [])
    × (app_run fragile plain stopped_page (map wait_action waits ++ retry ∷ [])
        ≡ mount fragile plain
            (last_hash stopped_page.location waits)
            (last_data stopped_page.content waits))
    × (((app_run fragile plain stopped_page (map wait_action waits ++ retry ∷ [])).error ≡ none)
        ↔ Renders fragile plain
            (last_hash stopped_page.location waits)
            (last_data stopped_page.content waits))
app_run-retry_example =
    app_run-retry fragile plain stopped_page "Cannot read properties of undefined" waits []
      stops_page

-- A source with a key as the hub makes it.
abbrev keyed_source : ClientSource
keyed_source = record fixture_client_source { source_key = "a|1|h" }

keyed_source-IsSourceKey : IsSourceKey "a|1|h"
keyed_source-IsSourceKey = record {
  name = "a";
  pid = "1";
  hash = "h";
  plain = ((omega arith, tt), (omega arith, tt), (omega arith, tt));
  whole = refl;
}

abbrev keyed_session : Session
keyed_session = record fixture_session { source_key = "a|1|h" }

-- A server with one source.
abbrev serve_if : Bool → Result (List Session)
serve_if true = ok (keyed_session ∷ [])
serve_if false = throw (Thrown.error "404 Not Found")

abbrev serve : String → Result (List Session)
serve key = serve_if (key == "a|1|h")

served-All :
    (b : Bool) (key : String) (items : List Session)
    → (key == "a|1|h") ≡ b
    → serve_if b ≡ ok items
    → All (λ s. s.source_key ≡ key) items
served-All true key items h e =
    let listed : keyed_session ∷ [] ≡ items = cc in
    let named : "a|1|h" ≡ key = ground (arith, eq_iff key "a|1|h") in
    subst (All (λ s. s.source_key ≡ key)) listed (named, tt)
served-All false key items h e = cc

serve-Bears : Bears serve
serve-Bears key items e = served-All (key == "a|1|h") key items refl e

abbrev keyed_table : Table (List Session)
keyed_table = ("a|1|h", keyed_session ∷ []) ∷ []

abbrev pending : {A : Type 0} → QueryResult A
pending = record { value = none; is_pending = true; is_error = false; failure = none }

abbrev no_decoders : Decoders
no_decoders = record { atob = λ s. none; utf8 = λ bytes. none; utf16le = λ bytes. none }

abbrev nothing_stored : SessionHistoryState
nothing_stored = record {
  events = [];
  refresh_key = 0;
  status = SessionHistoryStatus.ready;
  error = none;
}

fetched_table : fetch_sessions serve (keyed_source ∷ []) ≡ ok keyed_table
unfolding fetch_sessions codex_mcp_ui.View.Live.session_entries codex_mcp_ui.View.Live.from_entries
    set
fetched_table = refl

selected_thread :
    (selection_of (holding none (keyed_source ∷ []) keyed_table pending pending pending)).thread_id
    ≡ some "thread-abc123"
unfolding selection_of codex_mcp_ui.View.Live.live_session_workbench resolve_thread_selection get
    codex_mcp_ui.Selection.is_listed codex_mcp_ui.Selection.first_available_thread
selected_thread = refl

live_session_workbench_shows_example :
    is_some (
      page_thread by_code_points no_decoders
        (holding none (keyed_source ∷ []) keyed_table pending pending pending)
        nothing_stored)
    ≡ true
live_session_workbench_shows_example =
    live_session_workbench_shows by_code_points no_decoders serve none (keyed_source ∷ [])
      (keyed_source ∷ []) keyed_table pending pending pending nothing_stored "thread-abc123"
      serve-Bears (keyed_source-IsSourceKey, tt) (keyed_source-IsSourceKey, tt) refl fetched_table
      selected_thread refl
