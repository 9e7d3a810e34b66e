-- ===== src/Stream/Tests.antt =====
-- A subscription, and the instances of the theorems at it.
use codex_mcp_ui.Common.{
  ◌≡◌, refl, none, some, List, [], ◌∷◌, ◌++◌, map, ◌==◌, if◌then◌else◌, select, truthy,
}
use mathlib.Core.List.{flatten}
use codex_mcp_ui.Common.Table.{get, set}
use codex_mcp_ui.Event.Samples.{e1}
use codex_mcp_ui.Result.{Thrown, ok, throw}
use codex_mcp_ui.Stream.{
  StreamOptions, stream_query, build_stream_url, StreamStatus, Signal, Call, Subscriber, on_signal,
  on_signals, subscribe_events,
}
use codex_mcp_ui.Stream.Reports.{
  reports, data_of, due, statuses, connection, reports-subscribe_events,
}
use codex_mcp_ui.Stream.Query.{get-stream_query}

-- A subscriber to which "1" is an event, and other data cannot be parsed.
abbrev subscriber : Subscriber
subscriber = record {
  parse = λ text. if text == "1" then ok e1 else throw (Thrown.error "Unexpected token");
  raises = λ e. none;
}

abbrev signals : List Signal
signals =
    Signal.open_
    ∷ Signal.message "1"
    ∷ Signal.message ""
    ∷ Signal.error
    ∷ Signal.open_
    ∷ Signal.message "x"
    ∷ []

calls :
    subscribe_events subscriber signals
    ≡ Call.status_change StreamStatus.connecting
      ∷ Call.status_change StreamStatus.live
      ∷ Call.event e1
      ∷ Call.status_change StreamStatus.disconnected
      ∷ Call.status_change StreamStatus.live
      ∷ Call.parse_error (Thrown.error "Unexpected token")
      ∷ Call.status_change StreamStatus.disconnected
      ∷ []
unfolding subscribe_events on_signals on_signal
calls = refl

reports-subscribe_events_example :
    (reports (subscribe_events subscriber signals)
      ≡ flatten (map (due subscriber) (select truthy (data_of signals))))
    × (statuses (subscribe_events subscriber signals)
        ≡ StreamStatus.connecting ∷ (connection signals ++ StreamStatus.disconnected ∷ []))
reports-subscribe_events_example = reports-subscribe_events subscriber signals

abbrev options : StreamOptions
options = record { source_key = none; thread_id = some "t1"; since = some "" }

url : build_stream_url (λ qs. "thread_id=t1") options ≡ "/api/v1/stream?thread_id=t1"
unfolding build_stream_url stream_query set
url = refl

get-stream_query_example : get (stream_query options) "thread_id" ≡ some "t1"
get-stream_query_example = get-stream_query options "thread_id"
