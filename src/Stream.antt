-- ===== src/Stream.antt =====
-- web/src/lib/sse.ts: the URL of the event stream, and what a subscription reports of the signals
-- of the streaming library.
pub mod Reports
pub mod Query
mod Tests
use codex_mcp_ui.Common.{
  String, Bool, true, false, Option, none, some, List, [], ◌∷◌, ◌++◌, truthy, is_empty,
  if◌then◌else◌,
}
use codex_mcp_ui.Common.Table.{Table, set}
use codex_mcp_ui.Common.Text.{append}
use codex_mcp_ui.Event.{EventRecord}
use codex_mcp_ui.Result.{Result, Thrown, ok, throw}

-- The options that reach the URL.
pub record StreamOptions : Type 0 where
  pub source_key : Option String
  pub thread_id : Option String
  pub since : Option String

-- `if (value) qs.set(key, value)`.
abbrev pub set_given : Table String → String → Option String → Table String
set_given qs key none = qs
set_given qs key (some value) = if truthy value then set qs key value else qs

unfoldable pub stream_query : StreamOptions → Table String
stream_query opts =
    set_given (set_given (set_given [] "source_key" opts.source_key) "thread_id" opts.thread_id)
      "since" opts.since

-- The text of a query, by `URLSearchParams.toString`, behind its question mark.
abbrev pub with_query : (Table String → String) → Table String → String
with_query to_string qs = if is_empty qs then "" else append "?" (to_string qs)

unfoldable pub build_stream_url : (Table String → String) → StreamOptions → String
build_stream_url to_string opts = append "/api/v1/stream" (with_query to_string (stream_query opts))

pub data StreamStatus : Type 0 where
  connecting live disconnected : StreamStatus

-- What the library signals: an answer, a message with its data, the end of the stream, an error.
pub data Signal : Type 0 where
  open_ : Signal
  message : String → Signal
  close : Signal
  error : Signal

-- What the subscription calls: `onStatusChange`, `onEvent` and `onParseError`.
pub data Call : Type 0 where
  status_change : StreamStatus → Call
  event : EventRecord → Call
  parse_error : Thrown → Call

-- `JSON.parse` on the data of a message, and what the subscriber's `onEvent` throws, if it does.
pub record Subscriber : Type 0 where
  pub parse : String → Result EventRecord
  pub raises : EventRecord → Option Thrown

-- The `catch` takes what `onEvent` throws too.
abbrev pub raised : Option Thrown → List Call
raised none = []
raised (some e) = parse_error e ∷ []

abbrev pub handle_parsed : Subscriber → Result EventRecord → List Call
handle_parsed subscriber (ok e) = event e ∷ raised (subscriber.raises e)
handle_parsed subscriber (throw e) = parse_error e ∷ []

unfoldable pub on_signal : Subscriber → Signal → List Call
on_signal subscriber open_ = status_change live ∷ []
on_signal subscriber (message text) =
    if truthy text then handle_parsed subscriber (subscriber.parse text) else []
on_signal subscriber close = status_change disconnected ∷ []
on_signal subscriber error = status_change disconnected ∷ []

unfoldable pub on_signals : Subscriber → List Signal → List Call
on_signals subscriber [] = []
on_signals subscriber (s ∷ signals) = on_signal subscriber s ++ on_signals subscriber signals

-- The calls from the subscription to its end; the library signals nothing after the abort.
unfoldable pub subscribe_events : Subscriber → List Signal → List Call
subscribe_events subscriber signals =
    status_change connecting ∷ (on_signals subscriber signals ++ status_change disconnected ∷ [])
