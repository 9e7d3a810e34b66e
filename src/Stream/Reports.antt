-- ===== src/Stream/Reports.antt =====
-- Every message with data is reported, in order, whatever the connection does meanwhile.
use codex_mcp_ui.Common.{
  String, ◌≡◌, refl, ap, ◌∙◌, Bool, true, false, Option, none, some, List, [], ◌∷◌, ◌++◌, truthy,
  if◌then◌else◌, if_both, select, map, present,
}
use mathlib.Core.List.{append-nil, flatten}
use codex_mcp_ui.Event.{EventRecord}
use codex_mcp_ui.Result.{Result, Thrown, ok, throw}
use codex_mcp_ui.Stream.{
  StreamStatus, Signal, Call, Subscriber, raised, handle_parsed, on_signal, on_signals,
  subscribe_events,
}

-- The calls other than those for the status.
abbrev pub reports : List Call → List Call
reports [] = []
reports (Call.status_change status ∷ calls) = reports calls
reports (call ∷ calls) = call ∷ reports calls

-- The data of the messages.
abbrev pub data_of : List Signal → List String
data_of [] = []
data_of (Signal.message text ∷ signals) = text ∷ data_of signals
data_of (_ ∷ signals) = data_of signals

-- The reports of pieces of data, one after another.
unfoldable pub report_all : Subscriber → List String → List Call
report_all subscriber [] = []
report_all subscriber (text ∷ rest) =
    handle_parsed subscriber (subscriber.parse text) ++ report_all subscriber rest

reports-append : (xs ys : List Call) → reports (xs ++ ys) ≡ reports xs ++ reports ys
reports-append [] ys = refl
reports-append (Call.status_change s ∷ xs) ys = reports-append xs ys
reports-append (Call.event e ∷ xs) ys = ap (◌∷◌ (Call.event e)) (reports-append xs ys)
reports-append (Call.parse_error e ∷ xs) ys = ap (◌∷◌ (Call.parse_error e)) (reports-append xs ys)

reports-handle_parsed :
    (subscriber : Subscriber) (r : Result EventRecord)
    → reports (handle_parsed subscriber r) ≡ handle_parsed subscriber r
reports-handle_parsed subscriber (throw e) = refl
reports-handle_parsed subscriber (ok e) =
    ap (◌∷◌ (Call.event e)) (reports-raised (subscriber.raises e))
  where
    reports-raised : (o : Option Thrown) → reports (raised o) ≡ raised o
    reports-raised none = refl
    reports-raised (some e') = refl

reports-on_signals :
    (subscriber : Subscriber) (signals : List Signal)
    → reports (on_signals subscriber signals)
      ≡ report_all subscriber (select truthy (data_of signals))
unfolding on_signals on_signal report_all
reports-on_signals subscriber [] = refl
reports-on_signals subscriber (Signal.open_ ∷ signals) = reports-on_signals subscriber signals
reports-on_signals subscriber (Signal.close ∷ signals) = reports-on_signals subscriber signals
reports-on_signals subscriber (Signal.error ∷ signals) = reports-on_signals subscriber signals
reports-on_signals subscriber (Signal.message text ∷ signals) =
    reports-append (on_signal subscriber (Signal.message text)) (on_signals subscriber signals)
    ∙ message_step (truthy text) (reports-on_signals subscriber signals)
  where
    message_step :
        (b : Bool)
        → reports (on_signals subscriber signals)
          ≡ report_all subscriber (select truthy (data_of signals))
        → reports (if b then handle_parsed subscriber (subscriber.parse text) else [])
            ++ reports (on_signals subscriber signals)
          ≡ report_all subscriber (
              if b then text ∷ select truthy (data_of signals) else select truthy (data_of signals))
    message_step true rest =
        rw (reports-handle_parsed subscriber (subscriber.parse text), rest) refl
    message_step false rest = rest

pub all-reports :
    (subscriber : Subscriber) (signals : List Signal)
    → reports (subscribe_events subscriber signals)
      ≡ report_all subscriber (select truthy (data_of signals))
unfolding subscribe_events
all-reports subscriber signals =
    reports-append (on_signals subscriber signals) _
    ∙ append-nil (reports (on_signals subscriber signals))
    ∙ reports-on_signals subscriber signals

-- The event that a piece of data is, and the failure that it leads to: that of the parser, or what the
-- subscriber throws for the event.
abbrev event_in : Result EventRecord → List EventRecord
event_in (ok e) = e ∷ []
event_in (throw failure) = []

abbrev failure_in : (EventRecord → Option Thrown) → Result EventRecord → List Thrown
failure_in raises (ok e) = present (raises e ∷ [])
failure_in raises (throw failure) = failure ∷ []

-- What is to be reported of a piece of data.
abbrev pub due : Subscriber → String → List Call
due subscriber text =
    let result = subscriber.parse text in
    map Call.event (event_in result) ++ map Call.parse_error (failure_in subscriber.raises result)

handle_parsed-due :
    (subscriber : Subscriber) (r : Result EventRecord)
    → handle_parsed subscriber r
      ≡ map Call.event (event_in r) ++ map Call.parse_error (failure_in subscriber.raises r)
handle_parsed-due subscriber (throw e) = refl
handle_parsed-due subscriber (ok e) = ap (◌∷◌ (Call.event e)) (raised-present (subscriber.raises e))
  where
    raised-present : (o : Option Thrown) → raised o ≡ map Call.parse_error (present (o ∷ []))
    raised-present none = refl
    raised-present (some failure) = refl

report_all-due :
    (subscriber : Subscriber) (texts : List String)
    → report_all subscriber texts ≡ flatten (map (due subscriber) texts)
unfolding report_all flatten
report_all-due subscriber [] = refl
report_all-due subscriber (text ∷ texts) =
    rw (handle_parsed-due subscriber (subscriber.parse text), report_all-due subscriber texts) refl

-- The states that the connection is said to have.
abbrev pub statuses : List Call → List StreamStatus
statuses [] = []
statuses (Call.status_change status ∷ calls) = status ∷ statuses calls
statuses (_ ∷ calls) = statuses calls

-- An answer makes the connection live; its end and an error, disconnected.
abbrev pub connection : List Signal → List StreamStatus
connection [] = []
connection (Signal.open_ ∷ signals) = StreamStatus.live ∷ connection signals
connection (Signal.message text ∷ signals) = connection signals
connection (Signal.close ∷ signals) = StreamStatus.disconnected ∷ connection signals
connection (Signal.error ∷ signals) = StreamStatus.disconnected ∷ connection signals

statuses-append : (xs ys : List Call) → statuses (xs ++ ys) ≡ statuses xs ++ statuses ys
statuses-append [] ys = refl
statuses-append (Call.status_change s ∷ xs) ys = ap (◌∷◌ s) (statuses-append xs ys)
statuses-append (Call.event e ∷ xs) ys = statuses-append xs ys
statuses-append (Call.parse_error e ∷ xs) ys = statuses-append xs ys

statuses-handle_parsed :
    (subscriber : Subscriber) (r : Result EventRecord) → statuses (handle_parsed subscriber r) ≡ []
statuses-handle_parsed subscriber (throw e) = refl
statuses-handle_parsed subscriber (ok e) = statuses-raised (subscriber.raises e)
  where
    statuses-raised : (o : Option Thrown) → statuses (raised o) ≡ []
    statuses-raised none = refl
    statuses-raised (some failure) = refl

statuses-on_signals :
    (subscriber : Subscriber) (signals : List Signal)
    → statuses (on_signals subscriber signals) ≡ connection signals
unfolding on_signals on_signal
statuses-on_signals subscriber [] = refl
statuses-on_signals subscriber (Signal.open_ ∷ signals) =
    ap (◌∷◌ StreamStatus.live) (statuses-on_signals subscriber signals)
statuses-on_signals subscriber (Signal.close ∷ signals) =
    ap (◌∷◌ StreamStatus.disconnected) (statuses-on_signals subscriber signals)
statuses-on_signals subscriber (Signal.error ∷ signals) =
    ap (◌∷◌ StreamStatus.disconnected) (statuses-on_signals subscriber signals)
statuses-on_signals subscriber (Signal.message text ∷ signals) =
    statuses-append (on_signal subscriber (Signal.message text)) (on_signals subscriber signals)
    ∙ ap (λ l. l ++ statuses (on_signals subscriber signals))
        (if_both (λ calls. statuses calls ≡ []) (truthy text)
          (statuses-handle_parsed subscriber (subscriber.parse text)) refl)
    ∙ statuses-on_signals subscriber signals

-- A subscription reports, for each message with data and in the order of arrival, the event that it
-- parses to, and the failure of the parser or of the subscriber, if there is one, and nothing else:
-- opens, closes and errors of the connection between them neither lose nor repeat any. And it says
-- that the connection is connecting, then live at each answer and disconnected at each end and each
-- error, and in the end disconnected.
pub reports-subscribe_events :
    (subscriber : Subscriber) (signals : List Signal)
    → (reports (subscribe_events subscriber signals)
        ≡ flatten (map (due subscriber) (select truthy (data_of signals))))
      × (statuses (subscribe_events subscriber signals)
          ≡ StreamStatus.connecting ∷ (connection signals ++ StreamStatus.disconnected ∷ []))
unfolding subscribe_events
reports-subscribe_events subscriber signals = (
  all-reports subscriber signals ∙ report_all-due subscriber (select truthy (data_of signals)),
  ap (◌∷◌ StreamStatus.connecting) (
      statuses-append (on_signals subscriber signals) _
      ∙ ap (λ l. l ++ StreamStatus.disconnected ∷ []) (statuses-on_signals subscriber signals)),
)
