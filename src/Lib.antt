-- ===== src/Lib.antt =====
-- Verification of the web client of codex-mcp-ui: what web/src makes of the events of a Codex session,
-- from the HTTP pages and the live stream to the page that is shown.
--
-- How the parts work together. The hook `useSessionHistory` (web/src/lib/session-history.ts)
-- subscribes to the live stream of a thread, loads the stored events page by page, and merges both
-- into one list, which it also caches per thread. `projectReadonlyAssistantThread`
-- (web/src/lib/assistant-projection.ts) turns such a list into a header and messages: a loop over the
-- events pushes items and fills buckets of begin and end events and of deltas; each bucket gives at
-- most one part; the items are sorted and folded into messages. The workbench selects the thread, by the
-- location's hash or the first one listed, and shows the messages through a runtime that refuses
-- every mutation, beside the list of threads, the table of raw events and the metadata. Clicks go back:
-- a click in the list writes the hash, one in the table opens or shuts a row, and a retry starts the
-- page again after an error.
--
-- Which file models which part:
--   Common         Boolean tests, lists, the JavaScript Map (Table), the stable sort (Sort), texts (Text)
--   Json           parsed JSON, and asRecord, str, num, list, stripTypeField
--   Event          the records of web/src/lib/types.ts; Event/Fixtures has web/src/lib/fixtures.ts, and
--                  Event/Samples more events for the tests
--   Collation      the sign of localeCompare; CodePoints is an instance
--   Result         calls that may throw, toError
--   History/Merge  compareEvents, sameEventIds, latestEventId, mergeSessionEvents; Ids, Laws and Order
--                  prove what a merge holds, Abstract has what it represents, as a quotient
--   History/Load   loadSessionHistory; Laws proves it against the pages that the server offers
--   History/Hook   the state of the hook, the function given to setState, renders; Handlers has the
--                  effect and its callbacks and the machine, Effects the machine with the loads
--                  of earlier effects; Owned and Isolation, Handoff, Live, Refresh, Burst and Gap
--                  prove what the machines show
--   Stream, Api    web/src/lib/sse.ts and api.ts: URLs, requests, and what a subscription reports
--                  (Stream/Reports) and asks for (Stream/Query)
--   Selection      web/src/lib/thread-selection.ts; Workbench has the selection of the session, its
--                  source and its detail in web/src/components/workbench/session-workbench.tsx
--   Location       web/src/lib/use-hash-thread-id.ts
--   Runtime        web/src/lib/readonly-assistant-runtime.ts: Tables has each wrapper by its properties,
--                  Calls what a use of one does, Messages toThreadMessages and the reported states,
--                  Config what is handed to the runtime library; Refusal and Mutations tell reads from
--                  mutations
--   Payload        web/src/lib/utils.ts: JSON.stringify, prettyPayload, truncate, compactPayloadPreview
--   Markup         trees of elements, their attributes and handlers, and the clicks they offer
--   View           the components of web/src/components. Keys: the keys and labels of parts, Messages:
--                  the conversation (workbench/readonly-assistant-thread.tsx); RawTable: the filter and
--                  the open rows, RawTable/Rows: the table (raw-event-table.tsx); Sidebar:
--                  workbench/grouped-thread-sidebar.tsx and client-source-tree.tsx; Panels:
--                  session-header.tsx, metadata-panel.tsx, connection-status.tsx; MessageBlock, Markdown
--                  (markdown/markdown-config.tsx), Tabs (workbench/session-conversation-tabs.tsx); Page:
--                  SessionWorkbench, Live: LiveSessionWorkbench (workbench/session-workbench.tsx) with
--                  the settings of web/src/lib/query-client.ts; Boundary: error-boundary.tsx and App.tsx
--   Conversation   the stream, the hook and the projection together
--   Projection     Parts (the interfaces), Access (msgOf, bucketId, streamBucketId, base64DecodeUtf8),
--                  Buckets (getBucket, appendStreamChunk, terminateStream, projectStreamBucket),
--                  Status, Tools, Pairs (the project*Bucket functions), Titles, Items, Switch,
--                  Dispatch (the event loop; Pairing, Meeting, Commands and Streaming tell what its
--                  buckets hold; Pushed, Keyed, CommandKeys and StreamKeys what it pushes and under
--                  which keys), Fold (foldItemsIntoMessages), Thread (projectHeader and the whole
--                  function; Due has the items that the events call for)
--
-- Parameters of the model. The collation is a function into signs; where a theorem needs more, its
-- hypotheses say so: `IsCollation` is what a sort asks of its comparator, and a strict collation finds
-- no two different texts equal. `EventsPage` is the server, which may answer equal requests
-- differently, and `Fetch` the same one level below. `Decoders` are atob and the fatal TextDecoders,
-- none where they throw; `UriCoding` and `UrlCoding` are the codings of URLs. `eager` says whether
-- React runs a functional update at once while none waits, which it may; other updates wait for the
-- next render. A render for another thread and the start of that thread's effect are two actions of
-- the machine, between which the old effect still hears the stream; what is shown is the selected
-- thread's where no functional update waits when an effect starts (`StartsSettled`), and Gap has a run
-- where one waits. The streaming library is a sequence of signals, with JSON.parse and the subscriber as
-- parameters. The runtime library is what each property of its objects does to a world, and how it
-- renders a component for its messages. `Texts` are what the browser prints of numbers, dates and parts.
-- `Workbench` is what a render of the workbench throws, for the page's error boundary.
-- The query library is what it says of each query (`QueryResult`), and a server that `Bears` keys lists
-- under a source only sessions with the source's key. `cn` joins class names.
--
-- Fuel. The loop of loadSessionHistory runs on fuel, one unit for each request. As much fuel as the
-- server has pages is enough, and one more than the pages before a failing request.
--
-- State. A Map is a list of entries in order of insertion; objects that the source changes in place
-- (buckets, the message that is open, the effect's variables) are values that are passed on, since
-- each has one owner. Indices and counters are natural numbers; the loop never reaches 2^53 events.
-- A JSON number is its decimal digits, of which the code only asks whether it is 0.
--
-- An object that serves as a table is taken to have the keys that were put into it, except for the
-- lookup of lifecycle titles, where an event type may name what the object inherits.
--
-- Markup. A component is a function from its properties and state to a tree, as a render returns it;
-- a handler is the action that it does. Classes are left out, except where they depend on what is shown.
--
-- Not modelled. The rest of the styles, and the interface kit; the polling and the caches of the query
-- library; the double run of effects and updates in React's strict mode; the Go hub and proxy behind
-- the HTTP interface.
pub mod Common
pub mod Json
pub mod Event
pub mod Collation
pub mod Result
pub mod History
pub mod Projection
pub mod Api
pub mod Conversation
pub mod Location
pub mod Markup
pub mod Payload
pub mod Runtime
pub mod Selection
pub mod Stream
pub mod View
