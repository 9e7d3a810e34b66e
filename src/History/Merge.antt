-- ===== src/History/Merge.antt =====
-- `compareEvents`, `sameEventIds`, `latestEventId` and `mergeSessionEvents` of
-- web/src/lib/session-history.ts.
pub mod Ids
pub mod Laws
pub mod Order
pub mod Abstract
use codex_mcp_ui.Common.{
  String, Ordering, Bool, true, false, not, ◌&&◌, Option, none, some, List, [], ◌∷◌, ◌==◌,
  if◌then◌else◌, last?,
}
use codex_mcp_ui.Common.Sort.{then_by, sort}
use codex_mcp_ui.Common.Table.{Table, has, set, values}
use codex_mcp_ui.Collation.{Collation}
use codex_mcp_ui.Event.{EventRecord}

unfoldable pub compare_events : Collation → EventRecord → EventRecord → Ordering
compare_events locale_compare left right =
    then_by (locale_compare left.timestamp right.timestamp)
      (locale_compare left.event_id right.event_id)

-- One test for the lengths and the elements: `every` over the indices of `left`.
unfoldable pub same_event_ids : List EventRecord → List EventRecord → Bool
same_event_ids [] [] = true
same_event_ids (l ∷ ls) (r ∷ rs) = l.event_id == r.event_id && same_event_ids ls rs
same_event_ids _ _ = false

unfoldable pub latest_event_id : List EventRecord → Option String
latest_event_id events = elim (last? events) [ none ↦ none | some e ↦ some e.event_id ]

-- The inner loop of `mergeSessionEvents`.
unfoldable pub add_events : Table EventRecord → List EventRecord → Table EventRecord
add_events deduped [] = deduped
add_events deduped (event ∷ events) =
    add_events (if has deduped event.event_id then deduped else set deduped event.event_id event)
      events

-- The outer loop.
unfoldable pub add_collections : Table EventRecord → List (List EventRecord) → Table EventRecord
add_collections deduped [] = deduped
add_collections deduped (events ∷ collections) =
    add_collections (add_events deduped events) collections

unfoldable pub merge_session_events : Collation → List (List EventRecord) → List EventRecord
merge_session_events locale_compare collections =
    sort (compare_events locale_compare) (values (add_collections [] collections))
