-- ===== src/Projection/Thread/Order.antt =====
-- The order of a projected thread's parts, and the messages that hold them.
use codex_mcp_ui.Common.{
  ◌≡◌, ◌≢◌, refl, ◌⊎◌, inl, inr, List, [], ◌∷◌, compare, Ordering, ◌≤◌, All, All_mono, arith,
}
use codex_mcp_ui.Common.Sort.{
  IsSorted, IsComparator, sort-IsSorted, sort-perm, by_key-IsComparator, then_by-IsComparator,
  compare-IsComparator,
}
use mathlib.Core.List.{Perm}
use mathlib.Core.Path.{subst}
use codex_mcp_ui.Collation.{Collation, IsCollation}
use codex_mcp_ui.Event.{EventRecord, SessionDetail}
use codex_mcp_ui.Projection.Access.{Decoders}
use codex_mcp_ui.Projection.Parts.{ProjectionItem}
use codex_mcp_ui.Projection.Thread.Due.{due_items, collect_items-due}
use codex_mcp_ui.Projection.Fold.Grouping.{
  parts_of_items, parts_of_messages, parts-fold_items_into_messages,
}
use codex_mcp_ui.Projection.Thread.{
  item_timestamp, item_order, compare_items, collect_items, sorted_items,
  project_readonly_assistant_thread,
}

compare_items-IsComparator : (c : Collation) → IsCollation c → IsComparator (compare_items c)
unfolding compare_items
compare_items-IsComparator c h =
    then_by-IsComparator (λ a b. c (item_timestamp a) (item_timestamp b))
      (λ a b. compare (item_order a) (item_order b)) (by_key-IsComparator item_timestamp c h)
      (by_key-IsComparator item_order compare compare-IsComparator)

-- The earlier timestamp stands first and, of equal ones, the lower `order`.
abbrev pub StandsBefore : Collation → ProjectionItem → ProjectionItem → Type 0
StandsBefore c a b =
    (c (item_timestamp a) (item_timestamp b) ≡ Ordering.lt)
    ⊎ ((c (item_timestamp a) (item_timestamp b) ≡ Ordering.eq) × (item_order a ≤ item_order b))

abbrev pub InOrder : Collation → List ProjectionItem → Type 0
InOrder c [] = Unit
InOrder c (a ∷ items) = All (StandsBefore c a) items × InOrder c items

compared-StandsBefore :
    (c : Collation) (a b : ProjectionItem) → compare_items c a b ≢ Ordering.gt → StandsBefore c a b
unfolding compare_items
compared-StandsBefore c a b h = by_sign (c (item_timestamp a) (item_timestamp b)) refl
  where
    by_sign : (o : Ordering) → c (item_timestamp a) (item_timestamp b) ≡ o → StandsBefore c a b
    by_sign Ordering.lt e = inl e
    by_sign Ordering.eq e = inr (e, ground arith)
    by_sign Ordering.gt e = absurd (h (rw e refl))

IsSorted-InOrder :
    (c : Collation) (items : List ProjectionItem)
    → IsSorted (compare_items c) items
    → InOrder c items
IsSorted-InOrder c [] h = tt
IsSorted-InOrder c (a ∷ items) h =
    (All_mono _ _ (compared-StandsBefore c a) items h.0, IsSorted-InOrder c items h.1)

-- If the collation is a comparator, the parts of the projected thread's messages are those of a list of
-- items that holds each of these once and nothing else: what each event that is not skipped pushes
-- by itself, the part of every call of the eleven maps under its id, made of the call's events, and
-- the part of every stream that has one, made of its deltas. In that list, of any two items the one
-- with the earlier timestamp stands first and, of equal timestamps, the one with the lower `order`.
pub project_readonly_assistant_thread-InOrder :
    (c : Collation) (d : Decoders) (detail : SessionDetail) (events : List EventRecord)
    → IsCollation c
    → (items : List ProjectionItem) × (parts_of_messages
          (project_readonly_assistant_thread c d detail events).messages
        ≡ parts_of_items items)
      × Perm items (due_items d events)
      × InOrder c items
unfolding project_readonly_assistant_thread sorted_items
project_readonly_assistant_thread-InOrder c d detail events h = (
  sorted_items c d events,
  parts-fold_items_into_messages (sorted_items c d events),
  subst (Perm (sorted_items c d events)) (collect_items-due d events)
      (sort-perm (compare_items c) (collect_items d events)),
  IsSorted-InOrder c (sorted_items c d events)
      (sort-IsSorted (compare_items c) (compare_items-IsComparator c h) (collect_items d events)),
)
