-- ===== src/History/Merge/Laws.antt =====
-- What `mergeSessionEvents` returns: the first event of each id, sorted.
use mathlib.Core.List.{flatten, append-nil}
use codex_mcp_ui.Common.{
  String, ◌≡◌, refl, sym, ap, ◌∙◌, ◌≢◌, List, [], ◌∷◌, eq_iff, arith, All, Bool-cases, inl, inr,
  Ordering,
}
use codex_mcp_ui.Common.Sort.{
  insert, sort, is_gt, All-insert, All-sort, IsSorted, IsComparator, sort-IsSorted,
  sort_of_IsSorted, by_key-IsComparator, then_by-IsComparator,
}
use codex_mcp_ui.Common.Table.{values}
use codex_mcp_ui.Collation.{Collation, IsCollation}
use codex_mcp_ui.Event.{EventRecord}
use codex_mcp_ui.History.Merge.{compare_events, add_collections, merge_session_events}
use codex_mcp_ui.History.Merge.Ids.{
  find_event, DistinctIds, keep, add_collections-keep, find_event-keep, keep-DistinctIds,
  keep_of_DistinctIds, All-keep,
}

module _ (cmp : EventRecord → EventRecord → Ordering) where
  find_event-insert :
      (id : String) (x : EventRecord) (ys : List EventRecord)
      → All (λ f. x.event_id ≢ f.event_id) ys
      → find_event id (insert cmp x ys) ≡ find_event id (x ∷ ys)
  unfolding insert find_event
  find_event-insert id x [] h = refl
  find_event-insert id x (y ∷ ys) h =
      ground (arith, find_event-insert id x ys h.1, h.0, eq_iff x.event_id id, eq_iff y.event_id id)

  insert-DistinctIds :
      (x : EventRecord) (ys : List EventRecord)
      → All (λ f. x.event_id ≢ f.event_id) ys
      → DistinctIds ys
      → DistinctIds (insert cmp x ys)
  unfolding insert
  insert-DistinctIds x [] h d = (tt, tt)
  insert-DistinctIds x (y ∷ ys) h d = elim (Bool-cases (is_gt (cmp x y))) [
    | inl gt ↦ rw gt (
      All-insert cmp (λ f. y.event_id ≢ f.event_id) x ys (λ e. h.0 (sym e)) d.0,
      insert-DistinctIds x ys h.1 d.1,
    )
    | inr le ↦ rw le (h, d)
  ]

  sort-DistinctIds :
      (es : List EventRecord)
      → DistinctIds es
      → DistinctIds (sort cmp es) × ((id : String) → find_event id (sort cmp es) ≡ find_event id es)
  unfolding sort find_event
  sort-DistinctIds [] d = (tt, λ id. refl)
  sort-DistinctIds (x ∷ es) d =
      let (distinct, same) = sort-DistinctIds es d.1 in
      let apart = All-sort cmp (λ f. x.event_id ≢ f.event_id) es d.0 in
      (
        insert-DistinctIds x (sort cmp es) apart distinct,
        λ id. find_event-insert id x (sort cmp es) apart ∙ rw (same id),
      )

pub compare_events-IsComparator : (c : Collation) → IsCollation c → IsComparator (compare_events c)
unfolding compare_events
compare_events-IsComparator c h =
    then_by-IsComparator _ _ (by_key-IsComparator (λ (e : EventRecord). e.timestamp) c h)
      (by_key-IsComparator (λ (e : EventRecord). e.event_id) c h)

module _ (c : Collation) where
  kept : (ess : List (List EventRecord)) → values (add_collections [] ess) ≡ keep [] (flatten ess)
  kept ess = add_collections-keep [] ess tt

  -- Only the order of arrival counts, not how the events are grouped.
  pub merge-eq_of_flatten :
      (ess fss : List (List EventRecord))
      → flatten ess ≡ flatten fss
      → merge_session_events c ess ≡ merge_session_events c fss
  unfolding merge_session_events
  merge-eq_of_flatten ess fss same =
      ap (sort (compare_events c)) (kept ess ∙ ap (keep []) same ∙ sym (kept fss))

  -- No two events of a merge have the same id.
  pub merge-DistinctIds : (ess : List (List EventRecord)) → DistinctIds (merge_session_events c ess)
  unfolding merge_session_events
  merge-DistinctIds ess =
      rw (kept ess)
        (sort-DistinctIds (compare_events c) (keep [] (flatten ess))
          (keep-DistinctIds [] (flatten ess) tt)).0

  -- Under each id a merge holds the first event with that id, in the order of the collections, and
  -- none if they hold none.
  pub find_event-merge :
      (id : String) (ess : List (List EventRecord))
      → find_event id (merge_session_events c ess) ≡ find_event id (flatten ess)
  unfolding merge_session_events find_event
  find_event-merge id ess = rw (kept ess) (
      (sort-DistinctIds (compare_events c) (keep [] (flatten ess))
          (keep-DistinctIds [] (flatten ess) tt)).1
        id
      ∙ find_event-keep id [] (flatten ess))

  pub All-merge {ℓ} :
      (P : EventRecord → Type ℓ) (ess : List (List EventRecord))
      → All P (flatten ess)
      → All P (merge_session_events c ess)
  unfolding merge_session_events
  All-merge P ess h = rw (kept ess) (All-sort _ P _ (All-keep P [] (flatten ess) tt h))

  module _ (h : IsCollation c) where
    -- If the collation is a comparator, a merge is sorted by timestamps and, where the collation
    -- finds these equal, by event ids.
    pub merge-IsSorted :
        (ess : List (List EventRecord)) → IsSorted (compare_events c) (merge_session_events c ess)
    unfolding merge_session_events
    merge-IsSorted ess = sort-IsSorted _ (compare_events-IsComparator c h) _

    merge_of_IsSorted :
        (es : List EventRecord)
        → DistinctIds es
        → IsSorted (compare_events c) es
        → merge_session_events c (es ∷ []) ≡ es
    unfolding merge_session_events flatten
    merge_of_IsSorted es d s =
        rw (kept (es ∷ []), append-nil, keep_of_DistinctIds [] es d)
          (sort_of_IsSorted (compare_events c) es s)

    -- If the collation is a comparator, merging what is already merged changes nothing.
    merge_idempotent :
        (ess : List (List EventRecord))
        → merge_session_events c (merge_session_events c ess ∷ []) ≡ merge_session_events c ess
    merge_idempotent ess = merge_of_IsSorted _ (merge-DistinctIds ess) (merge-IsSorted ess)
