-- ===== src/History/Merge/Order.antt =====
-- The result of `mergeSessionEvents` depends only on the event that is first under each id, where
-- the collation tells different ids apart.
use mathlib.Core.List.{flatten}
use mathlib.Core.Path.{ap₂, subst}
use codex_mcp_ui.Common.{
  String, ◌≡◌, refl, sym, ◌∙◌, ap, ◌≢◌, ◌↔◌, some, List, [], ◌∷◌, ◌++◌, eq_iff, eq_refl, ◌==◌,
  arith, All, Bool-cases, inl, inr, ◌or_else◌, Ordering, flatten-append,
}
use codex_mcp_ui.Common.Sort.{IsSorted}
use codex_mcp_ui.Collation.{Collation, IsCollation}
use codex_mcp_ui.Event.{EventRecord}
use codex_mcp_ui.History.Merge.{compare_events, merge_session_events}
use codex_mcp_ui.History.Merge.Ids.{find_event, DistinctIds, All-absent, find_event-append}
use codex_mcp_ui.History.Merge.Laws.{merge-DistinctIds, find_event-merge, merge-IsSorted}

-- What holds of every event holds of the one that is found.
All-find_event {ℓ} :
    (P : EventRecord → Type ℓ) (id : String) (es : List EventRecord) {f : EventRecord}
    → All P es
    → find_event id es ≡ some f
    → P f
unfolding find_event
All-find_event P id [] h e = cc
All-find_event P id (x ∷ es) {f} h e = elim (Bool-cases (x.event_id == id)) [
  | inl here ↦ let same : x ≡ f = ground arith in subst P same h.0
  | inr there ↦ All-find_event P id es h.1 (rw (there, find_event) at e)
]

-- What a merge of collections is to be.
pub record IsMerge (c : Collation) (ess : List (List EventRecord)) (es : List EventRecord)
    : Type 0 where
  pub found : (id : String) → find_event id es ≡ find_event id (flatten ess)
  pub distinct : DistinctIds es
  pub sorted : IsSorted (compare_events c) es

module _ (c : Collation) (h : IsCollation c)
    (strict : (a b : String) → c a b ≡ Ordering.eq → a ≡ b) where
  -- Neither of two events is after the other only if their ids are equal.
  same_id :
      (x y : EventRecord)
      → compare_events c x y ≢ Ordering.gt
      → compare_events c y x ≢ Ordering.gt
      → x.event_id ≡ y.event_id
  unfolding compare_events
  same_id x y p q = ground (
    arith,
    h.flip x.timestamp y.timestamp,
    h.flip x.event_id y.event_id,
    strict x.event_id y.event_id,
  )

  tails_agree :
      (x : EventRecord) (xs ys : List EventRecord)
      → All (λ f. x.event_id ≢ f.event_id) xs
      → All (λ f. x.event_id ≢ f.event_id) ys
      → ((id : String) → find_event id (x ∷ xs) ≡ find_event id (x ∷ ys))
      → (id : String) → find_event id xs ≡ find_event id ys
  unfolding find_event
  tails_agree x xs ys ax ay same id =
      ground
        (arith, same id, eq_iff x.event_id id, All-absent x.event_id xs, All-absent x.event_id ys)

  heads_agree :
      (x y : EventRecord) (xs ys : List EventRecord)
      → All (λ f. compare_events c x f ≢ Ordering.gt) xs
      → All (λ f. compare_events c y f ≢ Ordering.gt) ys
      → ((id : String) → find_event id (x ∷ xs) ≡ find_event id (y ∷ ys))
      → x ≡ y
  unfolding find_event
  heads_agree x y xs ys lx ly same = elim (Bool-cases (x.event_id == y.event_id)) [
    | inl one ↦ ground (
      arith,
      same x.event_id,
      eq_refl x.event_id,
      eq_iff x.event_id y.event_id,
      eq_iff y.event_id x.event_id,
    )
    | inr two ↦
        let found_x : find_event x.event_id ys ≡ some x = ground (
          arith,
          same x.event_id,
          eq_iff x.event_id x.event_id,
          eq_iff y.event_id x.event_id,
          eq_iff x.event_id y.event_id,
        ) in
        let found_y : find_event y.event_id xs ≡ some y =
          ground
            (arith, same y.event_id, eq_iff y.event_id y.event_id, eq_iff x.event_id y.event_id) in
        let equal : x.event_id ≡ y.event_id =
          same_id x y (All-find_event _ y.event_id xs lx found_y)
            (All-find_event _ x.event_id ys ly found_x) in
        ground (arith, eq_iff x.event_id y.event_id)
  ]

  -- Two sorted lists with distinct ids that agree on every id are equal.
  sorted_ext :
      (xs ys : List EventRecord)
      → DistinctIds xs
      → DistinctIds ys
      → IsSorted (compare_events c) xs
      → IsSorted (compare_events c) ys
      → ((id : String) → find_event id xs ≡ find_event id ys)
      → xs ≡ ys
  unfolding find_event
  sorted_ext [] [] dx dy sx sy same = refl
  sorted_ext [] (y ∷ ys) dx dy sx sy same = ground (arith, same y.event_id, eq_refl y.event_id)
  sorted_ext (x ∷ xs) [] dx dy sx sy same = ground (arith, same x.event_id, eq_refl x.event_id)
  sorted_ext (x ∷ xs) (y ∷ ys) dx dy sx sy same =
      let head : x ≡ y = heads_agree x y xs ys sx.0 sy.0 same in
      ap₂ ◌∷◌ head (
        sorted_ext xs ys dx.1 dy.1 sx.1 sy.1 (
          tails_agree x xs ys dx.0 (rw head dy.0)
            (λ id. same id ∙ ap (λ z. find_event id (z ∷ ys)) (sym head))))

  -- If the collation is a comparator that finds no two different texts equal: the merge of some
  -- collections is the one list that holds under each id the first event with that id, in the order
  -- of the collections, and no other event, that has no two events with one id, and that is sorted by
  -- timestamps and, where the collation finds these equal, by event ids.
  pub merge_session_events-IsMerge_iff :
      (ess : List (List EventRecord)) (es : List EventRecord)
      → (es ≡ merge_session_events c ess) ↔ IsMerge c ess es
  merge_session_events-IsMerge_iff ess es = (
    λ e. subst (IsMerge c ess) (sym e) (record {
      found = λ id. find_event-merge c id ess;
      distinct = merge-DistinctIds c ess;
      sorted = merge-IsSorted c h ess;
    }),
    λ m.
        sorted_ext es _ m.distinct (merge-DistinctIds c ess) m.sorted (merge-IsSorted c h ess)
          (λ id. m.found id ∙ sym (find_event-merge c id ess)),
  )

  -- If the collation is a comparator that finds no two different texts equal, then two merges are
  -- equal exactly when the same event comes first under every id.
  pub merge-eq_iff :
      (ess fss : List (List EventRecord))
      → (merge_session_events c ess ≡ merge_session_events c fss)
        ↔ ((id : String) → find_event id (flatten ess) ≡ find_event id (flatten fss))
  merge-eq_iff ess fss = (
    λ e id. sym (find_event-merge c id ess) ∙ ap (find_event id) e ∙ find_event-merge c id fss,
    λ same.
        sorted_ext _ _ (merge-DistinctIds c ess) (merge-DistinctIds c fss) (merge-IsSorted c h ess)
          (merge-IsSorted c h fss)
          (λ id. find_event-merge c id ess ∙ same id ∙ sym (find_event-merge c id fss)),
  )

  -- If the collation is a comparator that finds no two different texts equal, then merging what was
  -- merged with further collections gives what merging everything at once does.
  pub merge-merge :
      (ess fss : List (List EventRecord))
      → merge_session_events c (merge_session_events c ess ∷ fss)
        ≡ merge_session_events c (ess ++ fss)
  unfolding flatten
  merge-merge ess fss = (merge-eq_iff (merge_session_events c ess ∷ fss) (ess ++ fss)).1 λ id.
      find_event-append id (merge_session_events c ess) (flatten fss)
      ∙ ap (λ o. o or_else find_event id (flatten fss)) (find_event-merge c id ess)
      ∙ sym (find_event-append id (flatten ess) (flatten fss))
      ∙ ap (find_event id) (sym (flatten-append ess fss))
