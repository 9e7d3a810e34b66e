-- ===== src/History/Merge/Abstract.antt =====
-- The history of a thread as `mergeSessionEvents` of web/src/lib/session-history.ts treats it: what
-- event is first under each id, however the events were delivered and however often.
use mathlib.Core.HLevel.{hedberg}
use mathlib.Core.List.{flatten}
use mathlib.Core.Quot
use mathlib.Core.Quot.{Quot, Quot-set}
use codex_mcp_ui.Common.{
  String, ◌≡◌, sym, ◌∙◌, ap, ◌↔◌, List, ◌∷◌, ◌++◌, eq_iff, ◌==◌, Bool-cases, inl, inr, ◌or_else◌,
  Ordering, arith, flatten-append,
}
use codex_mcp_ui.Collation.{Collation, IsCollation}
use codex_mcp_ui.Event.{EventRecord}
use codex_mcp_ui.History.Merge.{merge_session_events}
use codex_mcp_ui.History.Merge.Ids.{find_event, find_event-append}
use codex_mcp_ui.History.Merge.Order.{merge-eq_iff, merge-merge}

String-Discrete : Discrete String
String-Discrete a b = elim (Bool-cases (a == b)) [
  | inl same ↦ yes ((eq_iff a b).0 same)
  | inr other ↦ no (λ p. ground (arith, eq_iff a b))
]

pub events_set : IsSet (List EventRecord)
events_set = hlevel (hedberg, String-Discrete)

-- The same event is first under every id.
abbrev pub SameEvents : List (List EventRecord) → List (List EventRecord) → Type 0
SameEvents ess fss = (id : String) → find_event id (flatten ess) ≡ find_event id (flatten fss)

pub SameEvents-append :
    (ess fss gss : List (List EventRecord))
    → SameEvents ess fss
    → SameEvents (ess ++ gss) (fss ++ gss)
SameEvents-append ess fss gss same id =
    ap (find_event id) (flatten-append ess gss)
    ∙ find_event-append id (flatten ess) (flatten gss)
    ∙ ap (λ o. o or_else find_event id (flatten gss)) (same id)
    ∙ sym (find_event-append id (flatten fss) (flatten gss))
    ∙ ap (find_event id) (sym (flatten-append fss gss))

abbrev pub EventHistory : Type 0
EventHistory = Quot SameEvents

-- What was received in these collections.
abbrev pub received : List (List EventRecord) → EventHistory
received = Quot.mk

-- Further collections arrive.
unfoldable pub receive : List (List EventRecord) → EventHistory → EventHistory
receive gss =
    Quot.lift Quot-set (λ ess. received (ess ++ gss))
      λ ess fss same. Quot.sound (SameEvents-append ess fss gss same)

module _ (c : Collation) (h : IsCollation c)
    (strict : (a b : String) → c a b ≡ Ordering.eq → a ≡ b) where
  -- The list that represents a history.
  unfoldable pub view : EventHistory → List EventRecord
  view =
      Quot.lift events_set (merge_session_events c)
        λ ess fss same. (merge-eq_iff c h strict ess fss).1 same

  view-receive_each :
      (gss : List (List EventRecord)) (x : EventHistory)
      → view (receive gss x) ≡ merge_session_events c (view x ∷ gss)
  unfolding view receive
  view-receive_each gss = Quot.ind (λ x. events_set _ _) λ ess. sym (merge-merge c h strict ess gss)

  view_ext : (x y : EventHistory) → view x ≡ view y → x ≡ y
  unfolding view
  view_ext =
      Quot.ind (λ _. hlevel Quot-set)
        λ ess.
          Quot.ind (λ _. hlevel Quot-set)
            λ fss e. Quot.sound ((merge-eq_iff c h strict ess fss).0 e)

  -- If the collation is a comparator that finds no two different texts equal: the merged list
  -- represents what was received, up to what event is first under each id. Two histories are equal
  -- exactly when their lists are, and when further collections arrive, the list of the new history
  -- is the merge of the old list with them.
  pub view-receive :
      (x y : EventHistory) (gss : List (List EventRecord))
      → ((view x ≡ view y) ↔ (x ≡ y))
        × (view (receive gss x) ≡ merge_session_events c (view x ∷ gss))
  view-receive x y gss = ((view_ext x y, λ e. ap view e), view-receive_each gss x)
