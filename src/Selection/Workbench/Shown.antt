-- ===== src/Selection/Workbench/Shown.antt =====
-- The detail that is shown belongs to the selected thread, and is there whenever one is selected.
use codex_mcp_ui.Common.{
  String, ◌≡◌, refl, sym, true, Bool-cases, Option, Option-cases, none, some, inl, inr, List, [],
  ◌∷◌, ◌==◌, All, any, truthy, if_either, if_both, arith, eq_iff, is_some,
}
use mathlib.Core.Path.{subst}
use codex_mcp_ui.Common.Table.{Table, get, values}
use codex_mcp_ui.Event.{ClientSource, Session, EventRecord, SessionDetail}
use codex_mcp_ui.Selection.{has_thread}
use codex_mcp_ui.Selection.Workbench.{
  find_session, find_in_all, session_of_detail, resolve_selected_session, find_source,
  resolve_selected_source, detail_of, detail_or, detail_for_selected_thread,
}

-- What a session, a detail, or none of them, is of.
abbrev IsOf : String → Option Session → Type 0
IsOf t none = Unit
IsOf t (some session) = session.thread_id ≡ t

abbrev pub IsDetailOf : String → Option SessionDetail → Type 0
IsDetailOf t none = Unit
IsDetailOf t (some detail) = detail.session.thread_id ≡ t

find_session-IsOf : (t : String) (ss : List Session) → IsOf t (find_session t ss)
find_session-IsOf t [] = tt
find_session-IsOf t (s ∷ ss) =
    if_either (IsOf t) (s.thread_id == t) (λ e. (eq_iff s.thread_id t).0 e)
      (λ e. find_session-IsOf t ss)

find_in_all-IsOf : (t : String) (sss : List (List Session)) → IsOf t (find_in_all t sss)
unfolding find_in_all
find_in_all-IsOf t [] = tt
find_in_all-IsOf t (ss ∷ sss) =
    first_or_later (find_session t ss) (find_session-IsOf t ss) (find_in_all-IsOf t sss)
  where
    first_or_later :
        (o : Option Session)
        → IsOf t o
        → IsOf t (find_in_all t sss)
        → IsOf t (elim o [ some session ↦ some session | none ↦ find_in_all t sss ])
    first_or_later none h later = later
    first_or_later (some session) h later = h

session_of_detail-IsOf :
    (t : String) (detail : Option SessionDetail) (o : Option Session)
    → IsOf t o
    → IsOf t (session_of_detail t detail o)
session_of_detail-IsOf t none o h = h
session_of_detail-IsOf t (some detail) o h =
    if_either (IsOf t) (detail.session.thread_id == t)
      (λ e. (eq_iff detail.session.thread_id t).0 e) (λ e. h)

selected-IsOf :
    (t : String) (sessions : Table (List Session)) (detail : Option SessionDetail)
    → IsOf t (resolve_selected_session (some t) sessions detail)
unfolding resolve_selected_session
selected-IsOf t sessions detail =
    if_both (IsOf t) (truthy t)
      (session_of_detail-IsOf t detail _ (find_in_all-IsOf t (values sessions))) tt

detail_of-IsDetailOf :
    (t : String) (session : Option Session) (source : Option ClientSource)
    (events : List EventRecord)
    → IsOf t session
    → IsDetailOf t (detail_of session source events)
detail_of-IsDetailOf t (some session) (some source) events h = h
detail_of-IsDetailOf t none source events h = tt
detail_of-IsDetailOf t (some session) none events h = tt

detail_or-IsDetailOf :
    (t : String) (detail otherwise : Option SessionDetail)
    → IsDetailOf t otherwise
    → IsDetailOf t (detail_or t detail otherwise)
detail_or-IsDetailOf t none otherwise h = h
detail_or-IsDetailOf t (some detail) otherwise h =
    if_either (IsDetailOf t) (detail.session.thread_id == t)
      (λ e. (eq_iff detail.session.thread_id t).0 e) (λ e. h)

-- The detail that is projected is the selected thread's, also when the one that was last fetched
-- is another thread's.
pub detail_for_selected_thread-IsDetailOf :
    (t : String) (sources : List ClientSource) (sessions : Table (List Session))
    (detail : Option SessionDetail) (events : List EventRecord)
    → IsDetailOf t (detail_for_selected_thread (some t) sources sessions detail events)
unfolding detail_for_selected_thread
detail_for_selected_thread-IsDetailOf t sources sessions detail events =
    if_both (IsDetailOf t) (truthy t)
      (detail_or-IsDetailOf t detail _ (
        detail_of-IsDetailOf t (resolve_selected_session (some t) sessions detail) _ events
          (selected-IsOf t sessions detail)))
      tt

-- Each source's sessions stand under its key and bear it, and no other source has sessions.
abbrev pub IsKeyed : List ClientSource → Table (List Session) → Type 0
IsKeyed sources = All (λ entry.
    (is_some (find_source entry.0 sources) ≡ true) × All (λ s. s.source_key ≡ entry.0) entry.1)

find_session_of_any :
    (t : String) (ss : List Session)
    → any (λ s. s.thread_id == t) ss ≡ true
    → is_some (find_session t ss) ≡ true
find_session_of_any t [] h = cc
find_session_of_any t (s ∷ ss) h = ground (arith, h, find_session_of_any t ss)

find_in_all_of_get :
    (t key : String) (m : Table (List Session)) (ss : List Session)
    → get m key ≡ some ss
    → is_some (find_session t ss) ≡ true
    → is_some (find_in_all t (values m)) ≡ true
unfolding get find_in_all
find_in_all_of_get t key [] ss h f = cc
find_in_all_of_get t key ((k, own) ∷ m) ss h f = ground (arith, h, f, find_in_all_of_get t key m ss)

find_in_all_of_has :
    (t : String) (sources : List ClientSource) (sessions : Table (List Session))
    → has_thread sources sessions t ≡ true
    → is_some (find_in_all t (values sessions)) ≡ true
unfolding has_thread
find_in_all_of_has t [] sessions h = cc
find_in_all_of_has t (s ∷ sources) sessions h = elim (Option-cases (get sessions s.source_key)) [
  | inl miss ↦ find_in_all_of_has t sources sessions (rw miss at h)
  | inr (own, hit) ↦ elim (Bool-cases (any (λ x. x.thread_id == t) own)) [
    | inl here ↦ find_in_all_of_get t s.source_key sessions own hit (find_session_of_any t own here)
    | inr elsewhere ↦ find_in_all_of_has t sources sessions (rw (hit, elsewhere) at h)
  ]
]

-- The source of a session is listed.
abbrev HasSource : List ClientSource → Option Session → Type 0
HasSource sources none = Unit
HasSource sources (some session) = is_some (find_source session.source_key sources) ≡ true

find_session-HasSource :
    (t key : String) (sources : List ClientSource) (ss : List Session)
    → is_some (find_source key sources) ≡ true
    → All (λ s. s.source_key ≡ key) ss
    → HasSource sources (find_session t ss)
find_session-HasSource t key sources [] k h = tt
find_session-HasSource t key sources (s ∷ ss) k h =
    if_both (HasSource sources) (s.thread_id == t)
      (subst (λ l. is_some (find_source l sources) ≡ true) (sym h.0) k)
      (find_session-HasSource t key sources ss k h.1)

find_in_all-HasSource :
    (t : String) (sources : List ClientSource) (sessions : Table (List Session))
    → IsKeyed sources sessions
    → HasSource sources (find_in_all t (values sessions))
unfolding find_in_all
find_in_all-HasSource t sources [] h = tt
find_in_all-HasSource t sources ((key, ss) ∷ m) h =
    first_or_later (find_session t ss) (find_session-HasSource t key sources ss h.0.0 h.0.1)
      (find_in_all-HasSource t sources m h.1)
  where
    first_or_later :
        (o : Option Session)
        → HasSource sources o
        → HasSource sources (find_in_all t (values m))
        → HasSource sources
            (elim o [ some session ↦ some session | none ↦ find_in_all t (values m) ])
    first_or_later none h later = later
    first_or_later (some session) h later = h

source_of_none :
    (session : Session) (sources : List ClientSource) (events : List EventRecord)
    → HasSource sources (some session)
    → is_some (detail_of (some session) (find_source session.source_key sources) events) ≡ true
source_of_none session sources events h =
    elim (Option-cases (find_source session.source_key sources)) [
      | inl miss ↦ absurd (ground (arith, h, miss))
      | inr (source, hit) ↦ rw hit refl
    ]

-- The detail of a listed session, with the fetched detail or none.
found_detail :
    (t : String) (sources : List ClientSource) (detail : Option SessionDetail) (o : Option Session)
    (events : List EventRecord)
    → is_some o ≡ true
    → HasSource sources o
    → is_some (
        detail_or t detail (
          detail_of
            (session_of_detail t detail o)
            (resolve_selected_source detail (session_of_detail t detail o) sources)
            events))
      ≡ true
unfolding resolve_selected_source
found_detail t sources detail none events h k = cc
found_detail t sources none (some session) events h k = source_of_none session sources events k
found_detail t sources (some detail) (some session) events h k =
    elim (Bool-cases (detail.session.thread_id == t)) [
      | inl fetched ↦ rw fetched refl
      | inr other ↦ rw other (
          if_both (λ source. is_some (detail_of (some session) source events) ≡ true)
            (detail.session.thread_id == session.thread_id) refl
            (source_of_none session sources events k))
    ]

-- If sessions stand under the keys of listed sources alone, then a thread with a nonempty id
-- that is listed has a detail, whatever detail was fetched last.
pub detail_for_selected_thread_shown :
    (t : String) (sources : List ClientSource) (sessions : Table (List Session))
    (detail : Option SessionDetail) (events : List EventRecord)
    → IsKeyed sources sessions
    → truthy t ≡ true
    → has_thread sources sessions t ≡ true
    → is_some (detail_for_selected_thread (some t) sources sessions detail events) ≡ true
unfolding detail_for_selected_thread resolve_selected_session
detail_for_selected_thread_shown t sources sessions detail events keyed given listed = rw given (
    found_detail t sources detail (find_in_all t (values sessions)) events
      (find_in_all_of_has t sources sessions listed)
      (find_in_all-HasSource t sources sessions keyed))
