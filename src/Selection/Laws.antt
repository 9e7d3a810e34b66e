-- ===== src/Selection/Laws.antt =====
-- What `resolveThreadSelection` selects, and that writing the hash settles the selection.
use codex_mcp_ui.Common.{
  String, ◌≡◌, refl, Bool, true, false, ◌||◌, ◌⊎◌, Bool-cases, Option, none, some, inl, inr, List,
  [], ◌∷◌, ◌==◌, any, truthy, if_either, if_both, arith, eq_refl,
}
use codex_mcp_ui.Common.Table.{Table}
use codex_mcp_ui.Event.{ClientSource, Session}
use codex_mcp_ui.Selection.{
  ThreadSelectionResult, sessions_of, has_thread, first_available_thread, same_id, is_given,
  is_listed, first_session, resolve_thread_selection,
}

-- What is selected is listed, if anything is.
abbrev pub IsBest : List ClientSource → Table (List Session) → Option String → Type 0
IsBest sources sessions none = (t : String) → has_thread sources sessions t ≡ false
IsBest sources sessions (some t) = has_thread sources sessions t ≡ true

-- The same, with the sessions of one more source.
abbrev IsBestWith : List Session → List ClientSource → Table (List Session) → Option String → Type 0
IsBestWith own sources sessions none =
    (t : String)
    → any (λ session. session.thread_id == t) own || has_thread sources sessions t ≡ false
IsBestWith own sources sessions (some t) =
    any (λ session. session.thread_id == t) own || has_thread sources sessions t ≡ true

or_true : (b : Bool) → b || true ≡ true
or_true true = refl
or_true false = refl

first-IsBestWith :
    (own : List Session) (sources : List ClientSource) (sessions : Table (List Session))
    (rest : Option String)
    → IsBest sources sessions rest
    → IsBestWith own sources sessions
        (elim (first_session own) [ some first ↦ some first.thread_id | none ↦ rest ])
first-IsBestWith [] sources sessions none h = h
first-IsBestWith [] sources sessions (some t) h = h
first-IsBestWith (x ∷ own) sources sessions rest h = rw (eq_refl x.thread_id) refl

first_available_thread-IsBest :
    (sources : List ClientSource) (sessions : Table (List Session))
    → IsBest sources sessions (first_available_thread sources sessions)
unfolding first_available_thread has_thread
first_available_thread-IsBest [] sessions = λ t. refl
first_available_thread-IsBest (s ∷ sources) sessions =
    best (first_available_thread (s ∷ sources) sessions) (
      first-IsBestWith (sessions_of sessions s) sources sessions _
        (first_available_thread-IsBest sources sessions))
  where
    best :
        (o : Option String)
        → IsBestWith (sessions_of sessions s) sources sessions o
        → IsBest (s ∷ sources) sessions o
    best none h = h
    best (some t) h = h

listed-IsBest :
    (sources : List ClientSource) (sessions : Table (List Session)) (hash : Option String)
    → is_listed sources sessions hash ≡ true
    → IsBest sources sessions hash
unfolding is_listed
listed-IsBest sources sessions none h = cc
listed-IsBest sources sessions (some t) h = ground (arith, h)

-- The selected thread is the one of the hash, if it is listed; whatever the hash says, a selected
-- thread is listed, and if none is selected then no thread is listed.
pub resolve_thread_selection-IsBest :
    (hash : Option String) (sources : List ClientSource) (sessions : Table (List Session))
    → (is_listed sources sessions hash ≡ true
        → (resolve_thread_selection hash sources sessions).thread_id ≡ hash)
      × IsBest sources sessions (resolve_thread_selection hash sources sessions).thread_id
unfolding resolve_thread_selection
resolve_thread_selection-IsBest hash sources sessions = (
  λ listed. rw listed,
  if_either (λ (r : ThreadSelectionResult). IsBest sources sessions r.thread_id)
      (is_listed sources sessions hash) (λ listed. listed-IsBest sources sessions hash listed)
      (λ other. first_available_thread-IsBest sources sessions),
)

-- A selected thread that is its own fallback needs no other.
settled_for :
    (sources : List ClientSource) (sessions : Table (List Session)) (o : Option String)
    → IsBest sources sessions o
    → (is_listed sources sessions o ≡ true) ⊎ (is_given o ≡ false)
unfolding is_listed
settled_for sources sessions none h = inr refl
settled_for sources sessions (some t) h = elim (Bool-cases (truthy t)) [
  | inl there ↦ inl (rw (there, h))
  | inr blank ↦ inr blank
]

same_id_refl : (o : Option String) → same_id o o ≡ true
same_id_refl none = refl
same_id_refl (some t) = eq_refl t

fallback_settles :
    (sources : List ClientSource) (sessions : Table (List Session))
    → resolve_thread_selection (first_available_thread sources sessions) sources sessions
      ≡ record { thread_id = first_available_thread sources sessions; should_write_hash = false }
unfolding resolve_thread_selection
fallback_settles sources sessions =
    let first = first_available_thread sources sessions in
    elim (settled_for sources sessions first (first_available_thread-IsBest sources sessions)) [
      | inl listed ↦ rw listed refl
      | inr blank ↦
          if_both (λ r. r ≡ record { thread_id = first; should_write_hash = false })
            (is_listed sources sessions first) refl (rw blank refl)
    ]

-- Once the hash is what was selected, the same thread is selected, and the hash is not written
-- again.
pub resolve_thread_selection_settles :
    (hash : Option String) (sources : List ClientSource) (sessions : Table (List Session))
    → resolve_thread_selection
        (resolve_thread_selection hash sources sessions).thread_id
        sources
        sessions
      ≡ record {
        thread_id = (resolve_thread_selection hash sources sessions).thread_id;
        should_write_hash = false;
      }
unfolding resolve_thread_selection
resolve_thread_selection_settles hash sources sessions =
    elim (Bool-cases (is_listed sources sessions hash)) [
      | inl listed ↦ rw (listed, listed) refl
      | inr other ↦ rw other (fallback_settles sources sessions)
    ]
