-- ===== src/Selection.antt =====
-- web/src/lib/thread-selection.ts: which thread is shown. An object of sessions by source key is a
-- table, in the order of the object's properties.
pub mod Laws
pub mod Workbench
mod Tests
use codex_mcp_ui.Common.{
  String, Bool, true, false, not, ◌&&◌, Option, none, some, List, [], ◌∷◌, ◌==◌, any, truthy,
  value_or, if◌then◌else◌,
}
use codex_mcp_ui.Common.Table.{Table, get}
use codex_mcp_ui.Event.{ClientSource, Session}

pub record ThreadSelectionResult : Type 0 where
  pub thread_id : Option String
  pub should_write_hash : Bool

-- `sessionsBySource[source.source_key] ?? []`.
abbrev pub sessions_of : Table (List Session) → ClientSource → List Session
sessions_of sessions_by_source source = value_or (get sessions_by_source source.source_key) []

unfoldable pub has_thread : List ClientSource → Table (List Session) → String → Bool
has_thread sources sessions_by_source thread_id =
    any
      (λ source.
        any (λ session. session.thread_id == thread_id) (sessions_of sessions_by_source source))
      sources

-- `sessionsBySource[source.source_key]?.[0]`.
abbrev pub first_session : List Session → Option Session
first_session [] = none
first_session (session ∷ sessions) = some session

unfoldable pub first_available_thread : List ClientSource → Table (List Session) → Option String
first_available_thread [] sessions_by_source = none
first_available_thread (source ∷ sources) sessions_by_source =
    elim (first_session (sessions_of sessions_by_source source)) [
      | some first ↦ some first.thread_id
      | none ↦ first_available_thread sources sessions_by_source
    ]

-- `a === b` on texts and `null`.
abbrev pub same_id : Option String → Option String → Bool
same_id none none = true
same_id (some a) (some b) = a == b
same_id _ _ = false

-- `!!fallback`.
abbrev pub is_given : Option String → Bool
is_given none = false
is_given (some t) = truthy t

abbrev pub fall_back : Option String → Option String → ThreadSelectionResult
fall_back hash_thread_id fallback = record {
  thread_id = fallback;
  should_write_hash = is_given fallback && not (same_id fallback hash_thread_id);
}

unfoldable pub is_listed : List ClientSource → Table (List Session) → Option String → Bool
is_listed sources sessions_by_source none = false
is_listed sources sessions_by_source (some t) = truthy t && has_thread sources sessions_by_source t

unfoldable pub resolve_thread_selection :
    Option String → List ClientSource → Table (List Session) → ThreadSelectionResult
resolve_thread_selection hash_thread_id sources sessions_by_source =
    if is_listed sources sessions_by_source hash_thread_id
    then record { thread_id = hash_thread_id; should_write_hash = false }
    else fall_back hash_thread_id (first_available_thread sources sessions_by_source)
