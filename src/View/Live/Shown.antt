-- ===== src/View/Live/Shown.antt =====
-- The page of `LiveSessionWorkbench` shows a conversation whenever a thread is selected.
use mathlib.Core.Path.{subst}
use codex_mcp_ui.Common.{
  String, ◌≡◌, refl, sym, ap, ◌∙◌, true, ◌||◌, Bool-cases, inl, inr, Option, none, some, List, [],
  ◌∷◌, ◌==◌, any, All, All_mono, is_some, truthy, eq_refl, arith,
}
use codex_mcp_ui.Common.Table.{Table, set, All-set}
use codex_mcp_ui.Collation.{Collation}
use codex_mcp_ui.Event.{ClientSource, Session, EventRecord, SessionDetail}
use codex_mcp_ui.History.Hook.{SessionHistoryState}
use codex_mcp_ui.Projection.Access.{Decoders}
use codex_mcp_ui.Result.{Result, ok, throw}
use codex_mcp_ui.Selection.{has_thread}
use codex_mcp_ui.Selection.Laws.{IsBest, resolve_thread_selection-IsBest}
use codex_mcp_ui.Selection.Workbench.{find_source, detail_for_selected_thread}
use codex_mcp_ui.Selection.Workbench.Shown.{IsKeyed, detail_for_selected_thread_shown}
use codex_mcp_ui.View.Page.{SessionWorkbenchProps, selection_of, page_thread, thread_for}
use codex_mcp_ui.View.Live.{
  QueryResult, source_keys_fingerprint, with_entry, session_entries, from_entries, entries_table,
  fetch_sessions, live_session_workbench,
}
use codex_mcp_ui.View.Live.Fingerprint.{IsSourceKey, source_keys, source_keys_fingerprint-injective}

-- The server's sessions of a source bear its key.
abbrev pub Bears : (String → Result (List Session)) → Type 0
Bears sessions_for_source =
    (key : String) (items : List Session)
    → sessions_for_source key ≡ ok items
    → All (λ s. s.source_key ≡ key) items

-- Whether a source is found depends on the keys alone.
find_source-keys :
    (key : String) (sources : List ClientSource)
    → is_some (find_source key sources) ≡ any (λ k. k == key) (source_keys sources)
unfolding find_source
find_source-keys key [] = refl
find_source-keys key (s ∷ sources) = elim (Bool-cases (s.source_key == key)) [
  | inl here ↦ rw here refl
  | inr there ↦ rw there (find_source-keys key sources)
]

any_weaken :
    (key : String) (k : String) (keys : List String)
    → any (λ j. j == key) keys ≡ true
    → (k == key) || any (λ j. j == key) keys ≡ true
any_weaken key k keys h = ground (arith, h)

-- Each key is among the keys.
own_keys : (keys : List String) → All (λ key. any (λ j. j == key) keys ≡ true) keys
own_keys [] = tt
own_keys (k ∷ keys) =
    (rw (eq_refl k) refl, All_mono _ _ (λ key h. any_weaken key k keys h) keys (own_keys keys))

module _ (f : String → Result (List Session)) (bears : Bears f) (P : String → Type 0) where
  abbrev IsEntry : String × List Session → Type 0
  IsEntry entry = P entry.0 × All (λ s. s.source_key ≡ entry.0) entry.1

  abbrev AllEntries : Result (List (String × List Session)) → Type 0
  AllEntries (ok entries) = All IsEntry entries
  AllEntries (throw e) = Unit

  with_entry-All :
      (key : String) (own : Result (List Session)) (rest : Result (List (String × List Session)))
      → f key ≡ own
      → P key
      → AllEntries rest
      → AllEntries (with_entry key own rest)
  with_entry-All key (ok items) (ok entries) e p h = ((p, bears key items e), h)
  with_entry-All key (ok items) (throw _) e p h = tt
  with_entry-All key (throw _) rest e p h = tt

  session_entries-All :
      (sources : List ClientSource)
      → All P (source_keys sources)
      → AllEntries (session_entries f sources)
  unfolding session_entries
  session_entries-All [] h = tt
  session_entries-All (s ∷ sources) h =
      with_entry-All s.source_key (f s.source_key) _ refl h.0 (session_entries-All sources h.1)

  from_entries-All :
      (m : Table (List Session)) (entries : List (String × List Session))
      → All IsEntry m
      → All IsEntry entries
      → All IsEntry (from_entries m entries)
  unfolding from_entries
  from_entries-All m [] h k = h
  from_entries-All m ((key, items) ∷ entries) h k =
      from_entries-All (set m key items) entries (All-set IsEntry m key items h k.0) k.1

  entries_table-All :
      (r : Result (List (String × List Session))) (m : Table (List Session))
      → AllEntries r
      → entries_table r ≡ ok m
      → All IsEntry m
  entries_table-All (ok entries) m h e =
      let same : from_entries [] entries ≡ m = cc in
      subst (All IsEntry) same (from_entries-All [] entries tt h)
  entries_table-All (throw _) m h e = cc

-- What the query for the sessions fetched for a list of sources with the same key of the query.
fetched-IsKeyed :
    (f : String → Result (List Session)) (sources old : List ClientSource)
    (m : Table (List Session))
    → Bears f
    → source_keys old ≡ source_keys sources
    → fetch_sessions f old ≡ ok m
    → IsKeyed sources m
unfolding fetch_sessions
fetched-IsKeyed f sources old m bears same fetched =
    let P = λ (key : String). is_some (find_source key sources) ≡ true in
    let keys : All P (source_keys old) =
      All_mono (λ key. any (λ j. j == key) (source_keys old) ≡ true) P
        (λ key h. find_source-keys key sources ∙ ap (any (λ j. j == key)) (sym same) ∙ h)
        (source_keys old) (own_keys (source_keys old)) in
    entries_table-All f bears P (session_entries f old) m (session_entries-All f bears P old keys)
      fetched

thread_for-is_some :
    (c : Collation) (d : Decoders) (events : List EventRecord) (o : Option SessionDetail)
    → is_some o ≡ true
    → is_some (thread_for c d events o) ≡ true
thread_for-is_some c d events none h = cc
thread_for-is_some c d events (some detail) h = refl

-- The page's properties where the query library holds these sources and sessions.
abbrev pub holding :
    Option String
    → List ClientSource
    → Table (List Session)
    → QueryResult (List ClientSource)
    → QueryResult (Table (List Session))
    → QueryResult SessionDetail
    → SessionWorkbenchProps
holding hash sources m sources_query sessions_query session_query =
    live_session_workbench hash (record sources_query { value = some sources })
      (record sessions_query { value = some m }) session_query

-- If client names have no bar in them and the server's sessions bear the key of their source: let the
-- query library hold, for the query's key, the sessions that were fetched for some list of sources,
-- and any detail of any thread. Then, whatever else it says of its queries, the page shows a
-- conversation whenever it selects a thread whose id is not empty.
pub live_session_workbench_shows :
    (c : Collation) (d : Decoders) (f : String → Result (List Session)) (hash : Option String)
    (sources old : List ClientSource) (m : Table (List Session))
    (sources_query : QueryResult (List ClientSource))
    (sessions_query : QueryResult (Table (List Session)))
    (session_query : QueryResult SessionDetail) (history : SessionHistoryState) (t : String)
    → Bears f
    → All IsSourceKey (source_keys sources)
    → All IsSourceKey (source_keys old)
    → source_keys_fingerprint old ≡ source_keys_fingerprint sources
    → fetch_sessions f old ≡ ok m
    → (selection_of (holding hash sources m sources_query sessions_query session_query)).thread_id
      ≡ some t
    → truthy t ≡ true
    → is_some (
        page_thread c d (holding hash sources m sources_query sessions_query session_query) history)
      ≡ true
unfolding live_session_workbench page_thread selection_of
live_session_workbench_shows c d f hash sources old m sources_query sessions_query session_query
      history t bears ks ko same fetched selected given =
    let keyed =
      fetched-IsKeyed f sources old m bears
        (source_keys_fingerprint-injective old sources ko ks same) fetched in
    let listed : has_thread sources m t ≡ true =
      subst (IsBest sources m) selected (resolve_thread_selection-IsBest hash sources m).1 in
    thread_for-is_some c d history.events _ (
      ap
        (λ (o : Option String).
          is_some (detail_for_selected_thread o sources m session_query.value history.events))
        selected
      ∙ detail_for_selected_thread_shown t sources m session_query.value history.events keyed given
          listed)
