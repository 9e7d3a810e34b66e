-- ===== src/History/Merge/Ids.antt =====
-- Finding an event by its id, through the loops of `mergeSessionEvents`.
use mathlib.Core.List.{flatten, append_assoc, append-nil}
use codex_mcp_ui.Common.{
  String, ◌≡◌, refl, sym, ◌∙◌, ap, ◌≢◌, false, Option, none, some, List, [], ◌∷◌, ◌++◌, ◌==◌,
  eq_iff, if◌then◌else◌, arith, All, All-append, All_right, Bool-cases, inl, inr, ◌or_else◌,
  is_some,
}
use codex_mcp_ui.Common.Table.{Table, has, values, set_absent}
use codex_mcp_ui.Event.{EventRecord}
use codex_mcp_ui.History.Merge.{add_events, add_collections}

-- The first event with the id.
unfoldable pub find_event : String → List EventRecord → Option EventRecord
find_event id [] = none
find_event id (e ∷ es) = if e.event_id == id then some e else find_event id es

-- No two events share an id.
abbrev pub DistinctIds : List EventRecord → Type 0
DistinctIds [] = Unit
DistinctIds (e ∷ es) = All (λ f. e.event_id ≢ f.event_id) es × DistinctIds es

-- The loops, without the table: an event whose id is new goes to the end.
unfoldable pub keep : List EventRecord → List EventRecord → List EventRecord
keep acc [] = acc
keep acc (e ∷ es) = keep (if is_some (find_event e.event_id acc) then acc else acc ++ e ∷ []) es

-- Every entry's key is the id of its event.
abbrev Keyed : Table EventRecord → Type 0
Keyed = All (λ p. p.0 ≡ p.1.event_id)

values-append :
    (m : Table EventRecord) (k : String) (e : EventRecord)
    → values (m ++ (k, e) ∷ []) ≡ values m ++ e ∷ []
values-append [] k e = refl
values-append (p ∷ m) k e = rw (values-append m k e)

has-find_event :
    (m : Table EventRecord) (k : String) → Keyed m → has m k ≡ is_some (find_event k (values m))
unfolding has find_event
has-find_event [] k h = refl
has-find_event ((j, e) ∷ m) k h = ground (arith, has-find_event m k h.1, h.0)

Keyed-append :
    (m : Table EventRecord) (e : EventRecord) → Keyed m → Keyed (m ++ (e.event_id, e) ∷ [])
Keyed-append [] e h = (refl, tt)
Keyed-append (p ∷ m) e h = (h.0, Keyed-append m e h.1)

add_events-keep :
    (m : Table EventRecord) (es : List EventRecord)
    → Keyed m
    → (values (add_events m es) ≡ keep (values m) es) × Keyed (add_events m es)
unfolding add_events keep
add_events-keep m [] h = (refl, h)
add_events-keep m (e ∷ es) h = elim (Bool-cases (has m e.event_id)) [
  | inl old ↦ rw (old, sym (has-find_event m e.event_id h) ∙ old) (add_events-keep m es h)
  | inr new ↦
      rw
        (
          new,
          sym (has-find_event m e.event_id h) ∙ new,
          set_absent m e.event_id e new,
          ← values-append m e.event_id e,
        )
        (add_events-keep (m ++ (e.event_id, e) ∷ []) es (Keyed-append m e h))
]

keep-append : (acc xs ys : List EventRecord) → keep acc (xs ++ ys) ≡ keep (keep acc xs) ys
unfolding keep
keep-append acc [] ys = refl
keep-append acc (x ∷ xs) ys =
    keep-append (if is_some (find_event x.event_id acc) then acc else acc ++ x ∷ []) xs ys

-- The table holds the first event of each id, in the order of the first arrivals.
pub add_collections-keep :
    (m : Table EventRecord) (ess : List (List EventRecord))
    → Keyed m
    → values (add_collections m ess) ≡ keep (values m) (flatten ess)
unfolding add_collections keep flatten
add_collections-keep m [] h = refl
add_collections-keep m (es ∷ ess) h =
    let (same, keyed) = add_events-keep m es h in
    add_collections-keep (add_events m es) ess keyed
    ∙ ap (λ l. keep l (flatten ess)) same
    ∙ sym (keep-append (values m) es (flatten ess))

pub find_event-append :
    (id : String) (xs ys : List EventRecord)
    → find_event id (xs ++ ys) ≡ (find_event id xs or_else find_event id ys)
unfolding find_event
find_event-append id [] ys = refl
find_event-append id (x ∷ xs) ys = ground (arith, find_event-append id xs ys)

pub find_event-keep :
    (id : String) (acc es : List EventRecord)
    → find_event id (keep acc es) ≡ (find_event id acc or_else find_event id es)
unfolding keep find_event
find_event-keep id acc [] = ground arith
find_event-keep id acc (e ∷ es) = ground (
  arith,
  find_event-keep id acc es,
  find_event-keep id (acc ++ e ∷ []) es,
  find_event-append id acc (e ∷ []),
  eq_iff e.event_id id,
)

absent-All :
    (id : String) (es : List EventRecord)
    → is_some (find_event id es) ≡ false
    → All (λ f. f.event_id ≢ id) es
unfolding find_event
absent-All id [] h = tt
absent-All id (e ∷ es) h = ground (arith, absent-All id es, eq_iff e.event_id id)

pub All-absent :
    (id : String) (es : List EventRecord) → All (λ f. id ≢ f.event_id) es → find_event id es ≡ none
unfolding find_event
All-absent id [] h = refl
All-absent id (e ∷ es) h = ground (arith, All-absent id es, eq_iff e.event_id id)

All-concat :
    (d : String) (es : List EventRecord) (e : EventRecord)
    → All (λ f. d ≢ f.event_id) es
    → d ≢ e.event_id
    → All (λ f. d ≢ f.event_id) (es ++ e ∷ [])
All-concat d [] e h n = (n, tt)
All-concat d (f ∷ es) e h n = (h.0, All-concat d es e h.1 n)

DistinctIds-append :
    (es : List EventRecord) (e : EventRecord)
    → DistinctIds es
    → All (λ f. f.event_id ≢ e.event_id) es
    → DistinctIds (es ++ e ∷ [])
DistinctIds-append [] e d h = (tt, tt)
DistinctIds-append (f ∷ es) e d h =
    (All-concat f.event_id es e d.0 h.0, DistinctIds-append es e d.1 h.1)

pub keep-DistinctIds : (acc es : List EventRecord) → DistinctIds acc → DistinctIds (keep acc es)
unfolding keep
keep-DistinctIds acc [] d = d
keep-DistinctIds acc (e ∷ es) d = elim (Bool-cases (is_some (find_event e.event_id acc))) [
  | inl old ↦ rw old (keep-DistinctIds acc es d)
  | inr new ↦ rw new (
      keep-DistinctIds (acc ++ e ∷ []) es
        (DistinctIds-append acc e d (absent-All e.event_id acc new)))
]

find_none-concat :
    (acc : List EventRecord) (e : EventRecord) (es : List EventRecord)
    → DistinctIds (acc ++ e ∷ es)
    → find_event e.event_id acc ≡ none
unfolding find_event
find_none-concat [] e es d = refl
find_none-concat (f ∷ acc) e es d =
    let apart = All_right (λ g. f.event_id ≢ g.event_id) acc (e ∷ es) d.0 in
    ground (arith, find_none-concat acc e es d.1, eq_iff f.event_id e.event_id, apart.0)

-- Events with distinct ids are all kept, in their order.
pub keep_of_DistinctIds :
    (acc es : List EventRecord) → DistinctIds (acc ++ es) → keep acc es ≡ acc ++ es
unfolding keep
keep_of_DistinctIds acc [] d = sym (append-nil acc)
keep_of_DistinctIds acc (e ∷ es) d =
    rw (find_none-concat acc e es d, keep)
      (keep_of_DistinctIds (acc ++ e ∷ []) es (rw (append_assoc acc (e ∷ []) es) d)
        ∙ append_assoc acc (e ∷ []) es)

module _ {ℓ} (P : EventRecord → Type ℓ) where
  -- What holds of all that is merged holds of all that is kept.
  pub All-keep : (acc es : List EventRecord) → All P acc → All P es → All P (keep acc es)
  unfolding keep
  All-keep acc [] h k = h
  All-keep acc (e ∷ es) h k = elim (Bool-cases (is_some (find_event e.event_id acc))) [
    | inl old ↦ rw old (All-keep acc es h k.1)
    | inr new ↦ rw new (All-keep (acc ++ e ∷ []) es (All-append P acc (e ∷ []) h (k.0, tt)) k.1)
  ]
