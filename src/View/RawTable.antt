-- ===== src/View/RawTable.antt =====
-- The filter and the open rows of web/src/components/raw-event-table.tsx. `toLowerCase` is a
-- parameter: here it meets any text.
pub mod Rows
pub mod Shown
use codex_mcp_ui.Common.{
  String, ◌≡◌, refl, ap, ◌∙◌, Bool, true, false, not, Bool-cases, inl, inr, Option, List, [], ◌∷◌,
  ◌++◌, ◌==◌, select, any, truthy, value_or, if◌then◌else◌, arith, eq_iff, All, All-append, ◌≢◌,
  Distinct, if_both, if_either,
}
use codex_mcp_ui.Common.Text.{trim, includes}
use codex_mcp_ui.Event.{EventRecord}

pub record Filters : Type 0 where
  pub event_type : String
  pub request : String
  pub turn : String

-- One row through three filters.
step_lem :
    (a b d : Bool) (e : EventRecord) (xs : List EventRecord) (q r : EventRecord → Bool)
    → q e ≡ b
    → r e ≡ d
    → (if (if not a then false else if not b then false else if not d then false else true)
        then e ∷ select r (select q xs)
        else select r (select q xs))
      ≡ select r (select q (if a then e ∷ xs else xs))
step_lem false b d e xs q r s t = refl
step_lem true false d e xs q r s t = rw s refl
step_lem true true false e xs q r s t = rw (s, t) refl
step_lem true true true e xs q r s t = rw (s, t) refl

module _ (to_lower_case : String → String) where
  -- `filter.trim().toLowerCase()`.
  abbrev pub needle : String → String
  needle filter = to_lower_case (trim filter)

  -- An empty needle lets every row pass.
  abbrev pub passes : String → Option String → Bool
  passes wanted value =
      if truthy wanted then includes (to_lower_case (value_or value "")) wanted else true

  abbrev pub row_passes : Filters → EventRecord → Bool
  row_passes filters evt =
      if not (passes (needle filters.event_type) evt.event_type)
      then false
      else if not (passes (needle filters.request) evt.request_id)
      then false
      else if not (passes (needle filters.turn) evt.turn_id)
      then false
      else true

  unfoldable pub filtered : Filters → List EventRecord → List EventRecord
  filtered filters events = select (row_passes filters) events

  -- The three filters at once show what each does alone, one after the other.
  pub filtered_lem :
      (filters : Filters) (events : List EventRecord)
      → filtered filters events
        ≡ select
            (λ e. passes (needle filters.turn) e.turn_id)
            (select
              (λ e. passes (needle filters.request) e.request_id)
              (select (λ e. passes (needle filters.event_type) e.event_type) events))
  unfolding filtered
  filtered_lem filters [] = refl
  filtered_lem filters (e ∷ events) =
      ap (λ rest. if row_passes filters e then e ∷ rest else rest) (filtered_lem filters events)
      ∙ step_lem (passes (needle filters.event_type) e.event_type)
          (passes (needle filters.request) e.request_id) (passes (needle filters.turn) e.turn_id) e
          (select (λ x. passes (needle filters.event_type) x.event_type) events)
          (λ x. passes (needle filters.request) x.request_id)
          (λ x. passes (needle filters.turn) x.turn_id) refl refl

-- A `Set` of ids, in the order of insertion.
abbrev pub contains : List String → String → Bool
contains ids id = any (λ i. i == id) ids

unfoldable pub remove_id : List String → String → List String
remove_id [] id = []
remove_id (i ∷ ids) id = let rest = remove_id ids id in if i == id then ids else i ∷ rest

unfoldable pub toggle : List String → String → List String
toggle expanded id = if contains expanded id then remove_id expanded id else expanded ++ id ∷ []

contains-append :
    (ids : List String) (id j : String)
    → contains (ids ++ id ∷ []) j ≡ (if id == j then true else contains ids j)
contains-append [] id j = ground arith
contains-append (i ∷ ids) id j = ground (arith, contains-append ids id j)

absent : (ids : List String) (id : String) → All (λ i. id ≢ i) ids → contains ids id ≡ false
absent [] id h = refl
absent (i ∷ ids) id h = ground (arith, absent ids id h.1, h.0, eq_iff i id)

contains-remove_id :
    (ids : List String) (id j : String)
    → Distinct ids
    → contains (remove_id ids id) j ≡ (if id == j then false else contains ids j)
unfolding remove_id
contains-remove_id [] id j d = ground arith
contains-remove_id (i ∷ ids) id j d =
    ground (
      arith,
      contains-remove_id ids id j d.1,
      absent ids i d.0,
      eq_iff i id,
      eq_iff id j,
      eq_iff i j,
    )

-- If no id is in the set twice, then toggling a row opens it if it was closed, closes it if it was
-- open, and leaves every other row as it was.
pub contains-toggle :
    (ids : List String) (id j : String)
    → Distinct ids
    → contains (toggle ids id) j ≡ (if id == j then not (contains ids id) else contains ids j)
unfolding toggle
contains-toggle ids id j d = elim (Bool-cases (contains ids id)) [
  | inl opened ↦ rw (opened, contains-remove_id ids id j d) refl
  | inr closed ↦ rw (closed, contains-append ids id j) refl
]

remove_id-All {κ} :
    (P : String → Type κ) (ids : List String) (id : String) → All P ids → All P (remove_id ids id)
unfolding remove_id
remove_id-All P [] id h = tt
remove_id-All P (i ∷ ids) id h = if_both (All P) (i == id) h.1 (h.0, remove_id-All P ids id h.1)

remove_id-Distinct : (ids : List String) (id : String) → Distinct ids → Distinct (remove_id ids id)
unfolding remove_id
remove_id-Distinct [] id d = tt
remove_id-Distinct (i ∷ ids) id d =
    if_both Distinct (i == id) d.1
      (remove_id-All (λ j. i ≢ j) ids id d.0, remove_id-Distinct ids id d.1)

append-Distinct :
    (ids : List String) (id : String)
    → contains ids id ≡ false
    → Distinct ids
    → Distinct (ids ++ id ∷ [])
append-Distinct [] id h d = (tt, tt)
append-Distinct (i ∷ ids) id h d = (
  All-append (λ j. i ≢ j) ids (id ∷ []) d.0 ((λ same. ground (arith, h, same, eq_iff i id)), tt),
  append-Distinct ids id (ground (arith, h)) d.1,
)

toggle-Distinct : (ids : List String) (id : String) → Distinct ids → Distinct (toggle ids id)
unfolding toggle
toggle-Distinct ids id d =
    if_either Distinct (contains ids id) (λ opened. remove_id-Distinct ids id d)
      (λ closed. append-Distinct ids id closed d)

-- The rows that are open after some clicks, from none.
unfoldable pub clicked : List String → List String → List String
clicked ids [] = ids
clicked ids (id ∷ clicks) = clicked (toggle ids id) clicks

-- An odd number of clicks, counted from a row that is closed (false) or open (true).
abbrev pub is_open : Bool → String → List String → Bool
is_open opened id [] = opened
is_open opened id (c ∷ clicks) = is_open (if c == id then not opened else opened) id clicks

same_row :
    (ids : List String) (c id : String)
    → (if c == id then not (contains ids c) else contains ids id)
      ≡ (if c == id then not (contains ids id) else contains ids id)
same_row ids c id = elim (Bool-cases (c == id)) [
  | inl here ↦ rw here (ap (λ k. not (contains ids k)) ((eq_iff c id).0 here))
  | inr there ↦ rw there refl
]

-- From a set with no id twice, a row is open after some clicks exactly if the number of clicks on
-- it is odd and it was closed, or even and it was open; clicks on other rows do not matter.
pub contains-clicked :
    (ids clicks : List String) (id : String)
    → Distinct ids
    → contains (clicked ids clicks) id ≡ is_open (contains ids id) id clicks
unfolding clicked
contains-clicked ids [] id d = refl
contains-clicked ids (c ∷ clicks) id d =
    contains-clicked (toggle ids c) clicks id (toggle-Distinct ids c d)
    ∙ ap (λ b. is_open b id clicks) (contains-toggle ids c id d ∙ same_row ids c id)
