-- ===== src/Projection/Dispatch/Pushed.antt =====
-- What one event of the loop in web/src/lib/assistant-projection.ts adds to the items, and to the
-- keys of the maps.
use mathlib.Core.List.{append-nil, append_assoc}
use codex_mcp_ui.Common.{
  ℕ, suc, String, ◌≡◌, refl, sym, ap, ◌∙◌, Bool, true, false, Option, none, some, List, [], ◌∷◌,
  ◌++◌, if◌then◌else◌, Bool-cases, inl, inr, truthy,
}
use codex_mcp_ui.Common.Table.{Table}
use codex_mcp_ui.Event.{EventRecord}
use codex_mcp_ui.Projection.Parts.{Title, AssistantPartItem, ProjectionItem, PairBucket}
use codex_mcp_ui.Projection.Items.{project_mcp_method}
use codex_mcp_ui.Projection.Switch.{PairKind, Case, case_of}
use codex_mcp_ui.Projection.Titles.{is_approval_event, lifecycle_title}
use codex_mcp_ui.Projection.Dispatch.{
  Projection, empty_projection, set_pair_buckets, or_unknown, or_method, default_for,
  project_default, project_case, project_event, project_events, is_skipped,
}

items-set_pair_buckets :
    (p : Projection) (kind : PairKind) (m : Table PairBucket)
    → (set_pair_buckets p kind m).items ≡ p.items
unfolding set_pair_buckets
items-set_pair_buckets p PairKind.mcp_tool m = refl
items-set_pair_buckets p PairKind.web_search m = refl
items-set_pair_buckets p PairKind.image_generation m = refl
items-set_pair_buckets p PairKind.patch m = refl
items-set_pair_buckets p PairKind.dynamic_tool m = refl
items-set_pair_buckets p PairKind.collab_spawn m = refl
items-set_pair_buckets p PairKind.collab_interaction m = refl
items-set_pair_buckets p PairKind.collab_wait m = refl
items-set_pair_buckets p PairKind.collab_close m = refl
items-set_pair_buckets p PairKind.collab_resume m = refl

-- What an event pushes, whatever came before it.
abbrev pub own_items : EventRecord → ℕ → List ProjectionItem
own_items event index = (project_event empty_projection event index).items

abbrev pub all_own_items : List EventRecord → ℕ → List ProjectionItem
all_own_items [] index = []
all_own_items (event ∷ events) index = own_items event index ++ all_own_items events (suc index)

module _ (p : Projection) (event : EventRecord) (index : ℕ) where
  -- The second variables have the items that the first ones, without those of p, have.
  abbrev Adds : Projection → Projection → Type 0
  Adds q r = q.items ≡ p.items ++ r.items

  or_unknown-Adds :
      (t : String) (o : Option AssistantPartItem)
      → Adds (or_unknown p event index t o) (or_unknown empty_projection event index t o)
  or_unknown-Adds t none = refl
  or_unknown-Adds t (some item) = refl

  or_method-Adds :
      (t : String) (o : Option Title)
      → Adds (or_method p event index t o) (or_method empty_projection event index t o)
  or_method-Adds t none = or_unknown-Adds t (project_mcp_method event index)
  or_method-Adds t (some title) = refl

  nothing-Adds : (xs ys : List ProjectionItem) → xs ≡ p.items → ys ≡ [] → xs ≡ p.items ++ ys
  nothing-Adds xs ys same none_there = rw (same, none_there) (sym (append-nil p.items))

  default_for-Adds :
      (o : Option String)
      → Adds (default_for p event index o) (default_for empty_projection event index o)
  default_for-Adds none = sym (append-nil p.items)
  default_for-Adds (some t) = elim (Bool-cases (truthy t)) [
    | inl given ↦ elim (Bool-cases (is_approval_event t)) [
      | inl approval ↦ rw (given, approval) refl
      | inr other ↦ rw (given, other) (or_method-Adds t (lifecycle_title t))
    ]
    | inr blank ↦ rw blank (sym (append-nil p.items))
  ]

  case-Adds :
      (c : Case) → Adds (project_case p event index c) (project_case empty_projection event index c)
  unfolding project_case project_default
  case-Adds Case.user_message = refl
  case-Adds Case.agent_message = refl
  case-Adds Case.agent_reasoning = refl
  case-Adds Case.agent_reasoning_raw_content = refl
  case-Adds Case.message_delta = sym (append-nil p.items)
  case-Adds Case.reasoning_delta = sym (append-nil p.items)
  case-Adds Case.raw_content_delta = sym (append-nil p.items)
  case-Adds Case.section_break = refl
  case-Adds Case.exec_begin = sym (append-nil p.items)
  case-Adds Case.exec_output = sym (append-nil p.items)
  case-Adds Case.exec_interaction = sym (append-nil p.items)
  case-Adds Case.exec_end = sym (append-nil p.items)
  case-Adds (Case.pair_begin k) =
      nothing-Adds _ _ (items-set_pair_buckets p k _) (items-set_pair_buckets empty_projection k _)
  case-Adds (Case.pair_end k) =
      nothing-Adds _ _ (items-set_pair_buckets p k _) (items-set_pair_buckets empty_projection k _)
  case-Adds Case.view_image = refl
  case-Adds Case.plan_update = refl
  case-Adds Case.plan_delta = refl
  case-Adds Case.default = default_for-Adds event.event_type

  skip-Adds :
      (s : Bool) (c : Case)
      → Adds
          (if s then p else project_case p event index c)
          (if s then empty_projection else project_case empty_projection event index c)
  skip-Adds true c = sym (append-nil p.items)
  skip-Adds false c = case-Adds c

  event-Adds : (project_event p event index).items ≡ p.items ++ own_items event index
  unfolding project_event
  event-Adds = skip-Adds (is_skipped event) (case_of event.event_type)

-- The loop's items are those that the events push.
pub project_events-items :
    (p : Projection) (events : List EventRecord) (index : ℕ)
    → (project_events p events index).items ≡ p.items ++ all_own_items events index
unfolding project_events
project_events-items p [] index = sym (append-nil p.items)
project_events-items p (event ∷ events) index =
    project_events-items (project_event p event index) events (suc index)
    ∙ ap (λ l. l ++ all_own_items events (suc index)) (event-Adds p event index)
    ∙ append_assoc p.items (own_items event index) _
