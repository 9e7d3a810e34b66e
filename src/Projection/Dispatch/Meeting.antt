-- ===== src/Projection/Dispatch/Meeting.antt =====
-- What the buckets of begin and end events hold after the loop of `projectReadonlyAssistantThread`
-- (web/src/lib/assistant-projection.ts), told from the events alone.
use codex_mcp_ui.Common.{
  ℕ, suc, String, ◌≡◌, refl, ap, ◌∙◌, Bool, true, false, not, ◌&&◌, Option, none, some, List, [],
  ◌∷◌, ◌==◌, nat_eq, eq_iff, arith, if◌then◌else◌, Bool-cases, inl, inr, select, last?, value_or,
}
use codex_mcp_ui.Common.Table.{Table, get}
use codex_mcp_ui.Common.{last_after, last_after-none, last_after-select}
use codex_mcp_ui.Event.{EventRecord}
use codex_mcp_ui.Projection.Access.{bucket_id}
use codex_mcp_ui.Projection.Parts.{ProjectionItem, ExecBucket, PairBucket, StreamBucket}
use codex_mcp_ui.Projection.Buckets.{empty_pair}
use codex_mcp_ui.Projection.Buckets.Laws.{get-change_bucket}
use codex_mcp_ui.Projection.Switch.{PairKind, Case, case_of}
use codex_mcp_ui.Projection.Dispatch.Kinds.{
  position, pair_buckets-position, pair_buckets-set_pair_buckets_if, kept, default_for-pair_buckets,
}
use codex_mcp_ui.Projection.Dispatch.{
  Projection, empty_projection, pair_buckets, change_pair, project_default, project_case,
  project_event, project_events, is_skipped,
}

abbrev pub begins : PairKind → Case → Bool
begins kind (Case.pair_begin k) = nat_eq (position k) (position kind)
begins kind _ = false

abbrev pub ends : PairKind → Case → Bool
ends kind (Case.pair_end k) = nat_eq (position k) (position kind)
ends kind _ = false

-- The begin and the end events of a kind with a bucket id.
abbrev pub is_begin : PairKind → String → EventRecord → Bool
is_begin kind id e = not (is_skipped e) && (begins kind (case_of e.event_type) && bucket_id e == id)

abbrev pub is_end : PairKind → String → EventRecord → Bool
is_end kind id e = not (is_skipped e) && (ends kind (case_of e.event_type) && bucket_id e == id)

-- A bucket of what there is.
abbrev pub met : Option EventRecord → Option EventRecord → Option PairBucket
met none none = none
met b e = some (record { begin = b; end = e })

nat_eq_sound : (m n : ℕ) → nat_eq m n ≡ true → m ≡ n
nat_eq_sound m n h = ground (arith, h)

-- A change to the bucket of an event's kind and id, read under any kind and id.
get-change_pair :
    (p : Projection) (event : EventRecord) (k kind : PairKind) (id : String)
    (f : PairBucket → PairBucket)
    → get (pair_buckets (change_pair p k event f) kind) id ≡ (
        if nat_eq (position k) (position kind) && bucket_id event == id
        then some (f (value_or (get (pair_buckets p kind) id) empty_pair))
        else get (pair_buckets p kind) id)
get-change_pair p event k kind id f = elim (Bool-cases (nat_eq (position k) (position kind))) [
  | inl same_kind ↦
      let one = pair_buckets-position p k kind (nat_eq_sound _ _ same_kind) in
      elim (Bool-cases (bucket_id event == id)) [
        | inl same_id ↦
            let own = (eq_iff (bucket_id event) id).0 same_id in
            rw (pair_buckets-set_pair_buckets_if, same_kind, get-change_bucket, same_id, one, own)
              refl
        | inr other ↦
            rw (pair_buckets-set_pair_buckets_if, same_kind, get-change_bucket, other, one) refl
      ]
  | inr other_kind ↦ rw (pair_buckets-set_pair_buckets_if, other_kind) refl
]

value_or-met :
    (b e : Option EventRecord) → value_or (met b e) empty_pair ≡ record { begin = b; end = e }
value_or-met none none = refl
value_or-met none (some e) = refl
value_or-met (some b) e = refl

module _ (p : Projection) (event : EventRecord) (index : ℕ) (kind : PairKind) (id : String)
    (b e : Option EventRecord) (before : get (pair_buckets p kind) id ≡ met b e) where
  abbrev After : Projection → Bool → Bool → Type 0
  After q is_b is_e =
      get (pair_buckets q kind) id
      ≡ met (if is_b then some event else b) (if is_e then some event else e)

  begin-After :
      (k : PairKind)
      → After
          (change_pair p k event (λ x. record x { begin = some event }))
          (nat_eq (position k) (position kind) && bucket_id event == id)
          false
  begin-After k =
      get-change_pair p event k kind id (λ x. record x { begin = some event })
      ∙ (rw (before, value_or-met)
          (if_met (nat_eq (position k) (position kind) && bucket_id event == id)))
    where
      if_met :
          (c : Bool)
          → (if c then some (record { begin = some event; end = e }) else met b e)
            ≡ met (if c then some event else b) e
      if_met true = refl
      if_met false = refl

  end-After :
      (k : PairKind)
      → After
          (change_pair p k event (λ x. record x { end = some event }))
          false
          (nat_eq (position k) (position kind) && bucket_id event == id)
  end-After k =
      get-change_pair p event k kind id (λ x. record x { end = some event })
      ∙ (rw (before, value_or-met)
          (if_met (nat_eq (position k) (position kind) && bucket_id event == id)))
    where
      met_end :
          (b : Option EventRecord)
          → some (record { begin = b; end = some event }) ≡ met b (some event)
      met_end none = refl
      met_end (some x) = refl

      if_met :
          (c : Bool)
          → (if c then some (record { begin = b; end = some event }) else met b e)
            ≡ met b (if c then some event else e)
      if_met true = met_end b
      if_met false = refl

  kept-After : (q : Projection) → pair_buckets q kind ≡ pair_buckets p kind → After q false false
  kept-After q same = ap (λ m. get m id) same ∙ before

  -- A branch that pushes items, or changes a stream or a command.
  other-After :
      (items : List ProjectionItem) (execs : Table ExecBucket)
      (messages reasonings : Table StreamBucket)
      → After
          (record p {
            items = items;
            exec_buckets = execs;
            message_streams = messages;
            reasoning_streams = reasonings;
          })
          false
          false
  other-After items execs messages reasonings =
      kept-After _ (kept p items execs messages reasonings kind)

  case-After :
      (c : Case)
      → After
          (project_case p event index c)
          (begins kind c && bucket_id event == id)
          (ends kind c && bucket_id event == id)
  unfolding project_case project_default
  case-After Case.user_message = other-After _ _ _ _
  case-After Case.agent_message = other-After _ _ _ _
  case-After Case.agent_reasoning = other-After _ _ _ _
  case-After Case.agent_reasoning_raw_content = other-After _ _ _ _
  case-After Case.message_delta = other-After _ _ _ _
  case-After Case.reasoning_delta = other-After _ _ _ _
  case-After Case.raw_content_delta = other-After _ _ _ _
  case-After Case.section_break = other-After _ _ _ _
  case-After Case.exec_begin = other-After _ _ _ _
  case-After Case.exec_output = other-After _ _ _ _
  case-After Case.exec_interaction = other-After _ _ _ _
  case-After Case.exec_end = other-After _ _ _ _
  case-After (Case.pair_begin k) = begin-After k
  case-After (Case.pair_end k) = end-After k
  case-After Case.view_image = other-After _ _ _ _
  case-After Case.plan_update = other-After _ _ _ _
  case-After Case.plan_delta = other-After _ _ _ _
  case-After Case.default =
      kept-After _ (default_for-pair_buckets p event index kind event.event_type)

  event-After : After (project_event p event index) (is_begin kind id event) (is_end kind id event)
  unfolding project_event
  event-After = elim (Bool-cases (is_skipped event)) [
    | inl skipped ↦ rw skipped before
    | inr kept ↦ rw kept (case-After (case_of event.event_type))
  ]

events_met :
    (p : Projection) (events : List EventRecord) (index : ℕ) (kind : PairKind) (id : String)
    (b e : Option EventRecord)
    → get (pair_buckets p kind) id ≡ met b e
    → get (pair_buckets (project_events p events index) kind) id
      ≡ met
          (last_after b (select (is_begin kind id) events))
          (last_after e (select (is_end kind id) events))
unfolding project_events
events_met p [] index kind id b e before = before
events_met p (event ∷ events) index kind id b e before =
    rw (last_after-select (is_begin kind id), last_after-select (is_end kind id))
      (events_met (project_event p event index) events (suc index) kind id _ _
        (event-After p event index kind id b e before))

nothing_yet : (k : PairKind) (id : String) → get (pair_buckets empty_projection k) id ≡ none
unfolding pair_buckets get
nothing_yet PairKind.mcp_tool id = refl
nothing_yet PairKind.web_search id = refl
nothing_yet PairKind.image_generation id = refl
nothing_yet PairKind.patch id = refl
nothing_yet PairKind.dynamic_tool id = refl
nothing_yet PairKind.collab_spawn id = refl
nothing_yet PairKind.collab_interaction id = refl
nothing_yet PairKind.collab_wait id = refl
nothing_yet PairKind.collab_close id = refl
nothing_yet PairKind.collab_resume id = refl

-- After the loop, the bucket of a kind under an id holds the last of the begin events of the kind
-- with that bucket id and the last of the end events, among those that are not skipped, wherever
-- they stood and whatever stood between them; and there is no bucket if there are none.
pub pairs_met :
    (events : List EventRecord) (index : ℕ) (kind : PairKind) (id : String)
    → get (pair_buckets (project_events empty_projection events index) kind) id
      ≡ met (last? (select (is_begin kind id) events)) (last? (select (is_end kind id) events))
pairs_met events index kind id =
    events_met empty_projection events index kind id none none (nothing_yet kind id)
    ∙ rw
        (
          last_after-none (select (is_begin kind id) events),
          last_after-none (select (is_end kind id) events),
        )
        refl
