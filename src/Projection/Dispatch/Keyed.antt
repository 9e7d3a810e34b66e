-- ===== src/Projection/Dispatch/Keyed.antt =====
-- The keys of the maps of the loop in web/src/lib/assistant-projection.ts: the bucket ids of the
-- events that make a bucket, each where it came first.
use codex_mcp_ui.Common.{
  ℕ, suc, String, ◌≡◌, refl, ap, ◌∙◌, Bool, true, false, not, ◌&&◌, ◌||◌, List, [], ◌∷◌, nat_eq,
  arith, if◌then◌else◌, Bool-cases, inl, inr, map, select,
}
use codex_mcp_ui.Common.Table.{keys}
use codex_mcp_ui.Common.Keys.{add_key, keys-set, firsts_after, firsts}
use codex_mcp_ui.Event.{EventRecord}
use codex_mcp_ui.Projection.Access.{bucket_id}
use codex_mcp_ui.Projection.Parts.{PairBucket}
use codex_mcp_ui.Projection.Buckets.{change_bucket}
use codex_mcp_ui.Projection.Switch.{PairKind, Case, case_of}
use codex_mcp_ui.Projection.Dispatch.Kinds.{
  position, pair_buckets-position, pair_buckets-set_pair_buckets_if, kept, default_for-pair_buckets,
}
use codex_mcp_ui.Projection.Dispatch.Meeting.{begins, ends}
use codex_mcp_ui.Projection.Dispatch.{
  Projection, empty_projection, pair_buckets, change_pair, project_default, project_case,
  project_event, project_events, is_skipped,
}

abbrev pub add_key_if : Bool → List String → String → List String
add_key_if c ks k = if c then add_key ks k else ks

-- Keys that the events for which a test holds have added.
abbrev keyed :
    (EventRecord → Bool) → (EventRecord → String) → List String → List EventRecord → List String
keyed test id ks [] = ks
keyed test id ks (e ∷ es) = keyed test id (add_key_if (test e) ks (id e)) es

keyed-firsts_after :
    (test : EventRecord → Bool) (id : EventRecord → String) (ks : List String)
    (es : List EventRecord)
    → keyed test id ks es ≡ firsts_after ks (map id (select test es))
keyed-firsts_after test id ks [] = refl
keyed-firsts_after test id ks (e ∷ es) = elim (Bool-cases (test e)) [
  | inl yes_ ↦ rw yes_ (keyed-firsts_after test id (add_key ks (id e)) es)
  | inr no_ ↦ rw no_ (keyed-firsts_after test id ks es)
]

-- Keys that each event of the loop may add to.
module _ (read : Projection → List String) (test : EventRecord → Bool) (id : EventRecord → String)
    (step : (p : Projection) (e : EventRecord) (i : ℕ)
      → read (project_event p e i) ≡ add_key_if (test e) (read p) (id e)) where
  loop-keyed :
      (p : Projection) (es : List EventRecord) (i : ℕ)
      → read (project_events p es i) ≡ keyed test id (read p) es
  unfolding project_events
  loop-keyed p [] i = refl
  loop-keyed p (e ∷ es) i =
      loop-keyed (project_event p e i) es (suc i) ∙ ap (λ ks. keyed test id ks es) (step p e i)

  pub loop-firsts :
      (es : List EventRecord) (i : ℕ)
      → read empty_projection ≡ []
      → read (project_events empty_projection es i) ≡ firsts (map id (select test es))
  loop-firsts es i empty =
      loop-keyed empty_projection es i
      ∙ keyed-firsts_after test id (read empty_projection) es
      ∙ ap (λ ks. firsts_after ks (map id (select test es))) empty

-- The events of a kind of calls.
abbrev pub is_of_kind : PairKind → EventRecord → Bool
is_of_kind kind e =
    not (is_skipped e) && (begins kind (case_of e.event_type) || ends kind (case_of e.event_type))

module _ (p : Projection) (event : EventRecord) (index : ℕ) (kind : PairKind) where
  abbrev pair_keys : Projection → List String
  pair_keys q = keys (pair_buckets q kind)

  keys-change_pair :
      (k : PairKind) (f : PairBucket → PairBucket)
      → pair_keys (change_pair p k event f)
        ≡ add_key_if (nat_eq (position k) (position kind)) (pair_keys p) (bucket_id event)
  unfolding change_bucket
  keys-change_pair k f = elim (Bool-cases (nat_eq (position k) (position kind))) [
    | inl same ↦
        let place : position k ≡ position kind = ground (arith, same) in
        rw (pair_buckets-set_pair_buckets_if, same, keys-set, pair_buckets-position p k kind place)
          refl
    | inr other ↦ rw (pair_buckets-set_pair_buckets_if, other) refl
  ]

  other-keys :
      (q : Projection) → pair_buckets q kind ≡ pair_buckets p kind → pair_keys q ≡ pair_keys p
  other-keys q same = ap (λ m. keys m) same

  case-pair_keys :
      (c : Case)
      → pair_keys (project_case p event index c)
        ≡ add_key_if (begins kind c || ends kind c) (pair_keys p) (bucket_id event)
  unfolding project_case project_default
  case-pair_keys Case.user_message = ap keys (kept p _ _ _ _ kind)
  case-pair_keys Case.agent_message = ap keys (kept p _ _ _ _ kind)
  case-pair_keys Case.agent_reasoning = ap keys (kept p _ _ _ _ kind)
  case-pair_keys Case.agent_reasoning_raw_content = ap keys (kept p _ _ _ _ kind)
  case-pair_keys Case.message_delta = ap keys (kept p _ _ _ _ kind)
  case-pair_keys Case.reasoning_delta = ap keys (kept p _ _ _ _ kind)
  case-pair_keys Case.raw_content_delta = ap keys (kept p _ _ _ _ kind)
  case-pair_keys Case.section_break = ap keys (kept p _ _ _ _ kind)
  case-pair_keys Case.exec_begin = ap keys (kept p _ _ _ _ kind)
  case-pair_keys Case.exec_output = ap keys (kept p _ _ _ _ kind)
  case-pair_keys Case.exec_interaction = ap keys (kept p _ _ _ _ kind)
  case-pair_keys Case.exec_end = ap keys (kept p _ _ _ _ kind)
  case-pair_keys (Case.pair_begin k) = keys-change_pair k _ ∙ ground arith
  case-pair_keys (Case.pair_end k) = keys-change_pair k _
  case-pair_keys Case.view_image = ap keys (kept p _ _ _ _ kind)
  case-pair_keys Case.plan_update = ap keys (kept p _ _ _ _ kind)
  case-pair_keys Case.plan_delta = ap keys (kept p _ _ _ _ kind)
  case-pair_keys Case.default =
      ap keys (default_for-pair_buckets p event index kind event.event_type)

  skip-pair_keys :
      (s : Bool) (c : Case)
      → pair_keys (if s then p else project_case p event index c)
        ≡ add_key_if (not s && (begins kind c || ends kind c)) (pair_keys p) (bucket_id event)
  skip-pair_keys true c = refl
  skip-pair_keys false c = case-pair_keys c

event-pair_keys :
    (kind : PairKind) (p : Projection) (event : EventRecord) (index : ℕ)
    → keys (pair_buckets (project_event p event index) kind)
      ≡ add_key_if (is_of_kind kind event) (keys (pair_buckets p kind)) (bucket_id event)
unfolding project_event
event-pair_keys kind p event index =
    skip-pair_keys p event index kind (is_skipped event) (case_of event.event_type)

pub pairs-keys :
    (kind : PairKind) (events : List EventRecord) (index : ℕ)
    → keys (pair_buckets (project_events empty_projection events index) kind)
      ≡ firsts (map bucket_id (select (is_of_kind kind) events))
unfolding pair_buckets
pairs-keys kind events index =
    loop-firsts (λ p. keys (pair_buckets p kind)) (is_of_kind kind) bucket_id (event-pair_keys kind)
      events index (empty kind)
  where
    empty : (kind : PairKind) → keys (pair_buckets empty_projection kind) ≡ []
    empty PairKind.mcp_tool = refl
    empty PairKind.web_search = refl
    empty PairKind.image_generation = refl
    empty PairKind.patch = refl
    empty PairKind.dynamic_tool = refl
    empty PairKind.collab_spawn = refl
    empty PairKind.collab_interaction = refl
    empty PairKind.collab_wait = refl
    empty PairKind.collab_close = refl
    empty PairKind.collab_resume = refl
