-- ===== src/Projection/Dispatch/Pairing.antt =====
-- The begin and the end event of a call meet in one bucket, in either order of arrival.
use codex_mcp_ui.Common.{ℕ, ◌≡◌, refl, sym, ◌∙◌, false, some, eq_refl}
use codex_mcp_ui.Common.Table.{Table, get}
use codex_mcp_ui.Event.{EventRecord}
use codex_mcp_ui.Projection.Parts.{PairBucket}
use codex_mcp_ui.Projection.Access.{bucket_id}
use codex_mcp_ui.Projection.Buckets.{empty_pair}
use codex_mcp_ui.Projection.Buckets.Laws.{change_bucket_twice, get-change_bucket}
use codex_mcp_ui.Projection.Switch.{PairKind, Case, case_of}
use codex_mcp_ui.Projection.Dispatch.{
  Projection, pair_buckets, set_pair_buckets, change_pair, project_case, project_event, is_skipped,
}

pair_buckets-set_pair_buckets :
    (p : Projection) (kind : PairKind) (m : Table PairBucket)
    → pair_buckets (set_pair_buckets p kind m) kind ≡ m
unfolding pair_buckets set_pair_buckets
pair_buckets-set_pair_buckets p PairKind.mcp_tool m = refl
pair_buckets-set_pair_buckets p PairKind.web_search m = refl
pair_buckets-set_pair_buckets p PairKind.image_generation m = refl
pair_buckets-set_pair_buckets p PairKind.patch m = refl
pair_buckets-set_pair_buckets p PairKind.dynamic_tool m = refl
pair_buckets-set_pair_buckets p PairKind.collab_spawn m = refl
pair_buckets-set_pair_buckets p PairKind.collab_interaction m = refl
pair_buckets-set_pair_buckets p PairKind.collab_wait m = refl
pair_buckets-set_pair_buckets p PairKind.collab_close m = refl
pair_buckets-set_pair_buckets p PairKind.collab_resume m = refl

set_pair_buckets_twice :
    (p : Projection) (kind : PairKind) (m n : Table PairBucket)
    → set_pair_buckets (set_pair_buckets p kind m) kind n ≡ set_pair_buckets p kind n
unfolding set_pair_buckets
set_pair_buckets_twice p PairKind.mcp_tool m n = refl
set_pair_buckets_twice p PairKind.web_search m n = refl
set_pair_buckets_twice p PairKind.image_generation m n = refl
set_pair_buckets_twice p PairKind.patch m n = refl
set_pair_buckets_twice p PairKind.dynamic_tool m n = refl
set_pair_buckets_twice p PairKind.collab_spawn m n = refl
set_pair_buckets_twice p PairKind.collab_interaction m n = refl
set_pair_buckets_twice p PairKind.collab_wait m n = refl
set_pair_buckets_twice p PairKind.collab_close m n = refl
set_pair_buckets_twice p PairKind.collab_resume m n = refl

change_pair_twice :
    (p : Projection) (kind : PairKind) (a b : EventRecord) (f g : PairBucket → PairBucket)
    → bucket_id b ≡ bucket_id a
    → change_pair (change_pair p kind a f) kind b g ≡ change_pair p kind a (λ x. g (f x))
change_pair_twice p kind a b f g same = rw (
  pair_buckets-set_pair_buckets,
  set_pair_buckets_twice,
  same,
  change_bucket_twice (pair_buckets p kind) (bucket_id a) empty_pair f g,
)

project_event-case :
    (p : Projection) (event : EventRecord) (index : ℕ) (c : Case)
    → is_skipped event ≡ false
    → case_of event.event_type ≡ c
    → project_event p event index ≡ project_case p event index c
unfolding project_event
project_event-case p event index c kept same = rw (kept, same)

-- Two events that the loop does not skip, the begin and the end of one kind with one bucket id, and
-- that it handles one right after the other: it leaves the same variables in either order, from any
-- variables and at any positions.
pub pair_order :
    (p : Projection) (kind : PairKind) (b e : EventRecord) (i j k l : ℕ)
    → is_skipped b ≡ false
    → is_skipped e ≡ false
    → case_of b.event_type ≡ Case.pair_begin kind
    → case_of e.event_type ≡ Case.pair_end kind
    → bucket_id e ≡ bucket_id b
    → project_event (project_event p b i) e j ≡ project_event (project_event p e k) b l
unfolding project_case
pair_order p kind b e i j k l kb ke cb ce same =
    let begin = λ (x : PairBucket). record x { begin = some b } in
    let finish = λ (x : PairBucket). record x { end = some e } in
    rw
      (
        project_event-case p b i (Case.pair_begin kind) kb cb,
        project_event-case p e k (Case.pair_end kind) ke ce,
        project_event-case _ e j (Case.pair_end kind) ke ce,
        project_event-case _ b l (Case.pair_begin kind) kb cb,
      )
      (change_pair_twice p kind b e begin finish same
        ∙ (rw same)
        ∙ sym (change_pair_twice p kind e b finish begin (sym same)))

-- Two events that the loop does not skip, the begin and then the end of one kind with one bucket id,
-- leave a bucket with exactly these two under that id.
pub pair_met :
    (p : Projection) (kind : PairKind) (b e : EventRecord) (i j : ℕ)
    → is_skipped b ≡ false
    → is_skipped e ≡ false
    → case_of b.event_type ≡ Case.pair_begin kind
    → case_of e.event_type ≡ Case.pair_end kind
    → bucket_id e ≡ bucket_id b
    → get (pair_buckets (project_event (project_event p b i) e j) kind) (bucket_id b)
      ≡ some (record { begin = some b; end = some e })
unfolding project_case
pair_met p kind b e i j kb ke cb ce same = rw (
  project_event-case p b i (Case.pair_begin kind) kb cb,
  project_event-case _ e j (Case.pair_end kind) ke ce,
  change_pair_twice p kind b e (λ x. record x { begin = some b }) (λ x. record x { end = some e })
      same,
  pair_buckets-set_pair_buckets,
  get-change_bucket,
  eq_refl,
)
