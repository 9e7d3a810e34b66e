-- ===== src/Projection/Buckets/Streams.antt =====
-- The streams of one turn: while no final event came, the text of its deltas; after it, nothing.
use codex_mcp_ui.Common.{
  ℕ, suc, String, ◌≡◌, refl, sym, ◌∙◌, ap, Bool, true, false, none, some, List, [], ◌∷◌, ◌++◌, ◌==◌,
  eq_refl, if◌then◌else◌, value_or, truthy, All, map, arith, select,
}
use mathlib.Core.List.{append_assoc, append-nil}
use codex_mcp_ui.Common.Text.{join}
use codex_mcp_ui.Common.Table.{Table, get, get-set}
use codex_mcp_ui.Event.{EventRecord}
use codex_mcp_ui.Projection.Parts.{Variant, StreamBucket}
use codex_mcp_ui.Projection.Access.{stream_bucket_id}
use codex_mcp_ui.Projection.Buckets.{
  new_stream, chunk_of, push_chunk, append_stream_chunk, terminate_stream, stream_part,
  project_stream_bucket,
}
use codex_mcp_ui.Projection.Buckets.Laws.{get-change_bucket}

-- Deltas of one variant, from the index on.
unfoldable pub append_all : Table StreamBucket → List EventRecord → ℕ → Variant → Table StreamBucket
append_all store [] index variant = store
append_all store (e ∷ es) index variant =
    append_all (append_stream_chunk store e index variant) es (suc index) variant

abbrev pub chunks_of : List EventRecord → List String
chunks_of es = select truthy (map chunk_of es)

-- The bucket with the deltas of the events added.
abbrev pub pushed : StreamBucket → List EventRecord → StreamBucket
pushed bucket es = record bucket {
  event_ids = bucket.event_ids ++ map (λ e. e.event_id) es;
  chunks = bucket.chunks ++ chunks_of es;
}

pub get-append_stream_chunk :
    (store : Table StreamBucket) (e : EventRecord) (index : ℕ) (variant : Variant) (key : String)
    → get (append_stream_chunk store e index variant) key ≡ (
        if stream_bucket_id e == key
        then some
            (push_chunk e (value_or (get store (stream_bucket_id e)) (new_stream e index variant)))
        else get store key)
unfolding append_stream_chunk
get-append_stream_chunk store e index variant key =
    get-change_bucket store (stream_bucket_id e) key (new_stream e index variant) (push_chunk e)

chunk_first :
    (b : Bool) (cs : List String) (c : String) (more : List String)
    → (if b then cs ++ c ∷ [] else cs) ++ more ≡ cs ++ (if b then c ∷ more else more)
chunk_first true cs c more = append_assoc cs (c ∷ []) more
chunk_first false cs c more = refl

pub pushed-cons :
    (bucket : StreamBucket) (e : EventRecord) (es : List EventRecord)
    → pushed (push_chunk e bucket) es ≡ pushed bucket (e ∷ es)
pushed-cons bucket e es i = record bucket {
  event_ids = append_assoc bucket.event_ids (e.event_id ∷ []) (map (λ e'. e'.event_id) es) i;
  chunks = chunk_first (truthy (chunk_of e)) bucket.chunks (chunk_of e) (chunks_of es) i;
}

pub pushed-nil : (bucket : StreamBucket) → bucket ≡ pushed bucket []
pushed-nil bucket i = record bucket {
  event_ids = sym (append-nil bucket.event_ids) i;
  chunks = sym (append-nil bucket.chunks) i;
}

-- The bucket of a turn after one delta of it.
get-append_own :
    (store : Table StreamBucket) (e : EventRecord) (index : ℕ) (variant : Variant) (key : String)
    → stream_bucket_id e ≡ key
    → get (append_stream_chunk store e index variant) key
      ≡ some (push_chunk e (value_or (get store key) (new_stream e index variant)))
get-append_own store e index variant key same =
    get-append_stream_chunk store e index variant key ∙ rw (same, eq_refl key)

-- Deltas of a turn go to its bucket, in their order.
append_all-pushed :
    (store : Table StreamBucket) (es : List EventRecord) (index : ℕ) (variant : Variant)
    (key : String) (bucket : StreamBucket)
    → All (λ e. stream_bucket_id e ≡ key) es
    → get store key ≡ some bucket
    → get (append_all store es index variant) key ≡ some (pushed bucket es)
unfolding append_all
append_all-pushed store [] index variant key bucket h found = found ∙ ap some (pushed-nil bucket)
append_all-pushed store (e ∷ es) index variant key bucket h found =
    append_all-pushed (append_stream_chunk store e index variant) es (suc index) variant key
      (push_chunk e bucket) h.1
      (get-append_own store e index variant key h.0
        ∙ ap (λ o. some (push_chunk e (value_or o (new_stream e index variant)))) found)
    ∙ ap some (pushed-cons bucket e es)

-- If no event of the turn came before, then after the deltas e, es of the turn its bucket holds
-- their nonempty chunks and all their ids in order, placed at the first of them, and it projects
-- to one part with the chunks' text, if that text is not empty.
pub stream_text :
    (store : Table StreamBucket) (e : EventRecord) (es : List EventRecord) (index : ℕ)
    (variant : Variant) (key : String)
    → get store key ≡ none
    → All (λ f. stream_bucket_id f ≡ key) (e ∷ es)
    → truthy (join (chunks_of (e ∷ es)) "") ≡ true
    → (bucket : StreamBucket) × (get (append_all store (e ∷ es) index variant) key ≡ some bucket)
      × (project_stream_bucket bucket
          ≡ some (record {
            timestamp = e.timestamp;
            order = index;
            part =
                stream_part variant (join (chunks_of (e ∷ es)) "") (map (λ f. f.event_id) (e ∷ es));
            close_message_after = false;
          }))
unfolding append_all project_stream_bucket
stream_text store e es index variant key absent h nonempty =
    let first = new_stream e index variant in
    (
      pushed first (e ∷ es),
      append_all-pushed (append_stream_chunk store e index variant) es (suc index) variant key
            (push_chunk e first) h.1
            (get-append_own store e index variant key h.0
              ∙ ap (λ o. some (push_chunk e (value_or o first))) absent)
          ∙ ap some (pushed-cons first e es),
      rw nonempty,
    )

-- After the final event of a turn that had deltas, its stream is over: whatever further deltas of
-- the turn arrive, its bucket projects to no part.
pub stream_over :
    (store : Table StreamBucket) (final : EventRecord) (es : List EventRecord) (index : ℕ)
    (variant : Variant) (bucket : StreamBucket)
    → get store (stream_bucket_id final) ≡ some bucket
    → All (λ e. stream_bucket_id e ≡ stream_bucket_id final) es
    → (after : StreamBucket) × (get
          (append_all (terminate_stream store final) es index variant)
          (stream_bucket_id final)
        ≡ some after)
      × (project_stream_bucket after ≡ none)
unfolding terminate_stream project_stream_bucket
stream_over store final es index variant bucket found h = (
  pushed (record bucket { terminated = true }) es,
  append_all-pushed (terminate_stream store final) es index variant (stream_bucket_id final)
      (record bucket { terminated = true }) h
      (ground (
        arith,
        found,
        get-set store (stream_bucket_id final) (stream_bucket_id final)
            (record bucket { terminated = true }),
        eq_refl (stream_bucket_id final),
      )),
  refl,
)
