-- ===== src/Projection/Dispatch/Cites.antt =====
-- What it is for the variables of the event loop to hold only allowed event ids, kept by each
-- assignment.
use codex_mcp_ui.Common.{String, Option, none, some, List, [], ◌∷◌, ◌++◌, All, All-append}
use codex_mcp_ui.Common.Table.{Table}
use codex_mcp_ui.Event.{EventRecord}
use codex_mcp_ui.Projection.Parts.{
  Part, part_event_ids, ProjectionItem, ExecBucket, PairBucket, StreamBucket,
}
use codex_mcp_ui.Projection.Access.{bucket_id}
use codex_mcp_ui.Projection.Buckets.{empty_pair, empty_exec}
use codex_mcp_ui.Projection.Buckets.Laws.{All-change_bucket}
use codex_mcp_ui.Projection.Fold.Grouping.{item_parts}
use codex_mcp_ui.Projection.Switch.{PairKind}
use codex_mcp_ui.Projection.Dispatch.{
  Projection, pair_buckets, set_pair_buckets, change_pair, change_exec, push,
}

-- `P id`: the id is allowed.
module _ (P : String → Type 0) where
  abbrev pub Cites : Part → Type 0
  Cites part = All P (part_event_ids part)

  abbrev pub CitesItem : ProjectionItem → Type 0
  CitesItem item = All Cites (item_parts item)

  abbrev pub CitesEvents : List EventRecord → Type 0
  CitesEvents = All (λ e. P e.event_id)

  abbrev pub CitesOptional : Option EventRecord → Type 0
  CitesOptional none = Unit
  CitesOptional (some e) = P e.event_id

  abbrev pub CitesExec : ExecBucket → Type 0
  CitesExec b =
      CitesOptional b.begin
      × CitesEvents b.outputs
      × CitesEvents b.interactions
      × CitesOptional b.end

  abbrev pub CitesPair : PairBucket → Type 0
  CitesPair b = CitesOptional b.begin × CitesOptional b.end

  abbrev pub CitesStream : StreamBucket → Type 0
  CitesStream b = All P b.event_ids

  pub record IsSourced (p : Projection) : Type 0 where
    pub items : All CitesItem p.items
    pub exec : All (λ entry. CitesExec entry.1) p.exec_buckets
    pub pairs : (kind : PairKind) → All (λ entry. CitesPair entry.1) (pair_buckets p kind)
    pub messages : All (λ entry. CitesStream entry.1) p.message_streams
    pub reasonings : All (λ entry. CitesStream entry.1) p.reasoning_streams

  set_pairs :
      (p : Projection) (kind : PairKind) (m : Table PairBucket)
      → ((k : PairKind) → All (λ entry. CitesPair entry.1) (pair_buckets p k))
      → All (λ entry. CitesPair entry.1) m
      → (k : PairKind)
      → All (λ entry. CitesPair entry.1) (pair_buckets (set_pair_buckets p kind m) k)
  unfolding pair_buckets set_pair_buckets
  set_pairs p PairKind.mcp_tool m h q PairKind.mcp_tool = q
  set_pairs p PairKind.mcp_tool m h q k = h k
  set_pairs p PairKind.web_search m h q PairKind.web_search = q
  set_pairs p PairKind.web_search m h q k = h k
  set_pairs p PairKind.image_generation m h q PairKind.image_generation = q
  set_pairs p PairKind.image_generation m h q k = h k
  set_pairs p PairKind.patch m h q PairKind.patch = q
  set_pairs p PairKind.patch m h q k = h k
  set_pairs p PairKind.dynamic_tool m h q PairKind.dynamic_tool = q
  set_pairs p PairKind.dynamic_tool m h q k = h k
  set_pairs p PairKind.collab_spawn m h q PairKind.collab_spawn = q
  set_pairs p PairKind.collab_spawn m h q k = h k
  set_pairs p PairKind.collab_interaction m h q PairKind.collab_interaction = q
  set_pairs p PairKind.collab_interaction m h q k = h k
  set_pairs p PairKind.collab_wait m h q PairKind.collab_wait = q
  set_pairs p PairKind.collab_wait m h q k = h k
  set_pairs p PairKind.collab_close m h q PairKind.collab_close = q
  set_pairs p PairKind.collab_close m h q k = h k
  set_pairs p PairKind.collab_resume m h q PairKind.collab_resume = q
  set_pairs p PairKind.collab_resume m h q k = h k

  -- The maps of pairs do not depend on the other variables.
  other_pairs :
      (p : Projection) (items : List ProjectionItem) (exec : Table ExecBucket)
      (messages reasonings : Table StreamBucket) (k : PairKind)
      → All (λ entry. CitesPair entry.1) (pair_buckets p k)
      → All
          (λ entry. CitesPair entry.1)
          (pair_buckets
            (record p {
              items = items;
              exec_buckets = exec;
              message_streams = messages;
              reasoning_streams = reasonings;
            })
            k)
  unfolding pair_buckets
  other_pairs p a b c d PairKind.mcp_tool h = h
  other_pairs p a b c d k h = h

  pub rebuild :
      (p : Projection) (items : List ProjectionItem) (exec : Table ExecBucket)
      (messages reasonings : Table StreamBucket)
      → IsSourced p
      → All CitesItem items
      → All (λ entry. CitesExec entry.1) exec
      → All (λ entry. CitesStream entry.1) messages
      → All (λ entry. CitesStream entry.1) reasonings
      → IsSourced (record p {
        items = items;
        exec_buckets = exec;
        message_streams = messages;
        reasoning_streams = reasonings;
      })
  rebuild p items exec messages reasonings h a b c d = record {
    items = a;
    exec = b;
    pairs = λ k. other_pairs p items exec messages reasonings k (h.pairs k);
    messages = c;
    reasonings = d;
  }

  pub push-IsSourced :
      (p : Projection) (item : ProjectionItem)
      → IsSourced p
      → CitesItem item
      → IsSourced (push p item)
  push-IsSourced p item h c =
      rebuild p (p.items ++ item ∷ []) p.exec_buckets p.message_streams p.reasoning_streams h
        (All-append CitesItem p.items (item ∷ []) h.items (c, tt)) h.exec h.messages h.reasonings

  set_pair_buckets-IsSourced :
      (p : Projection) (kind : PairKind) (m : Table PairBucket)
      → IsSourced p
      → All (λ entry. CitesPair entry.1) m
      → IsSourced (set_pair_buckets p kind m)
  unfolding set_pair_buckets
  set_pair_buckets-IsSourced p PairKind.mcp_tool m h q = record {
    items = h.items;
    exec = h.exec;
    pairs = set_pairs p PairKind.mcp_tool m h.pairs q;
    messages = h.messages;
    reasonings = h.reasonings;
  }
  set_pair_buckets-IsSourced p kind m h q = record {
    items = h.items;
    exec = h.exec;
    pairs = set_pairs p kind m h.pairs q;
    messages = h.messages;
    reasonings = h.reasonings;
  }

  pub change_pair-IsSourced :
      (p : Projection) (kind : PairKind) (event : EventRecord) (change : PairBucket → PairBucket)
      → IsSourced p
      → ((b : PairBucket) → CitesPair b → CitesPair (change b))
      → IsSourced (change_pair p kind event change)
  change_pair-IsSourced p kind event change h keep = set_pair_buckets-IsSourced p kind _ h (
      All-change_bucket CitesPair (pair_buckets p kind) (bucket_id event) empty_pair change
        (h.pairs kind) (tt, tt) keep)

  pub change_exec-IsSourced :
      (p : Projection) (event : EventRecord) (change : ExecBucket → ExecBucket)
      → IsSourced p
      → ((b : ExecBucket) → CitesExec b → CitesExec (change b))
      → IsSourced (change_exec p event change)
  change_exec-IsSourced p event change h keep =
      rebuild p p.items _ p.message_streams p.reasoning_streams h h.items
        (All-change_bucket CitesExec p.exec_buckets (bucket_id event) empty_exec change h.exec
          (tt, tt, tt, tt) keep)
        h.messages h.reasonings
