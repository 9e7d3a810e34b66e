-- ===== src/Projection/Thread/Cited.antt =====
-- Every part of a projected thread cites events of the session, and none that is skipped.
use codex_mcp_ui.Common.{
  String, sym, Option, none, some, List, [], ◌∷◌, ◌++◌, All, All-append, truthy, if_both,
}
use mathlib.Core.Path.{subst}
use codex_mcp_ui.Common.Sort.{All-sort}
use codex_mcp_ui.Common.Table.{Table}
use codex_mcp_ui.Common.Text.{join}
use codex_mcp_ui.Collation.{Collation}
use codex_mcp_ui.Event.{EventRecord, SessionDetail}
use codex_mcp_ui.Projection.Parts.{
  AssistantPartItem, ProjectionItem, ToolPart, ExecBucket, PairBucket, StreamBucket, Variant,
}
use codex_mcp_ui.Projection.Access.{Decoders}
use codex_mcp_ui.Projection.Buckets.{project_stream_bucket, stream_part}
use codex_mcp_ui.Projection.Tools.{
  anchored, event_id_of, event_ids_of, pair_event_ids, exec_event_ids, project_exec_bucket,
  project_mcp_tool_bucket,
}
use codex_mcp_ui.Projection.Pairs.{
  project_web_search_bucket, project_image_generation_bucket, project_patch_bucket,
  project_dynamic_tool_bucket, project_collab_bucket,
}
use codex_mcp_ui.Projection.Switch.{PairKind}
use codex_mcp_ui.Projection.Dispatch.{Projection, empty_projection, pair_buckets, project_events}
use codex_mcp_ui.Projection.Dispatch.Sources.{CitesMaybe, KeptIds, loop-IsSourced}
use codex_mcp_ui.Projection.Dispatch.Cites.{
  Cites, CitesItem, CitesEvents, CitesOptional, CitesExec, CitesPair, CitesStream, IsSourced,
}
use codex_mcp_ui.Projection.Fold.Grouping.{
  item_parts, parts_of_items, parts_of_messages, parts-fold_items_into_messages,
}
use codex_mcp_ui.Projection.Thread.{
  bucket_items, collab, all_bucket_items, compare_items, collect_items, sorted_items,
  project_readonly_assistant_thread,
}

module _ (P : String → Type 0) where
  event_id_of-All : (o : Option EventRecord) → CitesOptional P o → All P (event_id_of o)
  event_id_of-All none h = tt
  event_id_of-All (some e) h = (h, tt)

  event_ids_of-All : (es : List EventRecord) → CitesEvents P es → All P (event_ids_of es)
  event_ids_of-All [] h = tt
  event_ids_of-All (e ∷ es) h = (h.0, event_ids_of-All es h.1)

  pair_event_ids-All : (b : PairBucket) → CitesPair P b → All P (pair_event_ids b)
  pair_event_ids-All b h =
      All-append P (event_id_of b.begin) _ (event_id_of-All b.begin h.0) (event_id_of-All b.end h.1)

  exec_event_ids-All : (b : ExecBucket) → CitesExec P b → All P (exec_event_ids b)
  exec_event_ids-All b h = All-append P (event_id_of b.begin) _ (event_id_of-All b.begin h.0) (
      All-append P (event_ids_of b.outputs) _ (event_ids_of-All b.outputs h.1) (
        All-append P (event_ids_of b.interactions) _ (event_ids_of-All b.interactions h.2)
          (event_id_of-All b.end h.3)))

  anchored-Cites :
      (o : Option EventRecord) (part : ToolPart)
      → All P part.event_ids
      → CitesMaybe P (anchored o part)
  anchored-Cites none part h = tt
  anchored-Cites (some e) part h = h

  stream_part-Cites :
      (variant : Variant) (text : String) (ids : List String)
      → All P ids
      → Cites P (stream_part variant text ids)
  stream_part-Cites Variant.text text ids h = h
  stream_part-Cites variant text ids h = h

  stream-Cites : (b : StreamBucket) → CitesStream P b → CitesMaybe P (project_stream_bucket b)
  unfolding project_stream_bucket
  stream-Cites b h = if_both (CitesMaybe P) b.terminated tt (
      if_both (CitesMaybe P) (truthy (join b.chunks ""))
        (stream_part-Cites b.variant (join b.chunks "") b.event_ids h) tt)

  bucket_items-Cites :
      {T : Type 0} (Q : T → Type 0) (project : String → T → Option AssistantPartItem) (m : Table T)
      → ((id : String) (b : T) → Q b → CitesMaybe P (project id b))
      → All (λ entry. Q entry.1) m
      → All (CitesItem P) (bucket_items project m)
  unfolding bucket_items
  bucket_items-Cites Q project [] f h = tt
  bucket_items-Cites Q project ((id, b) ∷ m) f h =
      one (project id b) (f id b h.0) (bucket_items-Cites Q project m f h.1)
    where
      one :
          (o : Option AssistantPartItem)
          → CitesMaybe P o
          → All (CitesItem P) (bucket_items project m)
          → All (CitesItem P) (elim o [
            | none ↦ bucket_items project m
            | some item ↦ ProjectionItem.assistant item ∷ bucket_items project m
          ])
      one none c rest = rest
      one (some item) c rest = ((c, tt), rest)

  pair_items-Cites :
      (p : Projection) (kind : PairKind) (project : String → PairBucket → Option AssistantPartItem)
      → ((id : String) (b : PairBucket) → CitesPair P b → CitesMaybe P (project id b))
      → IsSourced P p
      → All (CitesItem P) (bucket_items project (pair_buckets p kind))
  pair_items-Cites p kind project f h =
      bucket_items-Cites (CitesPair P) project (pair_buckets p kind) f (h.pairs kind)

  exec_bucket-Cites :
      (d : Decoders) (id : String) (b : ExecBucket)
      → CitesExec P b
      → CitesMaybe P (project_exec_bucket d id b)
  unfolding project_exec_bucket
  exec_bucket-Cites d id b h = anchored-Cites _ _ (exec_event_ids-All b h)

  mcp-Cites :
      (id : String) (b : PairBucket) → CitesPair P b → CitesMaybe P (project_mcp_tool_bucket id b)
  unfolding project_mcp_tool_bucket
  mcp-Cites id b h = anchored-Cites _ _ (pair_event_ids-All b h)

  web_search-Cites :
      (id : String) (b : PairBucket) → CitesPair P b → CitesMaybe P (project_web_search_bucket b)
  unfolding project_web_search_bucket
  web_search-Cites id b h = anchored-Cites _ _ (pair_event_ids-All b h)

  image-Cites :
      (id : String) (b : PairBucket)
      → CitesPair P b
      → CitesMaybe P (project_image_generation_bucket b)
  unfolding project_image_generation_bucket
  image-Cites id b h = anchored-Cites _ _ (pair_event_ids-All b h)

  patch-Cites :
      (id : String) (b : PairBucket) → CitesPair P b → CitesMaybe P (project_patch_bucket b)
  unfolding project_patch_bucket
  patch-Cites id b h = anchored-Cites _ _ (pair_event_ids-All b h)

  dynamic-Cites :
      (id : String) (b : PairBucket) → CitesPair P b → CitesMaybe P (project_dynamic_tool_bucket b)
  unfolding project_dynamic_tool_bucket
  dynamic-Cites id b h = anchored-Cites _ _ (pair_event_ids-All b h)

  collab-Cites :
      (title id : String) (b : PairBucket) → CitesPair P b → CitesMaybe P (collab title id b)
  unfolding project_collab_bucket
  collab-Cites title id b h = anchored-Cites _ _ (pair_event_ids-All b h)

  stream_items-Cites :
      (m : Table StreamBucket)
      → All (λ entry. CitesStream P entry.1) m
      → All (CitesItem P) (bucket_items (λ id. project_stream_bucket) m)
  stream_items-Cites m h =
      bucket_items-Cites (CitesStream P) (λ id. project_stream_bucket) m (λ id. stream-Cites) h

  collab_items-Cites :
      (p : Projection) (title : String) (kind : PairKind)
      → IsSourced P p
      → All (CitesItem P) (bucket_items (collab title) (pair_buckets p kind))
  collab_items-Cites p title kind h = pair_items-Cites p kind (collab title) (collab-Cites title) h

  all_bucket_items-Cites :
      (d : Decoders) (p : Projection) → IsSourced P p → All (CitesItem P) (all_bucket_items d p)
  unfolding all_bucket_items pair_buckets
  all_bucket_items-Cites d p h =
      both _ _ (bucket_items-Cites (CitesExec P) _ p.exec_buckets (exec_bucket-Cites d) h.exec) (
        both _ _ (pair_items-Cites p PairKind.mcp_tool _ mcp-Cites h) (
          both _ _ (pair_items-Cites p PairKind.web_search _ web_search-Cites h) (
            both _ _ (pair_items-Cites p PairKind.image_generation _ image-Cites h) (
              both _ _ (pair_items-Cites p PairKind.patch _ patch-Cites h) (
                both _ _ (pair_items-Cites p PairKind.dynamic_tool _ dynamic-Cites h) (
                  both _ _ (collab_items-Cites p "Spawn agent" PairKind.collab_spawn h) (
                    both _ _
                      (collab_items-Cites p "Send input to agent" PairKind.collab_interaction h)
                      (both _ _ (collab_items-Cites p "Wait for agents" PairKind.collab_wait h) (
                        both _ _ (collab_items-Cites p "Close agent" PairKind.collab_close h) (
                          both _ _ (collab_items-Cites p "Resume agent" PairKind.collab_resume h) (
                            both _ _ (stream_items-Cites p.message_streams h.messages)
                              (stream_items-Cites p.reasoning_streams h.reasonings))))))))))))
    where
      both :
          (xs ys : List ProjectionItem)
          → All (CitesItem P) xs
          → All (CitesItem P) ys
          → All (CitesItem P) (xs ++ ys)
      both xs ys = All-append (CitesItem P) xs ys

  parts_of_items-Cites :
      (items : List ProjectionItem) → All (CitesItem P) items → All (Cites P) (parts_of_items items)
  parts_of_items-Cites [] h = tt
  parts_of_items-Cites (item ∷ items) h =
      All-append (Cites P) (item_parts item) _ h.0 (parts_of_items-Cites items h.1)

  -- If P holds for the id of every event that the loop does not skip, then every event id that a
  -- part of the projected thread cites satisfies P.
  pub project_readonly_assistant_thread-Cites :
      (c : Collation) (d : Decoders) (detail : SessionDetail) (events : List EventRecord)
      → KeptIds P events
      → All
          (Cites P)
          (parts_of_messages (project_readonly_assistant_thread c d detail events).messages)
  unfolding project_readonly_assistant_thread sorted_items collect_items
  project_readonly_assistant_thread-Cites c d detail events kept =
      subst (All (Cites P)) (sym (parts-fold_items_into_messages (sorted_items c d events))) (
        parts_of_items-Cites (sorted_items c d events) (
          All-sort (compare_items c) (CitesItem P) (collect_items d events) (
            All-append (CitesItem P) p.items _ sourced.items (all_bucket_items-Cites d p sourced))))
    where
      p : Projection
      p = project_events empty_projection events 0

      sourced : IsSourced P p
      sourced = loop-IsSourced P events kept
