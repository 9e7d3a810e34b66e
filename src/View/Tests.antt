-- ===== src/View/Tests.antt =====
-- Views, and the instances of the theorems at them.
use codex_mcp_ui.Common.{
  ℕ, String, ◌≡◌, refl, Bool, true, false, not, Option, none, some, List, [], ◌∷◌, ◌++◌, select,
  map,
}
use codex_mcp_ui.Common.Table.{get}
use codex_mcp_ui.Common.Text.{join, trim}
use codex_mcp_ui.Json.{end, object, Items, array, nil, cons, field, string}
use codex_mcp_ui.Event.{EventRecord}
use codex_mcp_ui.Event.Samples.{codex}
use codex_mcp_ui.Projection.Parts.{PairBucket, AssistantPartItem, web_search, running}
use codex_mcp_ui.Projection.Tools.{bare_tool, tool_item}
use codex_mcp_ui.Projection.Pairs.{project_web_search_bucket}
use codex_mcp_ui.View.{part_key, memory_citation_label, memory_citation_count}
use codex_mcp_ui.View.Keys.{Titled, project_titled, part_key_collides}
use codex_mcp_ui.View.RawTable.{Filters}

abbrev search : String → EventRecord
search id = codex "web_search_begin" id "2026-01-01" end

abbrev begun : String → PairBucket
begun id = record { begin = some (search id); end = none }

abbrev search_item : String → AssistantPartItem
search_item id = tool_item (search id) (bare_tool web_search "Web search" running (id ∷ []))

begun-item : (id : String) → project_titled Titled.web_search (begun id) ≡ some (search_item id)
unfolding project_web_search_bucket get codex_mcp_ui.Json.as_record codex_mcp_ui.Json.str
begun-item id = refl

part_key_collides_example :
    part_key (λ k. k) "assistant-1" (search_item "1").part
    ≡ part_key (λ k. k) "assistant-1" (search_item "2").part
part_key_collides_example =
    part_key_collides (λ k. k) "assistant-1" Titled.web_search (begun "1") (begun "2")
      (search_item "1") (search_item "2") (begun-item "1") (begun-item "2")

two_citations :
    memory_citation_label
      (some (object (field "entries" (array (cons (string "a") (cons (string "b") nil))) end)))
    ≡ "2 memory citations"
unfolding memory_citation_label memory_citation_count get codex_mcp_ui.Json.as_record
    codex_mcp_ui.Json.list codex_mcp_ui.Common.Text.decimal
two_citations = refl

abbrev filters : Filters
filters = record { event_type = " agent "; request = ""; turn = "turn" }
