-- ===== src/View/Markdown/Links.antt =====
-- Links of a Markdown text: web/src/components/markdown/markdown-config.tsx.
use codex_mcp_ui.Common.{String, Option, some, List, ◌≡◌, refl, ◌∙◌}
use codex_mcp_ui.Common.Table.{get, set, get-set}
use codex_mcp_ui.Markup.{Attribute, Attributes, Node, nodes, element, text}
use codex_mcp_ui.View.Markdown.{markdown_component, link}

module _ {A : Type 0} (cn : List (Option String) → String) where
  abbrev attributes_of : Attributes A → Attribute A → Attributes A
  attributes_of props href =
      set (set (set (set props "href" href) "target" (text "_blank")) "rel" (text "noreferrer"))
        "className"
        (text
          "text-foreground underline decoration-muted-foreground/50 underline-offset-[3px] hover:decoration-foreground")

  link_lem :
      (props : Attributes A) (children : List (Node A)) (href : Attribute A)
      → get props "href" ≡ some href
      → markdown_component cn "a" props children
        ≡ some (element "a" (attributes_of props href) (nodes children))
  unfolding markdown_component link
  link_lem props children href given = rw given refl

  -- Whatever properties the Markdown library reads for a link, it opens in another tab, tells that
  -- tab's page nothing of this one, and leads where the Markdown text says.
  pub markdown_link :
      (props : Attributes A) (children : List (Node A)) (href : String)
      → get props "href" ≡ some (text href)
      → (attributes : Attributes A) × (markdown_component cn "a" props children
          ≡ some (element "a" attributes (nodes children)))
        × (get attributes "target" ≡ some (text "_blank"))
        × (get attributes "rel" ≡ some (text "noreferrer"))
        × (get attributes "href" ≡ some (text href))
  unfolding markdown_component link
  markdown_link props children href given = (
    attributes_of props (text href),
    link_lem props children (text href) given,
    get-set _ "className" "target" _ ∙ get-set _ "rel" "target" _ ∙ get-set _ "target" "target" _,
    get-set _ "className" "rel" _ ∙ get-set _ "rel" "rel" _,
    get-set _ "className" "href" _
        ∙ get-set _ "rel" "href" _
        ∙ get-set _ "target" "href" _
        ∙ get-set props "href" "href" _,
  )
