-- ===== src/View/Markdown.antt =====
-- web/src/components/markdown/markdown-config.tsx: what stands for each element of a Markdown text. The
-- Markdown library calls these components with the properties and the children that it read.
pub mod Links
use Prim.Native.Char.{Char, code}
use package.text.Mathlib.Text.{starts_with}
use codex_mcp_ui.Common.{
  ℕ, String, Bool, true, false, not, ◌&&◌, ◌||◌, Option, none, some, List, [], ◌∷◌, ◌==◌, leb,
  nat_eq, if◌then◌else◌, value_or,
}
use codex_mcp_ui.Common.Table.{Table, get, set, delete}
use codex_mcp_ui.Markup.{Attribute, Attributes, Node, el, text}

-- A letter, a digit or an underscore.
abbrev is_word : ℕ → Bool
is_word n =
    (leb 0x30 n && leb n 0x39)
    || (leb 0x41 n && leb n 0x5a)
    || (leb 0x61 n && leb n 0x7a)
    || nat_eq n 0x5f

-- `/\blanguage-/`, behind a character that is a part of a word or not.
has_language : Bool → String → Bool
has_language inside String.[] = false
has_language inside (String.◌∷◌ c s) =
    (not inside && starts_with (String.◌∷◌ c s) "language-") || has_language (is_word (code c)) s

unfoldable pub code_block_class : String → Bool
unfolding has_language
code_block_class class_name = has_language false class_name

-- The elements that only get classes.
abbrev pub plain_classes : Table String
plain_classes =
    ("p", "mb-3 last:mb-0 whitespace-pre-wrap break-words")
    ∷ ("h1", "mb-2 mt-4 text-[17px] font-semibold tracking-tight first:mt-0")
    ∷ ("h2", "mb-2 mt-4 text-[15px] font-semibold tracking-tight first:mt-0")
    ∷ (
      "h3",
      "mb-1.5 mt-3 text-[13.5px] font-semibold uppercase tracking-[0.08em] text-foreground/80 first:mt-0",
    )
    ∷ ("ul", "mb-3 ml-5 list-disc space-y-1 marker:text-muted-foreground/60 last:mb-0")
    ∷ (
      "ol",
      "mb-3 ml-5 list-decimal space-y-1 marker:font-mono marker:text-muted-foreground last:mb-0",
    )
    ∷ ("li", "pl-1")
    ∷ (
      "blockquote",
      "mb-3 border-l-2 border-muted-foreground/30 pl-3 italic text-muted-foreground last:mb-0",
    )
    ∷ ("strong", "font-semibold text-foreground")
    ∷ ("em", "italic")
    ∷ (
      "pre",
      "mb-3 overflow-x-auto rounded-md border last:mb-0 [&>code]:block [&>code]:px-3 [&>code]:py-2.5 [&>code]:text-[12.5px] [&>code]:leading-[1.6]",
    )
    ∷ ("thead", "border-b border-border")
    ∷ ("th", "px-2 py-1.5 text-left font-medium")
    ∷ ("td", "border-b border-border/50 px-2 py-1.5")
    ∷ []

-- The text of an attribute.
abbrev text_of : {A : Type 0} → Option (Attribute A) → Option String
text_of (some (text t)) = some t
text_of _ = none

-- `cn` joins class names; it is a library's.
module _ {A : Type 0} (cn : List (Option String) → String) where
  -- `{...props} className="..."`: what stands later is what counts.
  abbrev classed : Attributes A → String → Attributes A
  classed props class_name = set props "className" (text class_name)

  abbrev href_of : Attributes A → Option (Attribute A) → Attributes A
  href_of props none = delete props "href"
  href_of props (some href) = set props "href" href

  unfoldable pub link : Attributes A → List (Node A) → Node A
  link props children =
      el "a"
        (classed
          (set (set (href_of props (get props "href")) "target" (text "_blank")) "rel"
            (text "noreferrer"))
          "text-foreground underline decoration-muted-foreground/50 underline-offset-[3px] hover:decoration-foreground")
        children

  unfoldable pub code_element : Attributes A → List (Node A) → Node A
  code_element props children =
      let class_name = text_of (get props "className") in
      let rest = delete props "className" in
      if code_block_class (value_or class_name "")
      then el "code"
          ((
            "className",
            text (cn (some "font-mono text-[12.5px] leading-[1.55]" ∷ class_name ∷ [])),
          )
            ∷ rest)
          children
      else el "code"
          ((
            "className",
            text "rounded bg-muted px-1 py-0.5 font-mono text-[0.88em] text-foreground",
          )
            ∷ rest)
          children

  unfoldable pub table_element : Attributes A → List (Node A) → Node A
  table_element props children =
      el "div" (("className", text "mb-3 overflow-x-auto last:mb-0") ∷ [])
        (el "table" (classed props "w-full border-collapse text-[13px]") children ∷ [])

  abbrev plain_element : String → Option String → Attributes A → List (Node A) → Option (Node A)
  plain_element tag none props children = none
  plain_element tag (some class_name) props children =
      some (el tag (classed props class_name) children)

  -- `MARKDOWN_COMPONENTS`; the library makes every other element itself.
  unfoldable pub markdown_component : String → Attributes A → List (Node A) → Option (Node A)
  markdown_component tag props children =
      if tag == "a"
      then some (link props children)
      else if tag == "code"
      then some (code_element props children)
      else if tag == "table"
      then some (table_element props children)
      else if tag == "hr"
      then some (el "hr" (classed props "my-4 border-border") children)
      else plain_element tag (get plain_classes tag) props children
