-- ===== src/View/MessageBlock.antt =====
-- web/src/components/message-block.tsx: highlighted code, messages and their Markdown. The Markdown
-- library is an element with its text.
use codex_mcp_ui.Common.{String, Bool, true, false, Option, none, some, List, [], ◌∷◌, ◌++◌, truthy}
use codex_mcp_ui.Common.Text.{append}
use codex_mcp_ui.Markup.{Attribute, Node, el, when, text, flag}

-- The text that is handed to the Markdown library for a block of code.
unfoldable pub fenced : String → String → String
fenced language code = append "```" (append language (append "\n" (append code "\n```")))

pub data MessageRole : Type 0 where
  user agent reasoning : MessageRole

pub record MessageBlockProps : Type 0 where
  pub role : MessageRole
  pub body : String
  pub timestamp : String
  pub streaming : Bool
  pub annotation : Option String

pub record Variant : Type 0 where
  pub sigil : String
  pub label : String
  pub container : String
  pub body_size : String
  pub leading : String
  pub muted : Bool

abbrev pub variants : MessageRole → Variant
variants user = record {
  sigil = "▸";
  label = "you";
  container = "border-l-2 border-l-foreground bg-foreground/[0.03]";
  body_size = "text-[13.5px]";
  leading = "leading-[1.7]";
  muted = false;
}
variants agent = record {
  sigil = "◆";
  label = "agent";
  container = "border-l-2 border-l-foreground/70";
  body_size = "text-[14.5px]";
  leading = "leading-[1.7]";
  muted = false;
}
variants reasoning = record {
  sigil = "◦";
  label = "thinking";
  container = "border-l border-dashed border-l-muted-foreground/50";
  body_size = "text-[13.5px]";
  leading = "leading-[1.65]";
  muted = true;
}

abbrev role_class : MessageRole → String
role_class user = "text-foreground"
role_class agent = "text-foreground/70"
role_class reasoning = "text-muted-foreground/70"

abbrev tone : Bool → String
tone true = "text-muted-foreground italic"
tone false = "text-foreground"

module _ {A : Type 0} where
  abbrev class_name : String → List (String × Attribute A)
  class_name name = ("className", text name) ∷ []

  unfoldable pub highlighted_code : String → String → Node A
  highlighted_code language code = el "Markdown" [] (text (fenced language code) ∷ [])

  abbrev stream_caret : Node A
  stream_caret = el "span" (("aria-hidden", flag true) ∷ []) []

  unfoldable pub markdown_body : String → Bool → List (Node A)
  markdown_body body streaming =
      el "Markdown" [] (text body ∷ [])
      ∷ when streaming (el "span" (("aria-hidden", flag true) ∷ []) (stream_caret ∷ []))

  abbrev annotation_of : Option String → List (Node A)
  annotation_of none = []
  annotation_of (some annotation) =
      when (truthy annotation) (el "span" [] (text "·" ∷ text " " ∷ text annotation ∷ []))

  -- A user's text stands as it is; every other text is Markdown.
  abbrev message_text : MessageRole → String → Bool → List (Node A)
  message_text user body streaming = el "pre" [] (text body ∷ when streaming stream_caret) ∷ []
  message_text role body streaming = markdown_body body streaming

  unfoldable pub message_block : MessageBlockProps → Node A
  message_block props =
      let v = variants props.role in
      el "article" (class_name v.container) (
        el "header" [] (
          el "div" [] (
            el "span" (("aria-hidden", flag true) ∷ class_name (role_class props.role))
              (text v.sigil ∷ [])
            ∷ el "span" [] (text v.label ∷ [])
            ∷ (annotation_of props.annotation
                ++ when props.streaming (el "span" [] (el "span" [] [] ∷ text "streaming" ∷ []))))
          ∷ el "time" [] (text props.timestamp ∷ [])
          ∷ [])
        ∷ el "div"
            (class_name
              (append v.body_size (append " " (append v.leading (append " " (tone v.muted))))))
            (message_text props.role props.body props.streaming)
        ∷ [])
