-- ===== src/View/Messages/Outline.antt =====
-- What a reader finds in the rendered conversation of
-- web/src/components/workbench/readonly-assistant-thread.tsx, in the order of the document.
use mathlib.Core.List.{flatten, append-nil}
use codex_mcp_ui.Common.{
  String, Bool, true, false, ◌||◌, Option, none, some, List, [], ◌∷◌, ◌++◌, ◌==◌, map,
  if◌then◌else◌, if_both, ◌≡◌, refl, ap, ◌∙◌, value_or, truthy,
}
use codex_mcp_ui.Common.Table.{get}
use codex_mcp_ui.Json.{Json}
use codex_mcp_ui.Markup.{
  Attribute, Attributes, Node, Nodes, element, nil, cons, text, units, nodes, when,
}
use codex_mcp_ui.Payload.{pretty_payload}
use codex_mcp_ui.Projection.Parts.{Part, Role, user, assistant, Message}
use codex_mcp_ui.View.{part_key, has_memory_citation_entries}
use codex_mcp_ui.View.MessageBlock.{markdown_body}
use codex_mcp_ui.View.Messages.{
  Texts, is_truthy, is_given_text, format_created_at, text_part, readonly_structured_part,
  readonly_message_part, message_node, phase_badge, keyed_part,
}

-- A message with its role, an icon, a label beside the message, a part under its key, and a text
-- that a part shows, as it is or as Markdown.
pub data Mark : Type 0 where
  message : Option String → Mark
  icon : String → Mark
  label : List String → Mark
  part : Option String → Mark
  body : List String → Mark

abbrev attribute_text : {A : Type 0} → Option (Attribute A) → Option String
attribute_text (some (Attribute.text s)) = some s
attribute_text _ = none

abbrev texts_of : {A : Type 0} → Nodes A → List String
texts_of nil = []
texts_of (cons (Node.text s) ns) = s ∷ texts_of ns
texts_of (cons _ ns) = texts_of ns

abbrev mark_of : {A : Type 0} → String → Attributes A → Nodes A → List Mark
mark_of tag attributes ns =
    if tag == "MessagePrimitive.Root"
    then Mark.message (attribute_text (get attributes "data-role")) ∷ []
    else if tag == "User" || tag == "Bot"
    then Mark.icon tag ∷ []
    else if tag == "span"
    then Mark.label (texts_of ns) ∷ []
    else if tag == "ReadonlyMessagePart"
    then Mark.part (attribute_text (get attributes "key")) ∷ []
    else if tag == "pre" || tag == "Markdown"
    then Mark.body (texts_of ns) ∷ []
    else []

unfoldable mutual
  pub outline : {A : Type 0} → Node A → List Mark
  outline (text s) = []
  outline (units u) = []
  outline (element tag attributes ns) = mark_of tag attributes ns ++ outline_in ns

  pub outline_in : {A : Type 0} → Nodes A → List Mark
  outline_in nil = []
  outline_in (cons n ns) = outline n ++ outline_in ns

module _ {A B : Type 0} where
  pub outline_in-map :
      (f : B → Node A) (xs : List B)
      → outline_in (nodes (map f xs)) ≡ flatten (map (λ x. outline (f x)) xs)
  unfolding outline flatten
  outline_in-map f [] = refl
  outline_in-map f (x ∷ xs) = ap (λ l. outline (f x) ++ l) (outline_in-map f xs)

-- The texts that a part shows in a message of a role.
abbrev cited_body : Texts → Option Json → List Mark
cited_body x citation =
    if has_memory_citation_entries citation
    then Mark.body (value_or (pretty_payload x.number_text citation) "" ∷ []) ∷ []
    else []

abbrev pub bodies : Texts → Role → Part → List Mark
bodies x user (Part.text t phase citation ids) = Mark.body (t ∷ []) ∷ []
bodies x assistant (Part.text t phase citation ids) = Mark.body (t ∷ []) ∷ cited_body x citation
bodies x role (Part.reasoning t variant ids) = Mark.body (t ∷ []) ∷ []
bodies x role p = Mark.body (x.part_text p ∷ []) ∷ []

abbrev pub part_marks : Texts → Message → Part → List Mark
part_marks x m p = Mark.part (some (part_key x.inherited m.id p)) ∷ bodies x m.role p

abbrev pub name_of : Role → String
name_of user = "user"
name_of assistant = "assistant"

abbrev pub icon_of : Role → String
icon_of user = "User"
icon_of assistant = "Bot"

-- A message: its role and icon, its labels, and its parts, each under its key with its texts.
abbrev pub message_marks : Texts → Message → List Mark
message_marks x m =
    Mark.message (some (name_of m.role))
    ∷ Mark.icon (icon_of m.role)
    ∷ Mark.label (name_of m.role ∷ [])
    ∷ Mark.label (format_created_at x m.created_at ∷ [])
    ∷ flatten (map (part_marks x m) m.parts)

module _ {A : Type 0} where
  when-outline :
      (b : Bool) (n : Node A) (ms : List (Node A))
      → outline n ≡ []
      → outline_in (nodes (when b n ++ ms)) ≡ outline_in (nodes ms)
  unfolding outline
  when-outline true n ms h = rw h refl
  when-outline false n ms h = refl

  last-outline :
      (b : Bool) (n : Node A) → outline_in (nodes (when b n)) ≡ (if b then outline n else [])
  unfolding outline
  last-outline true n = append-nil (outline n)
  last-outline false n = refl

module _ (A : Type 0) (x : Texts) where
  badges-outline :
      (phase : Option String) (b : Bool) (n : Node A)
      → outline n ≡ []
      → outline_in (nodes (phase_badge x phase ++ when b n)) ≡ []
  unfolding outline
  badges-outline none b n h = last-outline b n ∙ if_both (λ l. l ≡ []) b h refl
  badges-outline (some phase) b n h =
      when-outline (truthy phase) _ (when b n) refl
      ∙ last-outline b n
      ∙ if_both (λ l. l ≡ []) b h refl

  text_part-outline :
      (t : String) (phase : Option String) (citation : Option Json)
      → outline (text_part {A = A} x assistant t phase citation)
        ≡ Mark.body (t ∷ []) ∷ cited_body x citation
  unfolding outline text_part markdown_body
  text_part-outline t phase citation =
      when-outline (is_given_text phase || is_truthy citation) _ _
        (badges-outline phase (has_memory_citation_entries citation) _ refl)
      ∙ ap (λ l. Mark.body (t ∷ []) ∷ l) (last-outline (has_memory_citation_entries citation) _)

  part-outline :
      (role : Role) (p : Part) → outline (readonly_message_part {A = A} x p role) ≡ bodies x role p
  unfolding outline readonly_message_part readonly_structured_part text_part markdown_body
  part-outline user (Part.text t phase citation ids) = refl
  part-outline assistant (Part.text t phase citation ids) = text_part-outline t phase citation
  part-outline user (Part.reasoning t variant ids) = refl
  part-outline assistant (Part.reasoning t variant ids) = refl
  part-outline user (Part.lifecycle _ _ _ _) = refl
  part-outline assistant (Part.lifecycle _ _ _ _) = refl
  part-outline user (Part.plan _ _ _ _ _) = refl
  part-outline assistant (Part.plan _ _ _ _ _) = refl
  part-outline user (Part.approval _ _ _ _ _ _) = refl
  part-outline assistant (Part.approval _ _ _ _ _ _) = refl
  part-outline user (Part.tool _) = refl
  part-outline assistant (Part.tool _) = refl
  part-outline user (Part.mcp_method _ _ _ _) = refl
  part-outline assistant (Part.mcp_method _ _ _ _) = refl
  part-outline user (Part.unknown _ _ _ _) = refl
  part-outline assistant (Part.unknown _ _ _ _) = refl

  parts-outline :
      (m : Message) (ps : List Part)
      → outline_in (nodes (map (keyed_part {A = A} x m) ps)) ≡ flatten (map (part_marks x m) ps)
  unfolding outline flatten get
  parts-outline m [] = refl
  parts-outline m (p ∷ ps) =
      ap (λ l. Mark.part (some (part_key x.inherited m.id p)) ∷ l)
        (ap (λ l. l ++ outline_in (nodes (map (keyed_part {A = A} x m) ps)))
            (append-nil _ ∙ part-outline m.role p)
          ∙ ap (λ l. bodies x m.role p ++ l) (parts-outline m ps))

  all_parts-outline :
      (m : Message)
      → outline_in (nodes (map (keyed_part {A = A} x m) m.parts)) ++ [] ++ []
        ≡ flatten (map (part_marks x m) m.parts)
  all_parts-outline m = append-nil _ ∙ append-nil _ ∙ parts-outline m m.parts

  abbrev made : String → String → List Part → Role → Message
  made id created_at parts role = record {
    id = id;
    role = role;
    created_at = created_at;
    parts = parts;
  }

  message_node-outline_as :
      (id created_at : String) (parts : List Part) (role : Role)
      → outline (message_node {A = A} x role (made id created_at parts role))
        ≡ message_marks x (made id created_at parts role)
  unfolding outline message_node get
  message_node-outline_as id created_at parts user =
      ap
        (λ l.
          Mark.message (some "user")
          ∷ Mark.icon "User"
          ∷ Mark.label ("user" ∷ [])
          ∷ Mark.label (format_created_at x created_at ∷ [])
          ∷ l)
        (all_parts-outline (made id created_at parts user))
  message_node-outline_as id created_at parts assistant =
      ap
        (λ l.
          Mark.message (some "assistant")
          ∷ Mark.icon "Bot"
          ∷ Mark.label ("assistant" ∷ [])
          ∷ Mark.label (format_created_at x created_at ∷ [])
          ∷ l)
        (all_parts-outline (made id created_at parts assistant))

  pub message_node-outline :
      (m : Message) → outline (message_node {A = A} x m.role m) ≡ message_marks x m
  message_node-outline m = message_node-outline_as m.id m.created_at m.parts m.role
