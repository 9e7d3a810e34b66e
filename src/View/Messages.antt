-- ===== src/View/Messages.antt =====
-- The conversation of web/src/components/workbench/readonly-assistant-thread.tsx. What JSON.stringify
-- makes of a part depends on the order in which its properties were written, and is a parameter; so
-- are dates, numbers, and the runtime library, which renders a component for its messages.
pub mod Outline
pub mod Shown
use codex_mcp_ui.Common.{
  ℕ, String, Bool, true, false, ◌||◌, Option, none, some, List, [], ◌∷◌, ◌++◌, map, truthy, not,
  value_or, get_elem?, if◌then◌else◌,
}
use codex_mcp_ui.Json.{Number, Json, null, bool, number, string, array, object, is_zero}
use codex_mcp_ui.History.Hook.{SessionHistoryStatus, loading}
use codex_mcp_ui.Markup.{Attribute, Node, el, when, text}
use codex_mcp_ui.Payload.{pretty_payload}
use codex_mcp_ui.Projection.Parts.{Part, Role, user, assistant, Message}
use codex_mcp_ui.Projection.Thread.{Header, Thread}
use codex_mcp_ui.Runtime.Messages.{ThreadMessage, to_thread_messages}
use codex_mcp_ui.View.{part_key, part_label, has_memory_citation_entries, memory_citation_label}
use codex_mcp_ui.View.MessageBlock.{markdown_body}

-- A value that a test takes for true.
unfoldable pub is_truthy : Option Json → Bool
is_truthy none = false
is_truthy (some null) = false
is_truthy (some (bool b)) = b
is_truthy (some (number n)) = not (is_zero n)
is_truthy (some (string s)) = truthy s
is_truthy (some _) = true

abbrev pub is_given_text : Option String → Bool
is_given_text none = false
is_given_text (some t) = truthy t

abbrev role_name : Role → String
role_name user = "user"
role_name assistant = "assistant"

abbrev icon_name : Role → String
icon_name user = "User"
icon_name assistant = "Bot"

pub record Texts : Type 0 where
  pub number_text : Number → String
  pub part_text : Part → String
  -- `toLocaleString` of the date that a text stands for, none if it stands for no date.
  pub locale_date : String → Option String
  pub inherited : String → String

unfoldable pub format_created_at : Texts → String → String
format_created_at x created_at =
    if truthy created_at then value_or (x.locale_date created_at) "" else ""

abbrev pub messages_of : Option Thread → List Message
messages_of none = []
messages_of (some thread) = thread.messages

abbrev empty_text : SessionHistoryStatus → String
empty_text loading = "Loading conversation..."
empty_text _ = "No conversation history yet."

module _ {A : Type 0} (x : Texts) where
  abbrev pub phase_badge : Option String → List (Node A)
  phase_badge none = []
  phase_badge (some phase) =
      when (truthy phase) (el "Badge" (("variant", text "outline") ∷ []) (text phase ∷ []))

  unfoldable pub readonly_structured_part : Part → Node A
  readonly_structured_part part = el "div" [] (
      el "div" [] (text (part_label x.inherited part) ∷ [])
      ∷ el "pre" [] (text (x.part_text part) ∷ [])
      ∷ [])

  unfoldable pub text_part : Role → String → Option String → Option Json → Node A
  text_part user t phase citation = el "pre" [] (text t ∷ [])
  text_part assistant t phase citation = el "div" [] (
      when (is_given_text phase || is_truthy citation) (
        el "div" [] (
          phase_badge phase
          ++ when (has_memory_citation_entries citation) (
              el "Badge" (("variant", text "secondary") ∷ [])
                (text (memory_citation_label citation) ∷ []))))
      ++ el "div" [] (markdown_body t false)
        ∷ when (has_memory_citation_entries citation) (
            el "details" [] (
              el "summary" [] (text "Memory citation" ∷ [])
              ∷ el "pre" [] (text (value_or (pretty_payload x.number_text citation) "") ∷ [])
              ∷ [])))

  unfoldable pub readonly_message_part : Part → Role → Node A
  readonly_message_part (Part.text t phase citation ids) role = text_part role t phase citation
  readonly_message_part (Part.reasoning t variant ids) role =
      el "details" []
        (el "summary" [] (text "Reasoning" ∷ []) ∷ el "div" [] (markdown_body t false) ∷ [])
  readonly_message_part part role = readonly_structured_part part

  -- A part under its key.
  abbrev pub keyed_part : Message → Part → Node A
  keyed_part message part =
      el "ReadonlyMessagePart" (("key", text (part_key x.inherited message.id part)) ∷ [])
        (readonly_message_part part message.role ∷ [])

  -- A message, with the icon of a role.
  unfoldable pub message_node : Role → Message → Node A
  message_node role message =
      el "MessagePrimitive.Root" (("data-role", text (role_name role)) ∷ []) (
        el "div" [] (el (icon_name role) [] [] ∷ [])
        ∷ el "div" [] (
            el "div" [] (
              el "span" [] (text (role_name message.role) ∷ [])
              ∷ el "span" [] (text (format_created_at x message.created_at) ∷ [])
              ∷ [])
            ∷ el "div" [] (map (keyed_part message) message.parts)
            ∷ [])
        ∷ [])

  abbrev message_at : Role → Option Message → List (Node A)
  message_at role none = []
  message_at role (some message) = message_node role message ∷ []

  -- The component for the runtime's message at an index, with the role that the runtime says.
  unfoldable pub readonly_message : List Message → ℕ → Role → List (Node A)
  readonly_message projected index role = message_at role (get_elem? projected index)

  abbrev badge_node : String → Node A
  badge_node badge =
      el "Badge" (("key", text badge) ∷ ("variant", text "secondary") ∷ []) (text badge ∷ [])

  abbrev header_node : Header → Node A
  header_node header = el "header" [] (
      el "div" [] (el "h2" [] (text header.title ∷ []) ∷ el "p" [] (text header.subtitle ∷ []) ∷ [])
      ∷ el "div" [] (map badge_node header.badges)
      ∷ [])

  abbrev headers_of : Option Thread → List (Node A)
  headers_of none = []
  headers_of (some thread) = header_node thread.header ∷ []

  abbrev error_of : Option String → List (Node A)
  error_of none = []
  error_of (some message) =
      el "div" [] (el "AlertCircle" [] [] ∷ el "span" [] (text message ∷ []) ∷ []) ∷ []

  module _ {Date : Type 0} (new_date : String → Date)
      (primitive_messages : (ℕ → Role → List (Node A))
        → List (ThreadMessage Date)
        → List (Node A)) where
    -- The messages that the library renders for the runtime that the hook makes of them.
    unfoldable pub message_nodes : List Message → List (Node A)
    message_nodes projected =
        primitive_messages (readonly_message projected) (to_thread_messages new_date projected)

    unfoldable pub readonly_assistant_thread :
        Option Thread → SessionHistoryStatus → Option String → Node A
    readonly_assistant_thread thread status error = el "ThreadPrimitive.Root" [] (
        headers_of thread
        ++ el "ThreadPrimitive.Empty" [] (el "div" [] (text (empty_text status) ∷ []) ∷ [])
          ∷ el "ThreadPrimitive.Viewport" [] (
              el "div" [] (
                error_of error
                ++ el "ThreadPrimitive.Messages" [] (message_nodes (messages_of thread)) ∷ [])
              ∷ [])
          ∷ [])
