-- ===== src/Runtime/Messages.antt =====
-- `toThreadMessages` and the states that `createReadonlyThread` and `createReadonlyComposer`
-- report, in web/src/lib/readonly-assistant-runtime.ts.
use codex_mcp_ui.Common.{
  String, ◌≡◌, refl, ap, Bool, true, false, Option, none, some, List, [], ◌∷◌, map, any, ◌==◌,
  if◌then◌else◌, arith,
}
use codex_mcp_ui.Common.Table.{Table, get, set, get-set}
use codex_mcp_ui.Common.Text.{append}
use codex_mcp_ui.Projection.Parts.{Part, Role, user, assistant, Message}

-- The content of a message: a text, a reasoning, or a part as data under its type's name.
pub data Content : Type 0 where
  text : String → Content
  reasoning : String → Content
  data_part : String → Part → Content

-- `part.type`.
abbrev pub part_type : Part → String
part_type (Part.text _ _ _ _) = "text"
part_type (Part.reasoning _ _ _) = "reasoning"
part_type (Part.lifecycle _ _ _ _) = "lifecycle"
part_type (Part.plan _ _ _ _ _) = "plan"
part_type (Part.approval _ _ _ _ _ _) = "approval"
part_type (Part.tool _) = "tool"
part_type (Part.mcp_method _ _ _ _) = "mcp_method"
part_type (Part.unknown _ _ _ _) = "unknown"

unfoldable pub to_thread_message_part : Part → Content
to_thread_message_part (Part.text t _ _ _) = text t
to_thread_message_part (Part.reasoning t _ _) = reasoning t
to_thread_message_part part = data_part (append "data-codex-" (part_type part)) part

-- A message of the runtime library. A message of the assistant has the status "complete"; dates
-- are what `new Date` makes of the text.
pub record ThreadMessage (Date : Type 0) : Type 0 where
  pub id : String
  pub role : Role
  pub created_at : Date
  pub content : List Content
  pub is_complete : Bool

abbrev is_assistant : Role → Bool
is_assistant assistant = true
is_assistant user = false

module _ {Date : Type 0} (new_date : String → Date) where
  unfoldable pub to_thread_message : Message → ThreadMessage Date
  to_thread_message message = record {
    id = message.id;
    role = message.role;
    created_at = new_date message.created_at;
    content = map to_thread_message_part message.parts;
    is_complete = is_assistant message.role;
  }

  unfoldable pub to_thread_messages : List Message → List (ThreadMessage Date)
  to_thread_messages messages = map to_thread_message messages

-- `isDisabled` and the capabilities of a thread's state; the composer's `canCancel`.
pub record ThreadState : Type 0 where
  pub is_disabled : Bool
  pub capabilities : Table Bool

abbrev pub disabled_capabilities : List String
disabled_capabilities =
    "edit" ∷ "reload" ∷ "cancel" ∷ "speech" ∷ "dictation" ∷ "voice" ∷ "attachments" ∷ "feedback"
    ∷ "switchToBranch" ∷ "switchBranchDuringRun" ∷ "unstable_copy" ∷ "queue" ∷ []

-- `{ ...capabilities, edit: false, ... }`.
unfoldable pub disable_all : Table Bool → List String → Table Bool
disable_all capabilities [] = capabilities
disable_all capabilities (name ∷ names) = disable_all (set capabilities name false) names

unfoldable pub readonly_thread_state : ThreadState → ThreadState
readonly_thread_state state = record {
  is_disabled = true;
  capabilities = disable_all state.capabilities disabled_capabilities;
}

get-disable_all :
    (capabilities : Table Bool) (names : List String) (k : String)
    → get (disable_all capabilities names) k
      ≡ (if any (λ name. name == k) names then some false else get capabilities k)
unfolding disable_all
get-disable_all capabilities [] k = refl
get-disable_all capabilities (name ∷ names) k = ground (
  arith,
  get-disable_all (set capabilities name false) names k,
  get-set capabilities name k false,
)

-- The state of the read-only thread is disabled, with each of the twelve capabilities off and every
-- other one as it was.
pub readonly_thread_state_lem :
    (state : ThreadState) (k : String)
    → ((readonly_thread_state state).is_disabled ≡ true)
      × (get (readonly_thread_state state).capabilities k ≡ (
          if any (λ name. name == k) disabled_capabilities
          then some false
          else get state.capabilities k))
unfolding readonly_thread_state
readonly_thread_state_lem state k =
    (refl, get-disable_all state.capabilities disabled_capabilities k)

-- The text that a part or a content shows as text or reasoning.
abbrev pub shown_text : Part → Option String
shown_text (Part.text t _ _ _) = some t
shown_text (Part.reasoning t _ _) = some t
shown_text _ = none

abbrev pub content_text : Content → Option String
content_text (text t) = some t
content_text (reasoning t) = some t
content_text (data_part type part) = none

content_text-part : (part : Part) → content_text (to_thread_message_part part) ≡ shown_text part
unfolding to_thread_message_part
content_text-part (Part.text _ _ _ _) = refl
content_text-part (Part.reasoning _ _ _) = refl
content_text-part part = refl

content_texts :
    (parts : List Part) → map content_text (map to_thread_message_part parts) ≡ map shown_text parts
content_texts [] = refl
content_texts (part ∷ parts) = rw (content_text-part part, content_texts parts) refl

abbrev pub identity : Message → String × Role
identity m = (m.id, m.role)

abbrev pub thread_identity : {Date : Type 0} → ThreadMessage Date → String × Role
thread_identity m = (m.id, m.role)

-- The runtime's messages are the projected ones, one for one and in their order, each with its id,
-- its role and the texts of its parts at their places.
pub to_thread_messages_lem :
    {Date : Type 0} (new_date : String → Date) (messages : List Message)
    → (map thread_identity (to_thread_messages new_date messages) ≡ map identity messages)
      × (map (λ m. map content_text m.content) (to_thread_messages new_date messages)
          ≡ map (λ m. map shown_text m.parts) messages)
unfolding to_thread_messages to_thread_message
to_thread_messages_lem new_date [] = (refl, refl)
to_thread_messages_lem new_date (m ∷ messages) =
    let (ids, texts) = to_thread_messages_lem new_date messages in
    (ap (◌∷◌ (identity m)) ids, rw (content_texts m.parts, texts) refl)
