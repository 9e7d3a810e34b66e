-- ===== src/Projection/Items.antt =====
-- The items that web/src/lib/assistant-projection.ts makes of one event: `projectUserMessage`,
-- `projectAssistantPart`, `projectMcpMethod`, and the title tables.
use codex_mcp_ui.Common.{
  ℕ, String, Bool, false, not, ◌&&◌, Option, none, some, List, [], ◌∷◌, ◌++◌, ◌==◌, map,
  if◌then◌else◌, is_empty, value_or, ◌or_else◌, truthy,
}
use codex_mcp_ui.Common.Table.{get}
use codex_mcp_ui.Common.Text.{append, trim}
use codex_mcp_ui.Json.{Json, as_record, str, list, strings, strip_type_field}
use codex_mcp_ui.Event.{EventRecord}
use codex_mcp_ui.Projection.Parts.{
  properties, user_inputs, Title, Step, view_image, complete, Part, user, AssistantPartItem,
  UserMessageItem,
}
use codex_mcp_ui.Projection.Access.{msg_of}
use codex_mcp_ui.Projection.Tools.{bare_tool, nonempty_list}

unfoldable pub project_assistant_part : EventRecord → ℕ → Part → Bool → AssistantPartItem
project_assistant_part event order part close_message_after = record {
  timestamp = event.timestamp;
  order = order;
  part = part;
  close_message_after = close_message_after;
}

-- The texts, images and elements of a user's message; a message with none of them has one empty
-- text part.
abbrev pub text_parts : String → String → List Part
text_parts message id =
    if truthy (trim message) then Part.text message none none (id ∷ []) ∷ [] else []

abbrev pub input_parts : List String → List String → List Json → String → List Part
input_parts images local_images text_elements id =
    if is_empty images && is_empty local_images && is_empty text_elements
    then []
    else Part.unknown "user_inputs" "User inputs"
        (user_inputs (record {
          images = nonempty_list images;
          local_images = nonempty_list local_images;
          text_elements = nonempty_list text_elements;
        }))
        (id ∷ [])
      ∷ []

abbrev pub or_empty_text : List Part → String → String → List Part
or_empty_text [] message id = Part.text message none none (id ∷ []) ∷ []
or_empty_text (p ∷ ps) message id = p ∷ ps

unfoldable pub project_user_message : EventRecord → ℕ → UserMessageItem
project_user_message event order =
    let payload = msg_of event in
    let message = value_or (str payload "message") "" in
    record {
      timestamp = event.timestamp;
      order = order;
      message = record {
        id = append "user-" event.event_id;
        role = user;
        created_at = event.timestamp;
        parts =
            or_empty_text
              (text_parts message event.event_id
                ++ input_parts (strings (list payload "images"))
                    (strings (list payload "local_images")) (list payload "text_elements")
                    event.event_id)
              message event.event_id;
      };
    }

abbrev method_title : String → Option String → String
method_title method none = method
method_title method (some name) =
    if method == "tools/call" then append method (append ": " name) else method

abbrev pub method_for : EventRecord → ℕ → Option String → Option AssistantPartItem
method_for event order none = none
method_for event order (some method) =
    let params = as_record (get (as_record event.payload) "params") in
    if truthy method && not (event.category == "codex_event")
    then some (
        project_assistant_part event order
          (Part.mcp_method method (method_title method (str params "name")) params
            (event.event_id ∷ []))
          false)
    else none

-- An event of another category than `codex_event` whose type is present names a method.
unfoldable pub project_mcp_method : EventRecord → ℕ → Option AssistantPartItem
unfolding project_assistant_part
project_mcp_method event order = method_for event order event.event_type

-- The steps of a plan.
abbrev step_of : Json → Step
step_of step =
    let record_ = as_record (some step) in
    record {
      step = value_or (str record_ "step" or_else str record_ "summary") "";
      status = value_or (str record_ "status") "pending";
    }

abbrev pub plan_update_part : EventRecord → Part
plan_update_part event =
    let message = msg_of event in
    Part.plan "Plan update" (str message "explanation") (map step_of (list message "plan")) none
      (event.event_id ∷ [])

abbrev pub plan_delta_part : EventRecord → Part
plan_delta_part event =
    Part.plan "Plan delta" none [] (str (msg_of event) "delta") (event.event_id ∷ [])

abbrev pub view_image_part : EventRecord → Part
view_image_part event =
    Part.tool (record (bare_tool view_image "View image" complete (event.event_id ∷ [])) {
      args = some (properties (strip_type_field (msg_of event)));
    })

abbrev pub lifecycle_part : EventRecord → String → Title → Part
lifecycle_part event event_type title =
    Part.lifecycle event_type title (strip_type_field (msg_of event)) (event.event_id ∷ [])

abbrev pub approval_part : EventRecord → String → Part
approval_part event event_type =
    let message = msg_of event in
    Part.approval "Approval required" event_type (str message "reason")
      (strings (list message "command")) (str message "cwd") (event.event_id ∷ [])
