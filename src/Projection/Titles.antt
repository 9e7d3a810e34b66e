-- ===== src/Projection/Titles.antt =====
-- `APPROVAL_EVENT_TYPES` and `LIFECYCLE_TITLES` of web/src/lib/assistant-projection.ts, with what
-- a lookup in the second finds.
use codex_mcp_ui.Common.{String, Bool, Option, none, some, List, [], ◌∷◌, ◌==◌, any, map, ◌or_else◌}
use codex_mcp_ui.Common.Table.{Table, get}
use codex_mcp_ui.Projection.Parts.{Title}

abbrev pub approval_event_types : List String
approval_event_types =
    "exec_approval_request" ∷ "apply_patch_approval_request" ∷ "elicitation_request"
    ∷ "request_permissions" ∷ "request_user_input" ∷ []

unfoldable pub is_approval_event : String → Bool
is_approval_event event_type = any (λ t. t == event_type) approval_event_types

abbrev pub lifecycle_titles : Table String
lifecycle_titles =
    ("session_configured", "Session configured")
    ∷ ("task_started", "Turn started")
    ∷ ("turn_started", "Turn started")
    ∷ ("task_complete", "Turn complete")
    ∷ ("turn_complete", "Turn complete")
    ∷ ("turn_aborted", "Turn aborted")
    ∷ ("thread_name_updated", "Thread name updated")
    ∷ ("background_event", "Background event")
    ∷ ("error", "Error")
    ∷ ("warning", "Warning")
    ∷ ("stream_error", "Stream error")
    ∷ ("stream_info", "Stream info")
    ∷ ("token_count", "Token count")
    ∷ ("turn_diff", "Turn diff")
    ∷ ("model_reroute", "Model reroute")
    ∷ ("context_compacted", "Context compacted")
    ∷ ("thread_rolled_back", "Thread rolled back")
    ∷ ("deprecation_notice", "Deprecation notice")
    ∷ ("undo_started", "Undo started")
    ∷ ("undo_completed", "Undo completed")
    ∷ ("guardian_assessment", "Guardian assessment")
    ∷ ("mcp_startup_update", "MCP startup update")
    ∷ ("mcp_startup_complete", "MCP startup complete")
    ∷ ("get_history_entry_response", "History entry response")
    ∷ ("mcp_list_tools_response", "MCP tools response")
    ∷ ("list_skills_response", "Skills response")
    ∷ ("realtime_conversation_started", "Realtime conversation started")
    ∷ ("realtime_conversation_realtime", "Realtime conversation event")
    ∷ ("realtime_conversation_closed", "Realtime conversation closed")
    ∷ ("realtime_conversation_sdp", "Realtime conversation SDP")
    ∷ ("realtime_conversation_list_voices_response", "Realtime voices response")
    ∷ ("skills_update_available", "Skills update available")
    ∷ ("raw_response_item", "Raw response item")
    ∷ ("item_started", "Item started")
    ∷ ("item_completed", "Item completed")
    ∷ ("hook_started", "Hook started")
    ∷ ("hook_completed", "Hook completed")
    ∷ ("agent_reasoning_section_break", "Reasoning section break")
    ∷ ("conversation_path_response", "Conversation path response")
    ∷ ("review_output", "Review output")
    ∷ ("shutdown_complete", "Shutdown complete")
    ∷ ("entered_review_mode", "Entered review mode")
    ∷ ("exited_review_mode", "Exited review mode")
    ∷ []

-- The properties of `Object.prototype`, to which a lookup in a plain object goes on. They are all
-- truthy.
abbrev inherited_entry : String → String × Title
inherited_entry key = (key, Title.inherited key)

abbrev pub object_prototype : Table Title
object_prototype = map inherited_entry (
    "constructor" ∷ "__defineGetter__" ∷ "__defineSetter__" ∷ "hasOwnProperty" ∷ "__lookupGetter__"
    ∷ "__lookupSetter__" ∷ "isPrototypeOf" ∷ "propertyIsEnumerable" ∷ "toString" ∷ "valueOf"
    ∷ "__proto__" ∷ "toLocaleString" ∷ [])

abbrev own_title : Option String → Option Title
own_title none = none
own_title (some t) = some (Title.text t)

-- `LIFECYCLE_TITLES[eventType]`, where it is truthy: the object's own entry, or else its
-- prototype's.
unfoldable pub lifecycle_title : String → Option Title
lifecycle_title event_type =
    own_title (get lifecycle_titles event_type) or_else get object_prototype event_type
