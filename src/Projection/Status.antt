-- ===== src/Projection/Status.antt =====
-- The functions of web/src/lib/assistant-projection.ts that read a status from a payload.
use codex_mcp_ui.Common.{
  String, Bool, false, ◌&&◌, ◌||◌, Option, none, some, [], ◌∷◌, ◌++◌, ◌==◌, any, present,
  if◌then◌else◌, is_empty, truthy,
}
use codex_mcp_ui.Common.Table.{get, has, values}
use codex_mcp_ui.Common.Text.{to_lower, includes}
use codex_mcp_ui.Json.{
  Json, Number, Record, as_record, is_object, str, list, strings, is_zero, is_true, array, object,
  string,
}
use codex_mcp_ui.Projection.Parts.{ToolStatus, complete, failed}

unfoldable pub is_error_result : Option Json → Bool
is_error_result result =
    is_object result
    && (has (as_record result) "Err"
        || is_true (get (as_record (get (as_record result) "Ok")) "is_error"))

-- The exit code 0, and none, are successes.
abbrev pub exit_status : Option Number → ToolStatus
exit_status none = complete
exit_status (some code) = if is_zero code then complete else failed

unfoldable pub map_exec_completion_status : Option String → Option Number → ToolStatus
map_exec_completion_status none exit_code = exit_status exit_code
map_exec_completion_status (some status) exit_code =
    let normalized = to_lower status in
    if truthy status
    then if normalized == "completed"
      then complete
      else if normalized == "failed" || normalized == "declined"
      then failed
      else exit_status exit_code
    else exit_status exit_code

unfoldable pub map_image_completion_status : Option String → ToolStatus
map_image_completion_status none = complete
map_image_completion_status (some status) =
    let normalized = to_lower status in
    if truthy status
    then if includes normalized "fail" || includes normalized "error" then failed else complete
    else complete

abbrev failure_word : String → Bool
failure_word normalized = normalized == "errored" || normalized == "not_found"

abbrev failure_key : Record → Bool
failure_key record_ =
    has record_ "Errored"
    || has record_ "errored"
    || has record_ "NotFound"
    || has record_ "not_found"

unfoldable pub is_agent_status_failure : Option Json → Bool
is_agent_status_failure (some (string value)) = failure_word (to_lower value)
is_agent_status_failure (some (array vs)) = failure_key (as_record (some (array vs)))
is_agent_status_failure (some (object fs)) = failure_key (as_record (some (object fs)))
is_agent_status_failure _ = false

-- `str` is never the empty text; the elements of the list may be.
unfoldable pub has_receiver : Record → Bool
has_receiver end_message = any truthy (
    present (str end_message "new_thread_id" ∷ str end_message "receiver_thread_id" ∷ [])
    ++ strings (list end_message "receiver_thread_ids"))

unfoldable pub collab_status : Record → Record → ToolStatus
collab_status begin_message end_message =
    let receiver = has_receiver end_message in
    if is_agent_status_failure (get end_message "status")
    then failed
    else if any (λ v. is_agent_status_failure (some v))
        (values (as_record (get end_message "statuses")))
    then failed
    else if is_empty end_message
    then complete
    else if has end_message "new_thread_id"
    then if receiver then complete else failed
    else if has begin_message "receiver_thread_id" || has end_message "receiver_thread_id"
    then if receiver then complete else failed
    else complete
