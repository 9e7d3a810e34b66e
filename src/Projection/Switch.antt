-- ===== src/Projection/Switch.antt =====
-- The `switch` on the event type: what each label does.
use codex_mcp_ui.Common.{String, Option, none, some, [], ◌∷◌, value_or}
use codex_mcp_ui.Common.Table.{Table, get}

-- The maps of begin and end events.
pub data PairKind : Type 0 where
  mcp_tool web_search image_generation patch dynamic_tool collab_spawn collab_interaction
        collab_wait collab_close collab_resume :
      PairKind

-- The branches of the `switch`; labels that share a branch share a constructor.
pub data Case : Type 0 where
  user_message agent_message agent_reasoning agent_reasoning_raw_content message_delta
        reasoning_delta raw_content_delta section_break exec_begin exec_output exec_interaction
        exec_end view_image plan_update plan_delta default :
      Case
  pair_begin pair_end : PairKind → Case

abbrev pub switch_labels : Table Case
switch_labels =
    ("user_message", Case.user_message)
    ∷ ("agent_message", Case.agent_message)
    ∷ ("agent_reasoning", Case.agent_reasoning)
    ∷ ("agent_reasoning_raw_content", Case.agent_reasoning_raw_content)
    ∷ ("agent_message_delta", Case.message_delta)
    ∷ ("agent_message_content_delta", Case.message_delta)
    ∷ ("agent_reasoning_delta", Case.reasoning_delta)
    ∷ ("reasoning_content_delta", Case.reasoning_delta)
    ∷ ("agent_reasoning_raw_content_delta", Case.raw_content_delta)
    ∷ ("reasoning_raw_content_delta", Case.raw_content_delta)
    ∷ ("agent_reasoning_section_break", Case.section_break)
    ∷ ("exec_command_begin", Case.exec_begin)
    ∷ ("exec_command_output_delta", Case.exec_output)
    ∷ ("terminal_interaction", Case.exec_interaction)
    ∷ ("exec_command_end", Case.exec_end)
    ∷ ("mcp_tool_call_begin", Case.pair_begin PairKind.mcp_tool)
    ∷ ("mcp_tool_call_end", Case.pair_end PairKind.mcp_tool)
    ∷ ("web_search_begin", Case.pair_begin PairKind.web_search)
    ∷ ("web_search_end", Case.pair_end PairKind.web_search)
    ∷ ("image_generation_begin", Case.pair_begin PairKind.image_generation)
    ∷ ("image_generation_end", Case.pair_end PairKind.image_generation)
    ∷ ("patch_apply_begin", Case.pair_begin PairKind.patch)
    ∷ ("patch_apply_end", Case.pair_end PairKind.patch)
    ∷ ("dynamic_tool_call_request", Case.pair_begin PairKind.dynamic_tool)
    ∷ ("dynamic_tool_call_response", Case.pair_end PairKind.dynamic_tool)
    ∷ ("view_image_tool_call", Case.view_image)
    ∷ ("plan_update", Case.plan_update)
    ∷ ("plan_delta", Case.plan_delta)
    ∷ ("collab_agent_spawn_begin", Case.pair_begin PairKind.collab_spawn)
    ∷ ("collab_agent_spawn_end", Case.pair_end PairKind.collab_spawn)
    ∷ ("collab_agent_interaction_begin", Case.pair_begin PairKind.collab_interaction)
    ∷ ("collab_agent_interaction_end", Case.pair_end PairKind.collab_interaction)
    ∷ ("collab_waiting_begin", Case.pair_begin PairKind.collab_wait)
    ∷ ("collab_waiting_end", Case.pair_end PairKind.collab_wait)
    ∷ ("collab_close_begin", Case.pair_begin PairKind.collab_close)
    ∷ ("collab_close_end", Case.pair_end PairKind.collab_close)
    ∷ ("collab_resume_begin", Case.pair_begin PairKind.collab_resume)
    ∷ ("collab_resume_end", Case.pair_end PairKind.collab_resume)
    ∷ []

unfoldable pub case_of : Option String → Case
case_of none = Case.default
case_of (some event_type) = value_or (get switch_labels event_type) Case.default
