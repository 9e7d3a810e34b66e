-- ===== src/Runtime/Config.antt =====
-- `buildReadonlyRuntimeConfig` and `useReadonlyAssistantRuntime` of
-- web/src/lib/readonly-assistant-runtime.ts. The library's runtime and the wrapper around it are made
-- again only when what they are made of is another one: a memo is its key and its value.
use codex_mcp_ui.Common.{String, Bool, false, Option, none, some, List, [], ◌∷◌, if◌then◌else◌}
use codex_mcp_ui.Common.Table.{Table}
use codex_mcp_ui.Projection.Parts.{Message}
use codex_mcp_ui.Runtime.{Affordances, readonly_assistant_affordances}
use codex_mcp_ui.Runtime.Messages.{ThreadMessage, to_thread_messages}

-- There is no `onNew`, and `convertMessage` is the identity.
pub record RuntimeConfig (Date : Type 0) : Type 0 where
  pub messages : List (ThreadMessage Date)
  pub is_running : Bool
  pub affordances : Affordances
  pub capabilities : Table Bool

module _ {Date : Type 0} (new_date : String → Date) where
  unfoldable pub build_readonly_runtime_config : List Message → RuntimeConfig Date
  build_readonly_runtime_config messages = record {
    messages = to_thread_messages new_date messages;
    is_running = false;
    affordances = readonly_assistant_affordances;
    capabilities =
        ("edit", false)
        ∷ ("reload", false)
        ∷ ("switchToBranch", false)
        ∷ ("attachments", false)
        ∷ [];
  }

  -- The config that is handed to the library when the hook is rendered with some messages, and
  -- whether they are the ones (the same array) that it was rendered with before; the memo keeps the
  -- config of the last render.
  unfoldable pub next_config :
      Option (RuntimeConfig Date) → Bool → List Message → RuntimeConfig Date
  next_config none same messages = build_readonly_runtime_config messages
  next_config (some config) same messages =
      if same then config else build_readonly_runtime_config messages
