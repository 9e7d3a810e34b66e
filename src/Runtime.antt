-- ===== src/Runtime.antt =====
-- web/src/lib/readonly-assistant-runtime.ts: the runtime that is given to the thread's components.
-- The runtime library is a parameter.
pub mod Tables
pub mod Calls
pub mod Refusal
pub mod Mutations
pub mod Messages
pub mod Config
mod Tests
use codex_mcp_ui.Common.{String, Bool, false}
use codex_mcp_ui.Common.Text.{append}

-- The objects that are wrapped, by the function that wraps them.
pub data Kind : Type 0 where
  runtime thread_list thread_list_item thread message composer part attachment : Kind

-- A property of a wrapper: one copied from the object, a method bound to it, a method that reads
-- its state and overrides some of it, a function that throws the read-only error, one whose
-- promise is rejected with it, one that wraps the same object again, and a getter or method whose
-- result is wrapped in turn.
pub data Entry : Type 0 where
  copied bound adjusted again : Entry
  throws rejects : String → Entry
  wraps : Kind → Entry

-- The message of `createReadonlyMutationError`.
abbrev pub mutation_error : String → String
mutation_error operation =
    append "Readonly assistant runtime does not allow " (append operation ".")

pub record Affordances : Type 0 where
  pub composer_ : Bool
  pub edit : Bool
  pub reload : Bool
  pub branch_switch : Bool
  pub attachments : Bool

abbrev pub readonly_assistant_affordances : Affordances
readonly_assistant_affordances = record {
  composer_ = false;
  edit = false;
  reload = false;
  branch_switch = false;
  attachments = false;
}
