-- ===== src/Runtime/Tests.antt =====
-- Uses of the read-only runtime, and the instances of the theorems at them.
use codex_mcp_ui.Common.{
  ℕ, suc, ◌≡◌, refl, true, false, Bool-cases, inl, inr, none, some, List, [], ◌∷◌, map, ◌==◌,
  eq_iff, if◌then◌else◌,
}
use mathlib.Core.Path.{subst}
use codex_mcp_ui.Common.Table.{get}
use codex_mcp_ui.Projection.Parts.{Part, user, Message}
use codex_mcp_ui.Runtime.{
  Kind, runtime, thread_list, thread_list_item, thread, message, composer, part, attachment,
}
use codex_mcp_ui.Runtime.Calls.{Base, Handle, use_property, use_all}
use codex_mcp_ui.Runtime.Refusal.{is_reading_operation, KeepsConversation, use_all_keeps}
use codex_mcp_ui.Runtime.Mutations.{refusal, refusal_text, use_property-refusal}
use codex_mcp_ui.Runtime.Messages.{
  ThreadState, readonly_thread_state, readonly_thread_state_lem, identity, thread_identity,
  content_text, shown_text, to_thread_messages, to_thread_messages_lem,
}

-- A library in which appending adds to the conversation.
abbrev library : Base ℕ Unit
library = record {
  invoke = λ kind o name w. if name == "append" then suc w else w;
  result = λ kind o name w. tt;
  has_begin_edit = λ o. false;
}

abbrev the_thread : Handle Unit
the_thread = record { kind = thread; object = tt }

use_property-refusal_example :
    (refusal (use_property library 0 the_thread "append").1 ≡ some (refusal_text thread "append"))
    × ((use_property library 0 the_thread "append").0 ≡ 0)
use_property-refusal_example = use_property-refusal library 0 the_thread "append"

append_text :
    refusal_text thread "append" ≡ "Readonly assistant runtime does not allow thread.append."
append_text = refl

append_changes : (kind : Kind) → is_reading_operation kind "append" ≡ false
append_changes runtime = refl
append_changes thread_list = refl
append_changes thread_list_item = refl
append_changes thread = refl
append_changes message = refl
append_changes composer = refl
append_changes part = refl
append_changes attachment = refl

library-KeepsConversation : KeepsConversation library (λ (w : ℕ). w)
library-KeepsConversation kind o name w h = elim (Bool-cases (name == "append")) [
  | inl appends ↦
      let reads : is_reading_operation kind "append" ≡ true =
        subst (λ n. is_reading_operation kind n ≡ true) ((eq_iff name "append").0 appends) h in
      let changes = append_changes kind in cc
  | inr reads ↦ rw reads refl
]

use_all_keeps_example :
    (use_all library 0
      (the_thread ∷ [])
      ((0, "append") ∷ (0, "getState") ∷ (0, "composer") ∷ (1, "send") ∷ [])).0
    ≡ 0
use_all_keeps_example =
    use_all_keeps library (λ (w : ℕ). w) 0 (the_thread ∷ [])
      ((0, "append") ∷ (0, "getState") ∷ (0, "composer") ∷ (1, "send") ∷ [])
      library-KeepsConversation

abbrev state : ThreadState
state = record { is_disabled = false; capabilities = ("edit", true) ∷ ("extra", true) ∷ [] }

readonly_thread_state_lem_example :
    ((readonly_thread_state state).is_disabled ≡ true)
    × (get (readonly_thread_state state).capabilities "edit" ≡ some false)
readonly_thread_state_lem_example = readonly_thread_state_lem state "edit"

abbrev messages : List Message
messages =
    record {
      id = "user-1";
      role = user;
      created_at = "2026-01-01";
      parts = Part.text "hi" none none ("1" ∷ []) ∷ [];
    }
    ∷ []

to_thread_messages_lem_example :
    (map thread_identity (to_thread_messages (λ s. s) messages) ≡ map identity messages)
    × (map (λ m. map content_text m.content) (to_thread_messages (λ s. s) messages)
        ≡ map (λ m. map shown_text m.parts) messages)
to_thread_messages_lem_example = to_thread_messages_lem (λ s. s) messages
