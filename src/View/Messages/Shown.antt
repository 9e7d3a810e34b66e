-- ===== src/View/Messages/Shown.antt =====
-- Which messages the conversation of web/src/components/workbench/readonly-assistant-thread.tsx shows.
use codex_mcp_ui.Common.{
  ℕ, suc, ◌+◌, String, Option, some, List, [], ◌∷◌, ◌++◌, map, get_elem?, ◌≡◌, refl, ap, ◌∙◌, arith,
}
use mathlib.Core.List.{flatten}
use mathlib.Core.Path.{fun_ext}
use codex_mcp_ui.Markup.{Node, nodes}
use codex_mcp_ui.Projection.Parts.{Role, Message}
use codex_mcp_ui.Runtime.Messages.{ThreadMessage, to_thread_message, to_thread_messages}
use codex_mcp_ui.View.Messages.{Texts, readonly_message, message_at, message_node, message_nodes}
use codex_mcp_ui.View.Messages.Outline.{
  outline_in, outline_in-map, message_marks, message_node-outline,
}

module _ {A Date : Type 0} where
  -- A component for each message of the runtime, with its index and its role.
  abbrev pub each : ℕ → (ℕ → Role → List (Node A)) → List (ThreadMessage Date) → List (Node A)
  each i component [] = []
  each i component (m ∷ ms) = component i m.role ++ each (suc i) component ms

  -- The library renders its component once for each message, in their order.
  abbrev pub RendersEach :
      ((ℕ → Role → List (Node A)) → List (ThreadMessage Date) → List (Node A)) → Type 0
  RendersEach primitive_messages =
      (component : ℕ → Role → List (Node A)) (ms : List (ThreadMessage Date))
      → primitive_messages component ms ≡ each 0 component ms

module _ {A Date : Type 0} (x : Texts) (new_date : String → Date) where
  -- From an index on, the context holds the messages.
  each-message_at :
      (at : ℕ → Option Message) (i : ℕ) (ms : List Message)
      → ((j : ℕ) → at (i + j) ≡ get_elem? ms j)
      → each {A = A} i (λ k role. message_at x role (at k)) (to_thread_messages new_date ms)
        ≡ map (λ m. message_node x m.role m) ms
  unfolding to_thread_messages to_thread_message
  each-message_at at i [] h = refl
  each-message_at at i (m ∷ ms) h =
      let here : at i ≡ some m = ap at (omega arith) ∙ h 0 in
      rw here (
        ap (λ l. message_node x m.role m ∷ l)
          (each-message_at at (suc i) ms (λ j. ap at (omega arith) ∙ h (suc j))))

  message_nodes-map :
      (primitive_messages : (ℕ → Role → List (Node A)) → List (ThreadMessage Date) → List (Node A))
      (projected : List Message)
      → RendersEach primitive_messages
      → message_nodes x new_date primitive_messages projected
        ≡ map (λ m. message_node x m.role m) projected
  unfolding message_nodes readonly_message
  message_nodes-map primitive_messages projected renders =
      renders (readonly_message x projected) (to_thread_messages new_date projected)
      ∙ each-message_at (get_elem? projected) 0 projected
          (λ j. ap (get_elem? projected) (omega arith))

  -- If the runtime library renders its component once for each of its messages, in their order, with
  -- the message's index and role: the messages, icons, labels, parts and shown texts of the rendered
  -- conversation are, in the order of the document, for each projected message its role, the icon
  -- of that role (`User` or `Bot`), a label with the role and one with its date, and for each of its
  -- parts, all of them and in their order, the part's key and the texts it shows: a text or a
  -- reasoning its text, the assistant's text also its memory citation where that has entries, and
  -- every other part the part's own JSON.
  pub message_nodes-outline :
      (primitive_messages : (ℕ → Role → List (Node A)) → List (ThreadMessage Date) → List (Node A))
      (projected : List Message)
      → RendersEach primitive_messages
      → outline_in (nodes (message_nodes x new_date primitive_messages projected))
        ≡ flatten (map (message_marks x) projected)
  message_nodes-outline primitive_messages projected renders =
      ap (λ ns. outline_in (nodes ns)) (message_nodes-map primitive_messages projected renders)
      ∙ outline_in-map (λ m. message_node x m.role m) projected
      ∙ ap (λ f. flatten (map f projected)) (fun_ext (message_node-outline A x))
