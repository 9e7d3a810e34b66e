-- ===== src/Projection/Fold.antt =====
-- `foldItemsIntoMessages` of web/src/lib/assistant-projection.ts.
pub mod Grouping
use codex_mcp_ui.Common.{
  String, Bool, true, false, Option, none, some, List, [], ◌∷◌, ◌++◌, if◌then◌else◌, value_or,
}
use codex_mcp_ui.Common.Text.{append}
use codex_mcp_ui.Projection.Parts.{
  Part, part_event_ids, Role, assistant, Message, AssistantPartItem, ProjectionItem,
}

-- The local variables: the messages so far, and the assistant message that is open.
pub record Folding : Type 0 where
  pub messages : List Message
  pub assistant_message : Option Message

abbrev flushed : List Message → Option Message → List Message
flushed messages none = messages
flushed messages (some message) = messages ++ message ∷ []

unfoldable pub flush_assistant : Folding → Folding
flush_assistant f = record {
  messages = flushed f.messages f.assistant_message;
  assistant_message = none;
}

-- The first event id of a part; every part has one.
abbrev first_id : List String → String
first_id [] = "undefined"
first_id (id ∷ ids) = id

abbrev pub open_message : AssistantPartItem → Message
open_message item = record {
  id = append "assistant-" (first_id (part_event_ids item.part));
  role = assistant;
  created_at = item.timestamp;
  parts = [];
}

abbrev pub push_to : Message → Part → Message
push_to message part = record message { parts = message.parts ++ part ∷ [] }

-- The body of the loop.
unfoldable pub fold_item : Folding → ProjectionItem → Folding
unfolding flush_assistant
fold_item f (ProjectionItem.user item) =
    let f' = flush_assistant f in record f' { messages = f'.messages ++ item.message ∷ [] }
fold_item f (ProjectionItem.assistant item) =
    let f' = record f {
      assistant_message =
          some (push_to (value_or f.assistant_message (open_message item)) item.part);
    } in
    if item.close_message_after then flush_assistant f' else f'

unfoldable pub fold_items : Folding → List ProjectionItem → Folding
fold_items f [] = f
fold_items f (item ∷ items) = fold_items (fold_item f item) items

unfoldable pub fold_items_into_messages : List ProjectionItem → List Message
unfolding flush_assistant
fold_items_into_messages items =
    (flush_assistant
      (fold_items (record { messages = []; assistant_message = none }) items)).messages
