-- ===== src/Projection/Fold/Grouping.antt =====
-- `foldItemsIntoMessages` against a grouping by recursion: an assistant item joins the message of
-- the assistant items after it, up to the next user message or an item that closes its message.
use mathlib.Core.List.{append_assoc, append-nil}
use codex_mcp_ui.Common.{
  ◌≡◌, refl, sym, ◌∙◌, ap, Bool, true, false, if_both, none, some, List, [], ◌∷◌, ◌++◌,
  if◌then◌else◌,
}
use codex_mcp_ui.Projection.Parts.{Part, Message, AssistantPartItem, ProjectionItem}
use codex_mcp_ui.Projection.Fold.{
  Folding, flush_assistant, open_message, push_to, fold_item, fold_items, fold_items_into_messages,
}

-- The message of one item.
abbrev pub single : AssistantPartItem → Message
single item = push_to (open_message item) item.part

abbrev starts_assistant : List ProjectionItem → Bool
starts_assistant (ProjectionItem.assistant item ∷ items) = true
starts_assistant _ = false

-- The first message takes in the parts of the second, if they belong together.
abbrev join_to : Message → Bool → List Message → List Message
join_to m true (m' ∷ ms) = record m { parts = m.parts ++ m'.parts } ∷ ms
join_to m _ ms = m ∷ ms

unfoldable pub group : List ProjectionItem → List Message
group [] = []
group (ProjectionItem.user item ∷ items) = item.message ∷ group items
group (ProjectionItem.assistant item ∷ items) =
    let rest = group items in
    if item.close_message_after
    then single item ∷ rest
    else join_to (single item) (starts_assistant items) rest

join_to-join_to :
    (m : Message) (a : AssistantPartItem) (b : Bool) (ms : List Message)
    → join_to m true (join_to (single a) b ms) ≡ join_to (push_to m a.part) b ms
join_to-join_to m a true (m' ∷ ms) =
    ap (λ l. record m { parts = l } ∷ ms) (sym (append_assoc m.parts (a.part ∷ []) m'.parts))
join_to-join_to m a true [] = refl
join_to-join_to m a false ms = refl

abbrev opened : List Message → Message → Folding
opened ms m = record { messages = ms; assistant_message = some m }

abbrev closed : List Message → Folding
closed ms = record { messages = ms; assistant_message = none }

abbrev result : Folding → List ProjectionItem → List Message
result f items = (flush_assistant (fold_items f items)).messages

-- The message of an item that may close it, after the message that was open.
join_step :
    (close : Bool) (m : Message) (a : AssistantPartItem) (b : Bool) (g : List Message)
    → join_to m true (if close then single a ∷ g else join_to (single a) b g)
      ≡ (if close then push_to m a.part ∷ g else join_to (push_to m a.part) b g)
join_step true m a b g = refl
join_step false m a b g = join_to-join_to m a b g

abbrev ClosedGroup : List ProjectionItem → Type 0
ClosedGroup items = (ms : List Message) → result (closed ms) items ≡ ms ++ group items

abbrev OpenedGroup : List ProjectionItem → Type 0
OpenedGroup items =
    (ms : List Message) (m : Message)
    → result (opened ms m) items ≡ ms ++ join_to m (starts_assistant items) (group items)

item_step :
    (close : Bool) (ms : List Message) (m : Message) (items : List ProjectionItem)
    → ClosedGroup items
    → OpenedGroup items
    → result (if close then flush_assistant (opened ms m) else opened ms m) items
      ≡ ms ++ (if close then m ∷ group items else join_to m (starts_assistant items) (group items))
unfolding flush_assistant
item_step true ms m items c o = c (ms ++ m ∷ []) ∙ append_assoc ms (m ∷ []) (group items)
item_step false ms m items c o = o ms m

fold_items-group : (items : List ProjectionItem) → ClosedGroup items × OpenedGroup items
unfolding fold_items fold_item flush_assistant group
fold_items-group [] = (λ ms. sym (append-nil ms), λ ms m. refl)
fold_items-group (ProjectionItem.user u ∷ items) =
    let c = (fold_items-group items).0 in
    (
      λ ms. c (ms ++ u.message ∷ []) ∙ append_assoc ms (u.message ∷ []) (group items),
      λ ms m.
          c ((ms ++ m ∷ []) ++ u.message ∷ [])
          ∙ append_assoc (ms ++ m ∷ []) (u.message ∷ []) (group items)
          ∙ append_assoc ms (m ∷ []) (u.message ∷ group items),
    )
fold_items-group (ProjectionItem.assistant a ∷ items) =
    let (c, o) = fold_items-group items in
    (
      λ ms. item_step a.close_message_after ms (single a) items c o,
      λ ms m.
          item_step a.close_message_after ms (push_to m a.part) items c o
          ∙ ap (λ l. ms ++ l)
              (sym (join_step a.close_message_after m a (starts_assistant items) (group items))),
    )

-- The loop gives the messages that the recursion does: each user item its own, and the assistant
-- items those between two breaks, a break being a user item or an item that closes its message.
pub fold_items_into_messages-group :
    (items : List ProjectionItem) → fold_items_into_messages items ≡ group items
unfolding fold_items_into_messages
fold_items_into_messages-group items = (fold_items-group items).0 []

abbrev pub item_parts : ProjectionItem → List Part
item_parts (ProjectionItem.assistant item) = item.part ∷ []
item_parts (ProjectionItem.user item) = item.message.parts

abbrev pub parts_of_items : List ProjectionItem → List Part
parts_of_items [] = []
parts_of_items (item ∷ items) = item_parts item ++ parts_of_items items

abbrev pub parts_of_messages : List Message → List Part
parts_of_messages [] = []
parts_of_messages (m ∷ ms) = m.parts ++ parts_of_messages ms

parts-join_to :
    (a : AssistantPartItem) (b : Bool) (ms : List Message)
    → parts_of_messages (join_to (single a) b ms) ≡ a.part ∷ parts_of_messages ms
parts-join_to a true (m ∷ ms) = refl
parts-join_to a true [] = refl
parts-join_to a false ms = refl

parts-group : (items : List ProjectionItem) → parts_of_messages (group items) ≡ parts_of_items items
unfolding group
parts-group [] = refl
parts-group (ProjectionItem.user u ∷ items) = ap (λ l. u.message.parts ++ l) (parts-group items)
parts-group (ProjectionItem.assistant a ∷ items) =
    if_both (λ ms. parts_of_messages ms ≡ a.part ∷ parts_of_items items) a.close_message_after
      (ap (◌∷◌ a.part) (parts-group items))
      (parts-join_to a (starts_assistant items) (group items) ∙ ap (◌∷◌ a.part) (parts-group items))

-- The messages hold the parts of the items, all of them, once, and in the items' order.
pub parts-fold_items_into_messages :
    (items : List ProjectionItem)
    → parts_of_messages (fold_items_into_messages items) ≡ parts_of_items items
parts-fold_items_into_messages items =
    ap parts_of_messages (fold_items_into_messages-group items) ∙ parts-group items
