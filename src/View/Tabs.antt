-- ===== src/View/Tabs.antt =====
-- web/src/components/workbench/session-conversation-tabs.tsx: the three tabs of a thread. The tabs of
-- the interface kit render the content of the tab that is open, and of one that is always mounted.
use codex_mcp_ui.Common.{String, true, List, [], ◌∷◌}
use codex_mcp_ui.Markup.{Node, el, text, flag, takes}

-- The tab that is open at first.
abbrev pub first_tab : String
first_tab = "conversation"

module _ {A : Type 0} (set_tab : String → A) where
  abbrev trigger : String → String → Node A
  trigger value label = el "TabsTrigger" (("value", text value) ∷ []) (text label ∷ [])

  unfoldable pub session_conversation_tabs :
      String → List (Node A) → List (Node A) → List (Node A) → Node A
  session_conversation_tabs tab conversation raw_events metadata =
      el "Tabs" (("value", text tab) ∷ ("onValueChange", takes set_tab) ∷ []) (
        el "div" [] (
          el "TabsList" [] (
            trigger "conversation" "Conversation"
            ∷ trigger "raw" "Raw events"
            ∷ trigger "metadata" "Metadata"
            ∷ [])
          ∷ [])
        ∷ el "TabsContent" (("value", text "conversation") ∷ ("forceMount", flag true) ∷ [])
            conversation
        ∷ el "TabsContent" (("value", text "raw") ∷ []) raw_events
        ∷ el "TabsContent" (("value", text "metadata") ∷ []) metadata
        ∷ [])
