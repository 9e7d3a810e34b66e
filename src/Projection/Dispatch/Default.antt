-- ===== src/Projection/Dispatch/Default.antt =====
-- What follows the `switch` of the loop in web/src/lib/assistant-projection.ts only pushes items.
use codex_mcp_ui.Common.{ℕ, String, ◌≡◌, refl, Option, none, some, List, if_both, truthy}
use codex_mcp_ui.Event.{EventRecord}
use codex_mcp_ui.Projection.Parts.{Title, AssistantPartItem, ProjectionItem}
use codex_mcp_ui.Projection.Items.{project_mcp_method}
use codex_mcp_ui.Projection.Titles.{is_approval_event, lifecycle_title}
use codex_mcp_ui.Projection.Dispatch.{Projection, or_unknown, or_method, default_for}

module _ (p : Projection) (event : EventRecord) (index : ℕ) where
  -- The variables are those of p, but for the items.
  abbrev pub IsOf : Projection → Type 0
  IsOf q = (items : List ProjectionItem) × (q ≡ record p { items = items })

  or_unknown-IsOf :
      (t : String) (o : Option AssistantPartItem) → IsOf (or_unknown p event index t o)
  or_unknown-IsOf t none = (_, refl)
  or_unknown-IsOf t (some item) = (_, refl)

  or_method-IsOf : (t : String) (o : Option Title) → IsOf (or_method p event index t o)
  or_method-IsOf t none = or_unknown-IsOf t (project_mcp_method event index)
  or_method-IsOf t (some title) = (_, refl)

  pub default_for-IsOf : (o : Option String) → IsOf (default_for p event index o)
  default_for-IsOf none = (_, refl)
  default_for-IsOf (some t) =
      if_both IsOf (truthy t)
        (if_both IsOf (is_approval_event t) (_, refl) (or_method-IsOf t (lifecycle_title t)))
        (_, refl)
