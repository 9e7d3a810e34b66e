-- ===== src/View/Keys.antt =====
-- Keys of parts that React cannot tell apart.
use codex_mcp_ui.Common.{String, ◌≡◌, refl, sym, ◌∙◌, Option, none, some, [], ◌∷◌}
use mathlib.Core.Path.{subst}
use codex_mcp_ui.Event.{EventRecord}
use codex_mcp_ui.Projection.Parts.{Part, AssistantPartItem, PairBucket, ToolPart}
use codex_mcp_ui.Projection.Tools.{anchored, tool_item}
use codex_mcp_ui.Projection.Pairs.{
  project_web_search_bucket, project_image_generation_bucket, project_patch_bucket,
  project_collab_bucket,
}
use codex_mcp_ui.View.{part_key}

-- The key of a call is made of its title.
abbrev HasKey : (String → String) → String → String → AssistantPartItem → Type 0
HasKey inherited message_id key item = part_key inherited message_id item.part ≡ key

anchored-HasKey :
    (inherited : String → String) (message_id key : String) (anchor : Option EventRecord)
    (part : ToolPart) (item : AssistantPartItem)
    → part_key inherited message_id (Part.tool part) ≡ key
    → anchored anchor part ≡ some item
    → HasKey inherited message_id key item
anchored-HasKey inherited message_id key none part item h e = cc
anchored-HasKey inherited message_id key (some event) part item h e =
    let same : tool_item event part ≡ item = cc in subst (HasKey inherited message_id key) same h

-- The projections whose title does not depend on the events.
pub data Titled : Type 0 where
  web_search image_generation patch : Titled
  collab : String → Titled

abbrev pub project_titled : Titled → PairBucket → Option AssistantPartItem
project_titled Titled.web_search bucket = project_web_search_bucket bucket
project_titled Titled.image_generation bucket = project_image_generation_bucket bucket
project_titled Titled.patch bucket = project_patch_bucket bucket
project_titled (Titled.collab title) bucket = project_collab_bucket bucket title

abbrev title_of : Titled → String
title_of Titled.web_search = "Web search"
title_of Titled.image_generation = "Image generation"
title_of Titled.patch = "Patch apply"
title_of (Titled.collab title) = title

abbrev key_of : String → Titled → String
key_of message_id t = codex_mcp_ui.View.dashed (message_id ∷ "tool" ∷ title_of t ∷ [])

titled-HasKey :
    (inherited : String → String) (message_id : String) (t : Titled) (bucket : PairBucket)
    (item : AssistantPartItem)
    → project_titled t bucket ≡ some item
    → HasKey inherited message_id (key_of message_id t) item
unfolding project_web_search_bucket project_image_generation_bucket project_patch_bucket
    project_collab_bucket part_key
titled-HasKey inherited message_id Titled.web_search bucket item e =
    anchored-HasKey inherited message_id _ _ _ item refl e
titled-HasKey inherited message_id Titled.image_generation bucket item e =
    anchored-HasKey inherited message_id _ _ _ item refl e
titled-HasKey inherited message_id Titled.patch bucket item e =
    anchored-HasKey inherited message_id _ _ _ item refl e
titled-HasKey inherited message_id (Titled.collab title) bucket item e =
    anchored-HasKey inherited message_id _ _ _ item refl e

-- The parts of any two web searches have one key, if they are in one message, and so have those of
-- any two image generations, of any two patches, and of any two agent calls with one title,
-- whatever their events are.
pub part_key_collides :
    (inherited : String → String) (message_id : String) (t : Titled) (a b : PairBucket)
    (item other : AssistantPartItem)
    → project_titled t a ≡ some item
    → project_titled t b ≡ some other
    → part_key inherited message_id item.part ≡ part_key inherited message_id other.part
part_key_collides inherited message_id t a b item other e f =
    titled-HasKey inherited message_id t a item e
    ∙ sym (titled-HasKey inherited message_id t b other f)
