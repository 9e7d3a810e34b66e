-- ===== src/Projection/Parts.antt =====
-- The interfaces of web/src/lib/assistant-projection.ts: parts, messages, items and buckets.
use codex_mcp_ui.Common.{ℕ, String, Bool, Option, List}
use codex_mcp_ui.Json.{Json, Number, Record}
use codex_mcp_ui.Event.{EventRecord}

-- The inputs beside the text of a user's message.
pub record UserInputs : Type 0 where
  pub images : Option (List String)
  pub local_images : Option (List String)
  pub text_elements : Option (List Json)

-- A value of type `unknown`: a parsed one, an object that the projection makes from properties, or
-- a list of parsed ones.
pub data Unknown : Type 0 where
  json : Option Json → Unknown
  properties : Record → Unknown
  elements : List Json → Unknown
  user_inputs : UserInputs → Unknown

-- A title that is looked up in a plain object: an entry's text, or what the object inherits from
-- `Object.prototype` under that key, which is no text.
pub data Title : Type 0 where
  text : String → Title
  inherited : String → Title

pub record Step : Type 0 where
  pub step : String
  pub status : String

pub record Interaction : Type 0 where
  pub process_id : Option String
  pub stdin : Option String
  pub interaction_input : Option String

pub data Variant : Type 0 where
  text reasoning raw_content : Variant

pub data ToolKind : Type 0 where
  exec_command mcp_tool_call web_search image_generation patch_apply dynamic_tool_call collab_agent
        view_image :
      ToolKind

pub data ToolStatus : Type 0 where
  running complete failed : ToolStatus

pub record ToolPart : Type 0 where
  pub tool_kind : ToolKind
  pub title : String
  pub status : ToolStatus
  pub command : Option (List String)
  pub cwd : Option String
  pub output : Option String
  pub exit_code : Option Number
  pub server : Option String
  pub tool_name : Option String
  pub args : Option Unknown
  pub result : Option Unknown
  pub duration : Option String
  pub query : Option String
  pub action_type : Option String
  pub changes : Option (List String)
  pub stdout : Option String
  pub stderr : Option String
  pub error : Option String
  pub image_status : Option String
  pub revised_prompt : Option String
  pub saved_path : Option String
  pub interactions : Option (List Interaction)
  pub event_ids : List String

-- Each part carries the ids of its events last.
pub data Part : Type 0 where
  text :
      (text : String) (phase : Option String) (memory_citation : Option Json)
      (event_ids : List String)
      → Part
  reasoning : (text : String) (variant : Variant) (event_ids : List String) → Part
  lifecycle :
      (event_type : String) (title : Title) (details : Record) (event_ids : List String) → Part
  plan :
      (title : String) (explanation : Option String) (steps : List Step) (delta : Option String)
      (event_ids : List String)
      → Part
  approval :
      (title request_kind : String) (reason : Option String) (command : List String)
      (cwd : Option String) (event_ids : List String)
      → Part
  tool : ToolPart → Part
  mcp_method : (method title : String) (params : Record) (event_ids : List String) → Part
  unknown : (event_type title : String) (payload : Unknown) (event_ids : List String) → Part

abbrev pub part_event_ids : Part → List String
part_event_ids (text _ _ _ ids) = ids
part_event_ids (reasoning _ _ ids) = ids
part_event_ids (lifecycle _ _ _ ids) = ids
part_event_ids (plan _ _ _ _ ids) = ids
part_event_ids (approval _ _ _ _ _ ids) = ids
part_event_ids (tool t) = t.event_ids
part_event_ids (mcp_method _ _ _ ids) = ids
part_event_ids (unknown _ _ _ ids) = ids

pub data Role : Type 0 where
  user assistant : Role

pub record Message : Type 0 where
  pub id : String
  pub role : Role
  pub created_at : String
  pub parts : List Part

pub record AssistantPartItem : Type 0 where
  pub timestamp : String
  pub order : ℕ
  pub part : Part
  pub close_message_after : Bool

pub record UserMessageItem : Type 0 where
  pub timestamp : String
  pub order : ℕ
  pub message : Message

pub data ProjectionItem : Type 0 where
  assistant : AssistantPartItem → ProjectionItem
  user : UserMessageItem → ProjectionItem

pub record ExecBucket : Type 0 where
  pub begin : Option EventRecord
  pub outputs : List EventRecord
  pub interactions : List EventRecord
  pub end : Option EventRecord

pub record PairBucket : Type 0 where
  pub begin : Option EventRecord
  pub end : Option EventRecord

pub record StreamBucket : Type 0 where
  pub timestamp : String
  pub order : ℕ
  pub event_ids : List String
  pub chunks : List String
  pub variant : Variant
  pub terminated : Bool

-- `Number.MAX_SAFE_INTEGER`.
abbrev pub max_safe_integer : ℕ
max_safe_integer = 9007199254740991
