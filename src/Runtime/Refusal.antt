-- ===== src/Runtime/Refusal.antt =====
-- Nothing that the read-only runtime lets through changes a conversation.
use codex_mcp_ui.Common.{
  ℕ, String, ◌≡◌, refl, ◌∙◌, Bool, true, false, not, ◌&&◌, ◌||◌, any, if_either, Option, none, some,
  List, [], ◌∷◌, ◌==◌, eq_iff,
}
use mathlib.Core.Path.{subst}
use codex_mcp_ui.Common.Table.{Table, get}
use codex_mcp_ui.Runtime.{
  Kind, runtime, thread_list, thread_list_item, thread, message, composer, part, attachment, Entry,
}
use codex_mcp_ui.Runtime.Tables.{readonly}
use codex_mcp_ui.Runtime.Calls.{Base, Handle, respond, use_property, nth, use_of, use_all}

-- A test of every entry, and of the one that a lookup finds.
abbrev pub every : (String → Entry → Bool) → Table Entry → Bool
every test [] = true
every test ((name, entry) ∷ m) = test name entry && every test m

abbrev pub Passes : (String → Entry → Bool) → String → Option Entry → Type 0
Passes test name none = Unit
Passes test name (some entry) = test name entry ≡ true

pub and_true : (a b : Bool) → a && b ≡ true → (a ≡ true) × (b ≡ true)
and_true true b h = (refl, h)
and_true false b h = cc

pub get-Passes :
    (test : String → Entry → Bool) (m : Table Entry) (name : String)
    → every test m ≡ true
    → Passes test name (get m name)
unfolding get
get-Passes test [] name h = tt
get-Passes test ((key, entry) ∷ m) name h =
    let (own, rest) = and_true (test key entry) (every test m) h in
    if_either (Passes test name) (key == name)
      (λ here. subst (λ k. test k entry ≡ true) ((eq_iff key name).0 here) own)
      (λ there. get-Passes test m name rest)

-- The library's properties that read a state or an object, subscribe to changes, or register what
-- is used for further runs.
abbrev pub reading_operations : Kind → List String
reading_operations runtime =
    "threads" ∷ "thread" ∷ "threadList" ∷ "registerModelContextProvider"
    ∷ "registerModelConfigProvider" ∷ []
reading_operations thread_list =
    "getState" ∷ "subscribe" ∷ "main" ∷ "getById" ∷ "mainItem" ∷ "getItemById" ∷ "getItemByIndex"
    ∷ "getArchivedItemByIndex" ∷ "getLoadThreadsPromise" ∷ []
reading_operations thread_list_item = "getState" ∷ "subscribe" ∷ "unstable_on" ∷ []
reading_operations thread =
    "composer" ∷ "getState" ∷ "exportExternalState" ∷ "subscribe" ∷ "getModelContext"
    ∷ "getModelConfig" ∷ "export" ∷ "getMessageByIndex" ∷ "getMessageById" ∷ "getVoiceVolume"
    ∷ "subscribeVoiceVolume" ∷ "unstable_on" ∷ []
reading_operations message =
    "composer" ∷ "getState" ∷ "unstable_getCopyText" ∷ "subscribe" ∷ "getMessagePartByIndex"
    ∷ "getMessagePartByToolCallId" ∷ "getAttachmentByIndex" ∷ []
reading_operations composer = "getState" ∷ "subscribe" ∷ "getAttachmentByIndex" ∷ "unstable_on" ∷ []
reading_operations part = "getState" ∷ "subscribe" ∷ []
reading_operations attachment = "getState" ∷ "subscribe" ∷ []

abbrev pub is_reading_operation : Kind → String → Bool
is_reading_operation kind name = any (λ operation. operation == name) (reading_operations kind)

-- The entries that reach the object: bound methods, states, and what is wrapped.
abbrev is_reading : Entry → Bool
is_reading Entry.bound = true
is_reading Entry.adjusted = true
is_reading (Entry.wraps kind) = true
is_reading _ = false

abbrev is_allowed : Kind → String → Entry → Bool
is_allowed kind name entry = not (is_reading entry) || is_reading_operation kind name

readonly_allowed :
    (has_begin_edit : Bool) (kind : Kind)
    → every (is_allowed kind) (readonly has_begin_edit kind) ≡ true
readonly_allowed b runtime = refl
readonly_allowed b thread_list = refl
readonly_allowed b thread_list_item = refl
readonly_allowed b thread = refl
readonly_allowed b message = refl
readonly_allowed true composer = refl
readonly_allowed false composer = refl
readonly_allowed b part = refl
readonly_allowed b attachment = refl

module _ {World Object C : Type 0} (base : Base World Object) (conversation : World → C) where
  -- The library's reading operations leave the conversation as it is.
  abbrev pub KeepsConversation : Type 0
  KeepsConversation =
      (kind : Kind) (o : Object) (name : String) (w : World)
      → is_reading_operation kind name ≡ true
      → conversation (base.invoke kind o name w) ≡ conversation w

  respond_keeps :
      (w : World) (h : Handle Object) (name : String) (o : Option Entry)
      → Passes (is_allowed h.kind) name o
      → KeepsConversation
      → conversation (respond base w h name o).0 ≡ conversation w
  respond_keeps w h name none a k = refl
  respond_keeps w h name (some Entry.copied) a k = refl
  respond_keeps w h name (some Entry.bound) a k = k h.kind h.object name w a
  respond_keeps w h name (some Entry.adjusted) a k = k h.kind h.object name w a
  respond_keeps w h name (some Entry.again) a k = refl
  respond_keeps w h name (some (Entry.throws operation)) a k = refl
  respond_keeps w h name (some (Entry.rejects operation)) a k = refl
  respond_keeps w h name (some (Entry.wraps kind)) a k = k h.kind h.object name w a

  use_of_keeps :
      (w : World) (hs : List (Handle Object)) (o : Option (Handle Object)) (name : String)
      → KeepsConversation
      → conversation (use_of base w hs o name).0 ≡ conversation w
  unfolding use_property
  use_of_keeps w hs none name k = refl
  use_of_keeps w hs (some h) name k =
      respond_keeps w h name _
        (get-Passes (is_allowed h.kind) (readonly (base.has_begin_edit h.object) h.kind) name
          (readonly_allowed (base.has_begin_edit h.object) h.kind))
        k

  -- If the library's reading operations leave the conversation as it is, then so does a caller that
  -- starts from any wrappers and uses any properties of them, and of the wrappers that it gets, in
  -- any order: whatever else the library can do is not reached.
  pub use_all_keeps :
      (w : World) (hs : List (Handle Object)) (uses : List (ℕ × String))
      → KeepsConversation
      → conversation (use_all base w hs uses).0 ≡ conversation w
  unfolding use_all
  use_all_keeps w hs [] k = refl
  use_all_keeps w hs ((i, name) ∷ uses) k =
      let (w', hs') = use_of base w hs (nth base hs i) name in
      use_all_keeps w' hs' uses k ∙ use_of_keeps w hs (nth base hs i) name k
