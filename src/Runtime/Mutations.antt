-- ===== src/Runtime/Mutations.antt =====
-- What the read-only runtime of web/src/lib/readonly-assistant-runtime.ts refuses.
use codex_mcp_ui.Common.{
  if◌then◌else◌, String, ◌≡◌, refl, ap, Bool, Bool-cases, inl, inr, true, false, not, ◌&&◌, ◌||◌,
  any, Option, none, some, List, [], ◌∷◌, ◌==◌, eq_iff,
}
use mathlib.Core.Path.{subst}
use codex_mcp_ui.Common.Table.{get}
use codex_mcp_ui.Common.Text.{append}
use codex_mcp_ui.Runtime.{
  Kind, runtime, thread_list, thread_list_item, thread, message, composer, part, attachment, Entry,
  mutation_error,
}
use codex_mcp_ui.Runtime.Tables.{readonly}
use codex_mcp_ui.Runtime.Refusal.{every, Passes, get-Passes, and_true}
use codex_mcp_ui.Runtime.Calls.{Base, Handle, Outcome, respond, use_property}

-- How the operations of a kind are named in errors.
abbrev operation_prefix : Kind → String
operation_prefix runtime = "runtime."
operation_prefix thread_list = "threadList."
operation_prefix thread_list_item = "threadListItem."
operation_prefix thread = "thread."
operation_prefix message = "message."
operation_prefix composer = "composer."
operation_prefix part = "messagePart."
operation_prefix attachment = "attachment."

-- An entry that refuses names its own operation.
abbrev is_named : Kind → String → Entry → Bool
is_named kind name (Entry.throws operation) = operation == append (operation_prefix kind) name
is_named kind name (Entry.rejects operation) = operation == append (operation_prefix kind) name
is_named kind name _ = true

readonly_named :
    (has_begin_edit : Bool) (kind : Kind)
    → every (is_named kind) (readonly has_begin_edit kind) ≡ true
readonly_named b runtime = refl
readonly_named b thread_list = refl
readonly_named b thread_list_item = refl
readonly_named b thread = refl
readonly_named b message = refl
readonly_named true composer = refl
readonly_named false composer = refl
readonly_named b part = refl
readonly_named b attachment = refl

-- The message of a refusal, thrown or rejected with.
abbrev pub refusal : {Object : Type 0} → Outcome Object → Option String
refusal (Outcome.thrown m) = some m
refusal (Outcome.rejected m) = some m
refusal _ = none

-- The library's properties that change a conversation, a list of threads, what is composed, or a voice
-- session. Only some composers have one to begin an edit.
abbrev mutations : Bool → Kind → List String
mutations b runtime = "switchToNewThread" ∷ "switchToThread" ∷ "reset" ∷ []
mutations b thread_list = "switchToThread" ∷ "switchToNewThread" ∷ []
mutations b thread_list_item =
    "initialize" ∷ "generateTitle" ∷ "switchTo" ∷ "rename" ∷ "archive" ∷ "unarchive" ∷ "delete"
    ∷ "detach" ∷ []
mutations b thread =
    "append" ∷ "startRun" ∷ "resumeRun" ∷ "unstable_resumeRun" ∷ "importExternalState"
    ∷ "unstable_loadExternalState" ∷ "cancelRun" ∷ "import" ∷ "reset" ∷ "stopSpeaking"
    ∷ "connectVoice" ∷ "disconnectVoice" ∷ "muteVoice" ∷ "unmuteVoice" ∷ []
mutations b message = "reload" ∷ "speak" ∷ "stopSpeaking" ∷ "submitFeedback" ∷ "switchToBranch" ∷ []
mutations true composer =
    "beginEdit" ∷ "addAttachment" ∷ "setText" ∷ "setRole" ∷ "setRunConfig" ∷ "reset"
    ∷ "clearAttachments" ∷ "send" ∷ "cancel" ∷ "startDictation" ∷ "stopDictation" ∷ "setQuote" ∷ []
mutations false composer =
    "addAttachment" ∷ "setText" ∷ "setRole" ∷ "setRunConfig" ∷ "reset" ∷ "clearAttachments" ∷ "send"
    ∷ "cancel" ∷ "startDictation" ∷ "stopDictation" ∷ "setQuote" ∷ []
mutations b part = "addToolResult" ∷ "resumeToolCall" ∷ []
mutations b attachment = "remove" ∷ []

abbrev pub is_mutation : Bool → Kind → String → Bool
is_mutation b kind name = any (λ operation. operation == name) (mutations b kind)

abbrev is_refused : Option Entry → Bool
is_refused (some (Entry.throws operation)) = true
is_refused (some (Entry.rejects operation)) = true
is_refused _ = false

abbrev all_refused : Bool → Kind → List String → Bool
all_refused b kind [] = true
all_refused b kind (name ∷ names) =
    is_refused (get (readonly b kind) name) && all_refused b kind names

mutations_refused : (b : Bool) (kind : Kind) → all_refused b kind (mutations b kind) ≡ true
unfolding get
mutations_refused b runtime = refl
mutations_refused b thread_list = refl
mutations_refused b thread_list_item = refl
mutations_refused b thread = refl
mutations_refused b message = refl
mutations_refused true composer = refl
mutations_refused false composer = refl
mutations_refused b part = refl
mutations_refused b attachment = refl

refused_if :
    (b : Bool) (kind : Kind) (names : List String) (name : String)
    → all_refused b kind names ≡ true
    → any (λ operation. operation == name) names ≡ true
    → is_refused (get (readonly b kind) name) ≡ true
refused_if b kind [] name h k = cc
refused_if b kind (n ∷ names) name h k =
    let (own, rest) =
      and_true (is_refused (get (readonly b kind) n)) (all_refused b kind names) h in
    elim (Bool-cases (n == name)) [
      | inl here ↦
          subst (λ m. is_refused (get (readonly b kind) m) ≡ true) ((eq_iff n name).0 here) own
      | inr there ↦ refused_if b kind names name rest (rw there at k)
    ]

-- Only mutations are refused.
abbrev is_rightly_refused : Bool → Kind → String → Entry → Bool
is_rightly_refused b kind name entry = not (is_refused (some entry)) || is_mutation b kind name

readonly_rightly_refused :
    (b : Bool) (kind : Kind) → every (is_rightly_refused b kind) (readonly b kind) ≡ true
readonly_rightly_refused b runtime = refl
readonly_rightly_refused b thread_list = refl
readonly_rightly_refused b thread_list_item = refl
readonly_rightly_refused b thread = refl
readonly_rightly_refused b message = refl
readonly_rightly_refused true composer = refl
readonly_rightly_refused false composer = refl
readonly_rightly_refused b part = refl
readonly_rightly_refused b attachment = refl

-- The text of the error for an operation of an object.
abbrev pub refusal_text : Kind → String → String
refusal_text kind name =
    append "Readonly assistant runtime does not allow "
      (append (append (operation_prefix kind) name) ".")

module _ {World Object : Type 0} (base : Base World Object) where
  respond-refused :
      (w : World) (h : Handle Object) (name : String) (o : Option Entry)
      → Passes (is_named h.kind) name o
      → is_refused o ≡ true
      → ((respond base w h name o).0 ≡ w)
        × (refusal (respond base w h name o).1 ≡ some (refusal_text h.kind name))
  respond-refused w h name none n r = cc
  respond-refused w h name (some Entry.copied) n r = cc
  respond-refused w h name (some Entry.bound) n r = cc
  respond-refused w h name (some Entry.adjusted) n r = cc
  respond-refused w h name (some Entry.again) n r = cc
  respond-refused w h name (some (Entry.wraps kind)) n r = cc
  respond-refused w h name (some (Entry.throws operation)) n r =
      (refl, ap (λ t. some (mutation_error t)) ((eq_iff operation _).0 n))
  respond-refused w h name (some (Entry.rejects operation)) n r =
      (refl, ap (λ t. some (mutation_error t)) ((eq_iff operation _).0 n))

  respond-allowed :
      (w : World) (h : Handle Object) (name : String) (b : Bool) (o : Option Entry)
      → Passes (is_rightly_refused b h.kind) name o
      → is_mutation b h.kind name ≡ false
      → refusal (respond base w h name o).1 ≡ none
  respond-allowed w h name b none n m = refl
  respond-allowed w h name b (some Entry.copied) n m = refl
  respond-allowed w h name b (some Entry.bound) n m = refl
  respond-allowed w h name b (some Entry.adjusted) n m = refl
  respond-allowed w h name b (some Entry.again) n m = refl
  respond-allowed w h name b (some (Entry.wraps kind)) n m = refl
  respond-allowed w h name b (some (Entry.throws operation)) n m = cc
  respond-allowed w h name b (some (Entry.rejects operation)) n m = cc

  -- A use is refused, by an error or by a promise that is rejected, exactly if it is of a property of
  -- the library's that changes something: then it leaves the world as it is, and the message names the
  -- object and the property.
  pub use_property-refusal :
      (w : World) (h : Handle Object) (name : String)
      → let mutates = is_mutation (base.has_begin_edit h.object) h.kind name in
        (refusal (use_property base w h name).1
          ≡ (if mutates then some (refusal_text h.kind name) else none))
        × ((use_property base w h name).0 ≡ (if mutates then w else (use_property base w h name).0))
  unfolding use_property
  use_property-refusal w h name =
      let b = base.has_begin_edit h.object in
      elim (Bool-cases (is_mutation b h.kind name)) [
        | inl mutates ↦
            let (same, text) =
              respond-refused w h name _
                (get-Passes (is_named h.kind) (readonly b h.kind) name (readonly_named b h.kind))
                (refused_if b h.kind (mutations b h.kind) name (mutations_refused b h.kind)
                  mutates) in
            rw mutates (text, same)
        | inr harmless ↦
            let allowed =
              respond-allowed w h name b _
                (get-Passes (is_rightly_refused b h.kind) (readonly b h.kind) name
                  (readonly_rightly_refused b h.kind))
                harmless in
            rw harmless (allowed, refl)
      ]
