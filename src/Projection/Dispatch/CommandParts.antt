-- ===== src/Projection/Dispatch/CommandParts.antt =====
-- The parts of a command among the events of web/src/lib/assistant-projection.ts, and what they add
-- to the command's bucket.
use mathlib.Core.List.{append_assoc, append-nil}
use codex_mcp_ui.Common.{
  String, ◌≡◌, refl, sym, ap, ◌∙◌, Bool, true, false, not, ◌&&◌, Option, none, some, List, [], ◌∷◌,
  ◌++◌, ◌==◌, arith, if◌then◌else◌, select, value_or,
}
use codex_mcp_ui.Common.{last_after, last_after-select, select-cons}
use codex_mcp_ui.Event.{EventRecord}
use codex_mcp_ui.Projection.Access.{bucket_id}
use codex_mcp_ui.Projection.Parts.{ExecBucket}
use codex_mcp_ui.Projection.Buckets.{empty_exec}
use codex_mcp_ui.Projection.Switch.{Case, case_of}
use codex_mcp_ui.Projection.Dispatch.{is_skipped}

-- What a command's events are.
pub data CommandPart : Type 0 where
  begin output interaction end : CommandPart

abbrev pub part_of : Case → Option CommandPart
part_of Case.exec_begin = some begin
part_of Case.exec_output = some output
part_of Case.exec_interaction = some interaction
part_of Case.exec_end = some end
part_of _ = none

abbrev is_part : CommandPart → Option CommandPart → Bool
is_part begin (some begin) = true
is_part output (some output) = true
is_part interaction (some interaction) = true
is_part end (some end) = true
is_part _ _ = false

-- The events of a command with a bucket id that are such a part of it.
abbrev pub is_command : CommandPart → String → EventRecord → Bool
is_command part id e =
    not (is_skipped e) && (is_part part (part_of (case_of e.event_type)) && bucket_id e == id)

-- A bucket of what there is.
abbrev pub command_met :
    Option EventRecord
    → List EventRecord
    → List EventRecord
    → Option EventRecord
    → Option ExecBucket
command_met none [] [] none = none
command_met b os ts e = some (record { begin = b; outputs = os; interactions = ts; end = e })

pub value_or-command_met :
    (b : Option EventRecord) (os ts : List EventRecord) (e : Option EventRecord)
    → value_or (command_met b os ts e) empty_exec
      ≡ record { begin = b; outputs = os; interactions = ts; end = e }
value_or-command_met none [] [] none = refl
value_or-command_met none [] [] (some x) = refl
value_or-command_met none [] (t ∷ ts) e = refl
value_or-command_met none (o ∷ os) ts e = refl
value_or-command_met (some x) os ts e = refl

-- The tables under an id: what there was, and the parts that an event adds.
pub record Held : Type 0 where
  pub b : Option EventRecord
  pub os : List EventRecord
  pub ts : List EventRecord
  pub e : Option EventRecord

abbrev pub bucket_of : Held → Option ExecBucket
bucket_of h = command_met h.b h.os h.ts h.e

abbrev pub add : EventRecord → Option CommandPart → Held → Held
add event none h = h
add event (some begin) h = record h { b = some event }
add event (some output) h = record h { os = h.os ++ event ∷ [] }
add event (some interaction) h = record h { ts = h.ts ++ event ∷ [] }
add event (some end) h = record h { e = some event }

abbrev pub add_if : Bool → EventRecord → Option CommandPart → Held → Held
add_if c event part h = if c then add event part h else h

-- A bucket with an event in it is there.
pub met_some :
    (event : EventRecord) (part : CommandPart) (b : Option EventRecord) (os ts : List EventRecord)
    (e : Option EventRecord)
    → let h = add event (some part) (record { b = b; os = os; ts = ts; e = e }) in
      some (record { begin = h.b; outputs = h.os; interactions = h.ts; end = h.e }) ≡ bucket_of h
met_some event begin b os ts e = refl
met_some event output (some x) os ts e = refl
met_some event output none [] ts e = refl
met_some event output none (o ∷ os) ts e = refl
met_some event interaction (some x) os ts e = refl
met_some event interaction none (o ∷ os) ts e = refl
met_some event interaction none [] [] e = refl
met_some event interaction none [] (t ∷ ts) e = refl
met_some event end (some x) os ts e = refl
met_some event end none (o ∷ os) ts e = refl
met_some event end none [] (t ∷ ts) e = refl
met_some event end none [] [] e = refl

-- What the loop does for an event, under an id.
unfoldable pub noted : Bool → Bool → EventRecord → Option CommandPart → Held → Held
noted s c event part h = if s then h else add_if c event part h

unfoldable pub note : String → EventRecord → Held → Held
note id event h =
    noted (is_skipped event) (bucket_id event == id) event (part_of (case_of event.event_type)) h

unfoldable pub note_all : String → List EventRecord → Held → Held
note_all id [] h = h
note_all id (e ∷ es) h = note_all id es (note id e h)

noted-b :
    (s c : Bool) (event : EventRecord) (part : Option CommandPart) (h : Held)
    → (noted s c event part h).b ≡ (if not s && (is_part begin part && c) then some event else h.b)
unfolding noted
noted-b s c event none h = ground arith
noted-b s c event (some begin) h = ground arith
noted-b s c event (some output) h = ground arith
noted-b s c event (some interaction) h = ground arith
noted-b s c event (some end) h = ground arith

noted-e :
    (s c : Bool) (event : EventRecord) (part : Option CommandPart) (h : Held)
    → (noted s c event part h).e ≡ (if not s && (is_part end part && c) then some event else h.e)
unfolding noted
noted-e s c event none h = ground arith
noted-e s c event (some begin) h = ground arith
noted-e s c event (some output) h = ground arith
noted-e s c event (some interaction) h = ground arith
noted-e s c event (some end) h = ground arith

noted-os :
    (s c : Bool) (event : EventRecord) (part : Option CommandPart) (h : Held)
    → (noted s c event part h).os
      ≡ (h.os ++ (if not s && (is_part output part && c) then event ∷ [] else []))
unfolding noted
noted-os s c event none h = ground (arith, append-nil h.os)
noted-os s c event (some begin) h = ground (arith, append-nil h.os)
noted-os s c event (some output) h = ground (arith, append-nil h.os)
noted-os s c event (some interaction) h = ground (arith, append-nil h.os)
noted-os s c event (some end) h = ground (arith, append-nil h.os)

noted-ts :
    (s c : Bool) (event : EventRecord) (part : Option CommandPart) (h : Held)
    → (noted s c event part h).ts
      ≡ (h.ts ++ (if not s && (is_part interaction part && c) then event ∷ [] else []))
unfolding noted
noted-ts s c event none h = ground (arith, append-nil h.ts)
noted-ts s c event (some begin) h = ground (arith, append-nil h.ts)
noted-ts s c event (some output) h = ground (arith, append-nil h.ts)
noted-ts s c event (some interaction) h = ground (arith, append-nil h.ts)
noted-ts s c event (some end) h = ground (arith, append-nil h.ts)

pub note_all-b :
    (id : String) (es : List EventRecord) (h : Held)
    → (note_all id es h).b ≡ last_after h.b (select (is_command begin id) es)
unfolding note_all note
note_all-b id [] h = refl
note_all-b id (x ∷ es) h =
    note_all-b id es (note id x h)
    ∙ ap (λ o. last_after o (select (is_command begin id) es)) (noted-b _ _ x _ h)
    ∙ sym (last_after-select (is_command begin id) h.b x es)

pub note_all-e :
    (id : String) (es : List EventRecord) (h : Held)
    → (note_all id es h).e ≡ last_after h.e (select (is_command end id) es)
unfolding note_all note
note_all-e id [] h = refl
note_all-e id (x ∷ es) h =
    note_all-e id es (note id x h)
    ∙ ap (λ o. last_after o (select (is_command end id) es)) (noted-e _ _ x _ h)
    ∙ sym (last_after-select (is_command end id) h.e x es)

pub note_all-os :
    (id : String) (es : List EventRecord) (h : Held)
    → (note_all id es h).os ≡ h.os ++ select (is_command output id) es
unfolding note_all note
note_all-os id [] h = sym (append-nil h.os)
note_all-os id (x ∷ es) h =
    note_all-os id es (note id x h)
    ∙ ap (λ l. l ++ select (is_command output id) es) (noted-os _ _ x _ h)
    ∙ append_assoc h.os _ _
    ∙ ap (λ l. h.os ++ l) (sym (select-cons (is_command output id) x es))

pub note_all-ts :
    (id : String) (es : List EventRecord) (h : Held)
    → (note_all id es h).ts ≡ h.ts ++ select (is_command interaction id) es
unfolding note_all note
note_all-ts id [] h = sym (append-nil h.ts)
note_all-ts id (x ∷ es) h =
    note_all-ts id es (note id x h)
    ∙ ap (λ l. l ++ select (is_command interaction id) es) (noted-ts _ _ x _ h)
    ∙ append_assoc h.ts _ _
    ∙ ap (λ l. h.ts ++ l) (sym (select-cons (is_command interaction id) x es))
