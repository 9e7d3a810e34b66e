-- ===== src/Runtime/Calls.antt =====
-- Calls on the read-only runtime, over a runtime whose objects change a world.
use codex_mcp_ui.Common.{ℕ, zero, suc, String, Bool, Option, none, some, List, [], ◌∷◌, ◌++◌}
use codex_mcp_ui.Common.Table.{get}
use codex_mcp_ui.Runtime.{Kind, Entry, mutation_error}
use codex_mcp_ui.Runtime.Tables.{readonly}

-- The runtime library: what a property of an object does to the world, what it returns, and
-- whether a composer can begin an edit.
pub record Base (World Object : Type 0) : Type 1 where
  pub invoke : Kind → Object → String → World → World
  pub result : Kind → Object → String → World → Object
  pub has_begin_edit : Object → Bool

-- A wrapper that the caller holds.
pub record Handle (Object : Type 0) : Type 0 where
  pub kind : Kind
  pub object : Object

-- What a use of a property gives: nothing that is wrapped, a wrapper, an error that is thrown or
-- that a promise is rejected with, or `undefined`.
pub data Outcome (Object : Type 0) : Type 0 where
  value : Outcome Object
  handle : Handle Object → Outcome Object
  thrown : String → Outcome Object
  rejected : String → Outcome Object
  missing : Outcome Object

module _ {World Object : Type 0} (base : Base World Object) where
  abbrev pub respond : World → Handle Object → String → Option Entry → World × Outcome Object
  respond w h name none = (w, missing)
  respond w h name (some Entry.copied) = (w, value)
  respond w h name (some Entry.bound) = (base.invoke h.kind h.object name w, value)
  respond w h name (some Entry.adjusted) = (base.invoke h.kind h.object name w, value)
  respond w h name (some Entry.again) = (w, handle h)
  respond w h name (some (Entry.throws operation)) = (w, thrown (mutation_error operation))
  respond w h name (some (Entry.rejects operation)) = (w, rejected (mutation_error operation))
  respond w h name (some (Entry.wraps kind)) = (
    base.invoke h.kind h.object name w,
    handle (record { kind = kind; object = base.result h.kind h.object name w }),
  )

  unfoldable pub use_property : World → Handle Object → String → World × Outcome Object
  use_property w h name =
      respond w h name (get (readonly (base.has_begin_edit h.object) h.kind) name)

  -- A caller holds wrappers, and uses properties of them by their places.
  abbrev pub add_handle : List (Handle Object) → Outcome Object → List (Handle Object)
  add_handle hs (handle h) = hs ++ h ∷ []
  add_handle hs _ = hs

  abbrev pub nth : List (Handle Object) → ℕ → Option (Handle Object)
  nth [] i = none
  nth (h ∷ hs) zero = some h
  nth (h ∷ hs) (suc i) = nth hs i

  abbrev pub add_outcome :
      List (Handle Object) → World × Outcome Object → World × List (Handle Object)
  add_outcome hs (w, outcome) = (w, add_handle hs outcome)

  abbrev pub use_of :
      World → List (Handle Object) → Option (Handle Object) → String → World × List (Handle Object)
  use_of w hs none name = (w, hs)
  use_of w hs (some h) name = add_outcome hs (use_property w h name)

  unfoldable pub use_all :
      World → List (Handle Object) → List (ℕ × String) → World × List (Handle Object)
  use_all w hs [] = (w, hs)
  use_all w hs ((i, name) ∷ uses) =
      let (w', hs') = use_of w hs (nth hs i) name in use_all w' hs' uses
