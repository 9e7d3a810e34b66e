-- ===== src/View/Boundary.antt =====
-- web/src/components/error-boundary.tsx and web/src/App.tsx: the page stops where a render throws,
-- and starts again on a retry. What is thrown is an `Error`, known by its message. What the render of
-- the workbench throws, for the thread and for all else that it reads, is a parameter.
pub mod Recovery
use codex_mcp_ui.Common.{String, Option, none, some, List, [], ◌∷◌}
use codex_mcp_ui.Markup.{Attribute, Node, el, text, does}
use codex_mcp_ui.Result.{Result, Thrown, ok, throw, to_error}
use codex_mcp_ui.Location.{UriCoding, HashState, first_render, on_hash_change, set_thread}

-- `this.state.error`, after the children's render: `getDerivedStateFromError` keeps what they throw.
abbrev pub caught : {S : Type 0} → Result S → Option String
caught (ok s) = none
caught (throw e) = some (to_error e)

-- `render`, for the children that are or_stopped where there is no error.
unfoldable pub error_boundary : {A : Type 0} → A → Option String → List (Node A) → List (Node A)
error_boundary reset none children = children
error_boundary reset (some message) children =
    el "div" (("role", text "alert") ∷ []) (
      el "div" [] (
        el "h1" [] (text "Dashboard stopped rendering" ∷ [])
        ∷ el "p" [] (
            text
              "An unexpected error occurred. The hub may still be running — open the browser console for details or retry."
            ∷ [])
        ∷ el "pre" [] (text message ∷ [])
        ∷ el "button" (("type", text "button") ∷ ("onClick", does reset) ∷ []) (text "Retry" ∷ [])
        ∷ [])
      ∷ [])
    ∷ []

-- The workbench's render, for the thread id of its hook and for what else it reads: the results of
-- the queries and the state of its hooks. `render` is what it throws, if it does; `remount` is what
-- it reads once it is mounted anew, where the state of the hooks starts over.
pub record Workbench (D : Type 0) : Type 0 where
  pub render : Option String → D → Option Thrown
  pub remount : D → D

-- The location's hash, the error of the boundary, the state of the thread id's hook while the
-- workbench is mounted, and what else there is to render.
pub record AppState (D : Type 0) : Type 0 where
  pub location : String
  pub error : Option String
  pub thread_id : Option String
  pub content : D

-- The user enters a hash, selects a thread in the workbench, or retries; or something else changes,
-- such as the result of a query.
pub data AppAction (D : Type 0) : Type 0 where
  visit : String → AppAction D
  select : String → AppAction D
  arrive : D → AppAction D
  retry : AppAction D

module _ {D : Type 0} where
  -- The boundary shows the error and unmounts the workbench.
  abbrev pub stopped : String → D → Thrown → AppState D
  stopped location content e = record {
    location = location;
    error = some (to_error e);
    thread_id = none;
    content = content;
  }

  abbrev or_stopped : HashState → D → Option Thrown → AppState D
  or_stopped s content none = record {
    location = s.hash;
    error = none;
    thread_id = s.value;
    content = content;
  }
  or_stopped s content (some e) = stopped s.hash content e

  -- A render of the mounted workbench.
  abbrev pub drawn : Workbench D → HashState → D → AppState D
  drawn w s content = or_stopped s content (w.render s.value content)

  -- The first render begins with the hook, which reads the hash.
  abbrev pub mounted : Workbench D → String → D → Result HashState → AppState D
  mounted w location content (ok s) = drawn w s content
  mounted w location content (throw e) = stopped location content e

  -- The workbench is mounted, as when the page opens and after `reset`.
  unfoldable pub mount : Workbench D → UriCoding → String → D → AppState D
  mount w coding location content =
      mounted w location (w.remount content) (first_render coding location)

  -- While the boundary shows an error, the workbench is not mounted: no listener hears of a new hash,
  -- there is nothing to select, and nothing is or_stopped but the error. Otherwise every change
  -- renders the workbench.
  abbrev pub step_from :
      Workbench D → UriCoding → Option String → AppState D → AppAction D → AppState D
  step_from w coding (some message) s (visit hash) = record s { location = hash }
  step_from w coding (some message) s (select t) = s
  step_from w coding (some message) s (arrive content) = record s { content = content }
  step_from w coding (some message) s retry = mount w coding s.location s.content
  step_from w coding none s (visit hash) =
      drawn w (on_hash_change coding (record { hash = hash; value = s.thread_id })) s.content
  step_from w coding none s (select t) =
      drawn w (set_thread coding (record { hash = s.location; value = s.thread_id }) (some t))
        s.content
  step_from w coding none s (arrive content) =
      drawn w (record { hash = s.location; value = s.thread_id }) content
  step_from w coding none s retry = s

  unfoldable pub app_step : Workbench D → UriCoding → AppState D → AppAction D → AppState D
  app_step w coding s a = step_from w coding s.error s a

  unfoldable pub app_run : Workbench D → UriCoding → AppState D → List (AppAction D) → AppState D
  app_run w coding s [] = s
  app_run w coding s (a ∷ actions) = app_run w coding (app_step w coding s a) actions

  -- The page, for what the workbench renders.
  unfoldable pub app : AppState D → List (Node (AppAction D)) → List (Node (AppAction D))
  app s workbench = error_boundary retry s.error workbench
