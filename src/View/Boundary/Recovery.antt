-- ===== src/View/Boundary/Recovery.antt =====
-- How the page of web/src/App.tsx stops, and when it recovers.
use mathlib.Core.Logic.{◌↔◌}
use codex_mcp_ui.Common.{
  String, Option, none, some, List, [], ◌∷◌, ◌++◌, map, ◌≡◌, refl, sym, ap, ◌∙◌, Option-cases, inl,
  inr,
}
use codex_mcp_ui.Markup.{Node, clicks, clicks_in, nodes}
use codex_mcp_ui.Result.{Result, ok, throw}
use codex_mcp_ui.Location.{UriCoding, read_hash, first_render, rendered}
use codex_mcp_ui.View.Boundary.{
  Workbench, AppState, AppAction, visit, select, arrive, retry, mount, mounted, step_from, app_step,
  app_run, app, error_boundary,
}

-- What happens while the page is stopped, short of a retry.
pub data Wait (D : Type 0) : Type 0 where
  visits : String → Wait D
  selects : String → Wait D
  arrives : D → Wait D

module _ {D : Type 0} where
  abbrev pub wait_action : Wait D → AppAction D
  wait_action (visits hash) = visit hash
  wait_action (selects t) = select t
  wait_action (arrives content) = arrive content

  -- The hash that was entered last, and the data that arrived last.
  abbrev pub last_hash : String → List (Wait D) → String
  last_hash location [] = location
  last_hash location (visits hash ∷ ws) = last_hash hash ws
  last_hash location (_ ∷ ws) = last_hash location ws

  abbrev pub last_data : D → List (Wait D) → D
  last_data content [] = content
  last_data content (arrives new ∷ ws) = last_data new ws
  last_data content (_ ∷ ws) = last_data content ws

module _ {D : Type 0} (w : Workbench D) (coding : UriCoding) where
  -- The workbench renders when it is mounted at a hash.
  abbrev pub Renders : String → D → Type 0
  Renders location content =
      (thread_id : Option String) × (read_hash coding location ≡ ok thread_id)
      × (w.render thread_id (w.remount content) ≡ none)

  mounted-Renders :
      (location : String) (content : D) (r : Result (Option String))
      → ((mounted w location content (rendered location r)).error ≡ none)
        ↔ ((thread_id : Option String) × (r ≡ ok thread_id) × (w.render thread_id content ≡ none))
  mounted-Renders location content (ok t) = elim (Option-cases (w.render t content)) [
    | inl fine ↦ rw fine (λ h. (t, refl, fine), λ h. refl)
    | inr (e, thrown) ↦ rw thrown (λ h. cc, λ (u, same, fine). cc)
  ]
  mounted-Renders location content (throw e) = (λ h. cc, λ (u, same, fine). cc)

  mount-Renders :
      (location : String) (content : D)
      → ((mount w coding location content).error ≡ none) ↔ Renders location content
  unfolding mount first_render
  mount-Renders location content =
      mounted-Renders location (w.remount content) (read_hash coding location)

  abbrev waited : AppState D → List (Wait D) → AppState D
  waited s ws = record s { location = last_hash s.location ws; content = last_data s.content ws }

  first_wait :
      (s : AppState D) (message : String) (a : Wait D) (ws : List (Wait D))
      → s.error ≡ some message
      → app_run w coding s (map wait_action (a ∷ ws))
        ≡ app_run w coding (waited s (a ∷ [])) (map wait_action ws)
  unfolding app_run app_step
  first_wait s message a ws h = ap (from a) h ∙ same a
    where
      from : Wait D → Option String → AppState D
      from a o = app_run w coding (step_from w coding o s (wait_action a)) (map wait_action ws)

      same :
          (a : Wait D)
          → from a (some message) ≡ app_run w coding (waited s (a ∷ [])) (map wait_action ws)
      same (visits hash) = refl
      same (selects t) = refl
      same (arrives c) = refl

  stopped_run :
      (s : AppState D) (message : String) (ws : List (Wait D))
      → s.error ≡ some message
      → app_run w coding s (map wait_action ws) ≡ waited s ws
  unfolding app_run
  stopped_run s message [] h = refl
  stopped_run s message (visits hash ∷ ws) h =
      first_wait s message (visits hash) ws h
      ∙ stopped_run (record s { location = hash }) message ws h
  stopped_run s message (selects t ∷ ws) h =
      first_wait s message (selects t) ws h ∙ stopped_run s message ws h
  stopped_run s message (arrives c ∷ ws) h =
      first_wait s message (arrives c) ws h ∙ stopped_run (record s { content = c }) message ws h

  app_run-append :
      (s : AppState D) (actions more : List (AppAction D))
      → app_run w coding s (actions ++ more) ≡ app_run w coding (app_run w coding s actions) more
  unfolding app_run
  app_run-append s [] more = refl
  app_run-append s (a ∷ actions) more = app_run-append (app_step w coding s a) actions more

  retried :
      (s : AppState D) (message : String) (ws : List (Wait D))
      → s.error ≡ some message
      → app_run w coding s (map wait_action ws ++ retry ∷ [])
        ≡ mount w coding (last_hash s.location ws) (last_data s.content ws)
  unfolding app_run app_step
  retried s message ws h =
      app_run-append s (map wait_action ws) (retry ∷ [])
      ∙ ap (λ (a : AppState D). app_step w coding a retry) (stopped_run s message ws h)
      ∙ ap (λ o. step_from w coding o (waited s ws) retry) h

  -- In a page whose render threw, whatever hashes the user enters and whatever results arrive, nothing
  -- can be clicked but the retry. After it, the page is what it is when it opens at the hash that was
  -- entered last with the data that arrived last, and it shows the workbench if and only if that
  -- hash can be read and the render of the thread it names, with that data and the state of the
  -- hooks started over, throws nothing: a render that still throws, for whatever reason, stops the
  -- page again.
  pub app_run-retry :
      (s : AppState D) (message : String) (ws : List (Wait D))
      (workbench : List (Node (AppAction D)))
      → s.error ≡ some message
      → (clicks_in (nodes (app (app_run w coding s (map wait_action ws)) workbench)) ≡ retry ∷ [])
        × (app_run w coding s (map wait_action ws ++ retry ∷ [])
            ≡ mount w coding (last_hash s.location ws) (last_data s.content ws))
        × (((app_run w coding s (map wait_action ws ++ retry ∷ [])).error ≡ none)
            ↔ Renders (last_hash s.location ws) (last_data s.content ws))
  unfolding app error_boundary clicks
  app_run-retry s message ws workbench h =
      let (to, from) = mount-Renders (last_hash s.location ws) (last_data s.content ws) in
      let again = ap (λ (a : AppState D). a.error) (retried s message ws h) in
      (
        ap (λ (a : AppState D). clicks_in (nodes (app a workbench))) (stopped_run s message ws h)
            ∙ ap (λ o. clicks_in (nodes (error_boundary retry o workbench))) h,
        retried s message ws h,
        (λ shown. to (sym again ∙ shown), λ fine. again ∙ from fine),
      )
