-- ===== src/Location.antt =====
-- web/src/lib/use-hash-thread-id.ts: the selected thread in the location's hash.
pub mod Synced
mod Tests
use Prim.Native.String.{len, slice}
use text.Mathlib.Text.{starts_with}
use codex_mcp_ui.Common.{
  String, Bool, true, false, Option, none, some, List, [], ◌∷◌, truthy, if◌then◌else◌,
}
use codex_mcp_ui.Common.Text.{append}
use codex_mcp_ui.Result.{Result, ok, throw}

abbrev pub prefix : String
prefix = "#thread="

-- `encodeURIComponent` and `decodeURIComponent`, of which the second may throw.
pub record UriCoding : Type 0 where
  pub encode : String → String
  pub decode : String → Result String

-- What is encoded reads back.
abbrev pub IsUriCoding : UriCoding → Type 0
IsUriCoding coding = (t : String) → Path (Result String) (coding.decode (coding.encode t)) (ok t)

-- `value || null`.
abbrev pub nonempty_or_null : Option String → Option String
nonempty_or_null none = none
nonempty_or_null (some t) = if truthy t then some t else none

abbrev pub read_value : Result String → Result (Option String)
read_value (ok value) = ok (nonempty_or_null (some value))
read_value (throw e) = throw e

unfoldable pub read_hash : UriCoding → String → Result (Option String)
read_hash coding raw =
    if starts_with raw prefix
    then read_value (coding.decode (slice raw (len prefix) (len raw)))
    else ok none

-- The location's hash, and the hook's state.
pub record HashState : Type 0 where
  pub hash : String
  pub value : Option String

abbrev pub rendered : String → Result (Option String) → Result HashState
rendered hash (ok value) = ok (record { hash = hash; value = value })
rendered hash (throw e) = throw e

-- The first render; it throws where reading the hash does.
unfoldable pub first_render : UriCoding → String → Result HashState
first_render coding hash = rendered hash (read_hash coding hash)

-- The listener of `hashchange`; an error in it leaves the state as it is.
abbrev pub changed_to : HashState → Result (Option String) → HashState
changed_to s (ok value) = record s { value = value }
changed_to s (throw e) = s

unfoldable pub on_hash_change : UriCoding → HashState → HashState
on_hash_change coding s = changed_to s (read_hash coding s.hash)

-- `replaceState` to the path and the query takes the hash away.
abbrev pub written_hash : UriCoding → Option String → String
written_hash coding none = ""
written_hash coding (some next) = if truthy next then append prefix (coding.encode next) else ""

unfoldable pub set_thread : UriCoding → HashState → Option String → HashState
set_thread coding s next = record { hash = written_hash coding next; value = next }

-- A call of the setter, an event of the browser, and a hash that the user enters with its event.
pub data HashAction : Type 0 where
  set : Option String → HashAction
  changed : HashAction
  visit : String → HashAction

unfoldable pub hash_step : UriCoding → HashState → HashAction → HashState
hash_step coding s (set next) = set_thread coding s next
hash_step coding s changed = on_hash_change coding s
hash_step coding s (visit hash) = on_hash_change coding (record s { hash = hash })

unfoldable pub hash_run : UriCoding → HashState → List HashAction → HashState
hash_run coding s [] = s
hash_run coding s (a ∷ actions) = hash_run coding (hash_step coding s a) actions
