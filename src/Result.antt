-- ===== src/Result.antt =====
-- Results of calls that may throw, and the value that is thrown.
use codex_mcp_ui.Common.{String}

-- An `Error` with its message, or another value with the text that `String` makes of it.
pub data Thrown : Type 0 where
  error : String → Thrown
  other : String → Thrown

pub data Result {ℓ} (A : Type ℓ) : Type ℓ where
  ok : A → Result A
  throw : Thrown → Result A

-- The message of `toError(error)` in web/src/lib/session-history.ts.
unfoldable pub to_error : Thrown → String
to_error (error message) = message
to_error (other text) = text
