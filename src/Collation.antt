-- ===== src/Collation.antt =====
-- `String.prototype.localeCompare`, whose order the platform's locale decides: a parameter, with
-- the laws of a comparison.
pub mod CodePoints
use codex_mcp_ui.Common.{String, Ordering}
use codex_mcp_ui.Common.Sort.{IsComparator}

abbrev pub Collation : Type 0
Collation = String → String → Ordering

-- The sign of `localeCompare`: reversed when its arguments are, transitive, and 0 at equal texts
-- (but not only there).
abbrev pub IsCollation : Collation → Type 0
IsCollation locale_compare = IsComparator locale_compare
