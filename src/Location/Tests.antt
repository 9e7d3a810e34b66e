-- ===== src/Location/Tests.antt =====
-- A location, and the instances of the theorems at it.
use codex_mcp_ui.Common.{◌≡◌, refl, none, some, List, [], ◌∷◌, ◌==◌, if◌then◌else◌}
use codex_mcp_ui.Common.Text.{append}
use codex_mcp_ui.Result.{Thrown, ok, throw}
use codex_mcp_ui.Location.{
  prefix, UriCoding, IsUriCoding, HashState, HashAction, read_hash, hash_run, first_render,
}
use codex_mcp_ui.Location.Synced.{IsSynced, AllReadable, hash_run-IsSynced, first_render_throws}

-- A coding that leaves texts as they are.
abbrev plain : UriCoding
plain = record { encode = λ t. t; decode = ok }

plain-IsUriCoding : IsUriCoding plain
plain-IsUriCoding t = refl

abbrev blank : HashState
blank = record { hash = ""; value = none }

blank-IsSynced : IsSynced plain blank
unfolding read_hash
blank-IsSynced = refl

abbrev visited : List HashAction
visited =
    HashAction.set (some "t1")
    ∷ HashAction.visit "#thread=t2"
    ∷ HashAction.changed
    ∷ HashAction.set none
    ∷ []

visited-AllReadable : AllReadable plain visited
unfolding read_hash
visited-AllReadable = (tt, ((some "t2", refl), (tt, (tt, tt))))

hash_run-IsSynced_example : IsSynced plain (hash_run plain blank visited)
hash_run-IsSynced_example =
    hash_run-IsSynced plain blank visited plain-IsUriCoding blank-IsSynced visited-AllReadable

-- A coding that refuses a lone percent sign.
abbrev strict : UriCoding
strict = record {
  encode = λ t. t;
  decode = λ t. if t == "%" then throw (Thrown.error "URI malformed") else ok t;
}

malformed-first_render :
    first_render strict (append prefix "%") ≡ throw (Thrown.error "URI malformed")
malformed-first_render = first_render_throws strict "%" (Thrown.error "URI malformed") refl
