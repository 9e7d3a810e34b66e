-- ===== src/Location/Synced.antt =====
-- The hash and the hook's state say the same.
use text.Mathlib.Text.{starts_with}
use text.Mathlib.TextPositions.{starts_with-append, slice-append_right, len-append}
use codex_mcp_ui.Common.{
  String, ◌≡◌, refl, sym, ap, ◌∙◌, true, Bool-cases, inl, inr, Option, none, some, List, [], ◌∷◌,
  truthy, if_both,
}
use mathlib.Core.Path.{subst}
use codex_mcp_ui.Common.Text.{append}
use codex_mcp_ui.Result.{Result, Thrown, ok, throw}
use codex_mcp_ui.Location.{
  prefix, UriCoding, IsUriCoding, nonempty_or_null, read_value, read_hash, HashState,
  on_hash_change, written_hash, set_thread, HashAction, hash_step, hash_run, first_render, rendered,
  changed_to,
}

-- Reading the hash gives the thread of the state; the empty text counts as none.
abbrev pub IsSynced : UriCoding → HashState → Type 0
IsSynced coding s = read_hash coding s.hash ≡ ok (nonempty_or_null s.value)

-- The hash that is entered can be read.
abbrev pub IsReadable : UriCoding → HashAction → Type 0
IsReadable coding (HashAction.visit hash) =
    (value : Option String) × (read_hash coding hash ≡ ok value)
IsReadable coding _ = Unit

abbrev pub AllReadable : UriCoding → List HashAction → Type 0
AllReadable coding [] = Unit
AllReadable coding (a ∷ actions) = IsReadable coding a × AllReadable coding actions

-- Behind the prefix stands what is decoded.
read_hash-append :
    (coding : UriCoding) (rest : String)
    → read_hash coding (append prefix rest) ≡ read_value (coding.decode rest)
unfolding read_hash
read_hash-append coding rest =
    rw (starts_with-append prefix rest, len-append prefix rest, slice-append_right prefix rest) refl

read-written :
    (coding : UriCoding) (next : Option String)
    → IsUriCoding coding
    → read_hash coding (written_hash coding next) ≡ ok (nonempty_or_null next)
unfolding read_hash
read-written coding none c = refl
read-written coding (some t) c = elim (Bool-cases (truthy t)) [
  | inl there ↦ rw there (read_hash-append coding (coding.encode t) ∙ rw (c t, there) refl)
  | inr blank ↦ rw blank refl
]

nonempty_twice : (o : Option String) → nonempty_or_null (nonempty_or_null o) ≡ nonempty_or_null o
nonempty_twice none = refl
nonempty_twice (some t) = elim (Bool-cases (truthy t)) [
  | inl there ↦ rw (there, there) refl
  | inr blank ↦ rw blank refl
]

-- What is read is no empty text.
abbrev IsClean : Result (Option String) → Type 0
IsClean (ok value) = nonempty_or_null value ≡ value
IsClean (throw e) = Unit

read_value-IsClean : (r : Result String) → IsClean (read_value r)
read_value-IsClean (ok value) = nonempty_twice (some value)
read_value-IsClean (throw e) = tt

read_hash-IsClean : (coding : UriCoding) (hash : String) → IsClean (read_hash coding hash)
unfolding read_hash
read_hash-IsClean coding hash =
    if_both IsClean (starts_with hash prefix) (read_value-IsClean _) refl

-- A `hashchange` after which the hash can be read.
on_hash_change-IsSynced :
    (coding : UriCoding) (s : HashState) (value : Option String)
    → read_hash coding s.hash ≡ ok value
    → IsSynced coding (on_hash_change coding s)
unfolding on_hash_change
on_hash_change-IsSynced coding s value read =
    let clean : nonempty_or_null value ≡ value =
      subst IsClean read (read_hash-IsClean coding s.hash) in
    subst (λ r. IsSynced coding (changed_to s r)) (sym read) (read ∙ ap ok (sym clean))

step-IsSynced :
    (coding : UriCoding) (s : HashState) (a : HashAction)
    → IsUriCoding coding
    → IsSynced coding s
    → IsReadable coding a
    → IsSynced coding (hash_step coding s a)
unfolding hash_step set_thread
step-IsSynced coding s (HashAction.set next) c h r = read-written coding next c
step-IsSynced coding s HashAction.changed c h r = on_hash_change-IsSynced coding s _ h
step-IsSynced coding s (HashAction.visit hash) c h r =
    on_hash_change-IsSynced coding (record s { hash = hash }) r.0 r.1

-- If encoded texts decode, and every hash that the user enters can be read, then the hash and the
-- state agree after any calls of the setter and events of the browser, in any order.
pub hash_run-IsSynced :
    (coding : UriCoding) (s : HashState) (actions : List HashAction)
    → IsUriCoding coding
    → IsSynced coding s
    → AllReadable coding actions
    → IsSynced coding (hash_run coding s actions)
unfolding hash_run
hash_run-IsSynced coding s [] c h r = h
hash_run-IsSynced coding s (a ∷ actions) c h r =
    hash_run-IsSynced coding (hash_step coding s a) actions c (step-IsSynced coding s a c h r.0) r.1

-- If encoded texts decode, then a page that is opened at the hash that the setter wrote for a
-- nonempty thread id starts with that thread.
pub first_render-set_thread :
    (coding : UriCoding) (s : HashState) (t : String)
    → IsUriCoding coding
    → truthy t ≡ true
    → first_render coding (set_thread coding s (some t)).hash ≡ ok (set_thread coding s (some t))
unfolding first_render set_thread
first_render-set_thread coding s t c given =
    ap (rendered (written_hash coding (some t))) (read-written coding (some t) c) ∙ rw given refl

-- Where the hash has the prefix and its rest does not decode, the first render throws what the
-- decoding does.
pub first_render_throws :
    (coding : UriCoding) (rest : String) (e : Thrown)
    → coding.decode rest ≡ throw e
    → first_render coding (append prefix rest) ≡ throw e
unfolding first_render
first_render_throws coding rest e bad =
    ap (rendered (append prefix rest)) (read_hash-append coding rest ∙ ap read_value bad)
