-- ===== src/View/Live/Fingerprint.antt =====
-- The key of the query for the sessions in
-- web/src/components/workbench/session-workbench.tsx: it tells the lists of source keys apart. The
-- hub makes a source key of the client's name, the text of its process id and a hash, with bars
-- between them (DeriveClientSourceKey in internal/proxy/client_source.go).
use Prim.Native.Char.{Char, code}
use Prim.Native.String.append as append_laws
use text.Mathlib.TextLemmas.{append_assoc}
use codex_mcp_ui.Common.{
  String, ◌≡◌, ◌≢◌, refl, sym, ap, ◌∙◌, false, List, [], ◌∷◌, map, nat_eq, All, if◌then◌else◌,
  arith,
}
use codex_mcp_ui.Common.Text.{append, join}
use codex_mcp_ui.Event.{ClientSource}
use codex_mcp_ui.View.Live.{source_keys_fingerprint}

-- A text with no bar.
abbrev pub IsPlain : String → Type 0
IsPlain String.[] = Unit
IsPlain (String.◌∷◌ c s) = (code c ≢ 0x7c) × IsPlain s

abbrev pub barred : String → String → String → String
barred name pid hash = append name (append "|" (append pid (append "|" hash)))

pub record IsSourceKey (key : String) : Type 0 where
  pub name : String
  pub pid : String
  pub hash : String
  pub plain : IsPlain name × IsPlain pid × IsPlain hash
  pub whole : key ≡ barred name pid hash

with_first : Char → List String → List String
with_first c [] = []
with_first c (p ∷ ps) = String.◌∷◌ c p ∷ ps

-- The pieces between the bars.
pieces : String → List String
pieces String.[] = "" ∷ []
pieces (String.◌∷◌ c s) =
    let rest = pieces s in if nat_eq (code c) 0x7c then "" ∷ rest else with_first c rest

pieces-bar : (rest : String) → pieces (append "|" rest) ≡ "" ∷ pieces rest
unfolding pieces
pieces-bar rest =
    ap pieces (append_laws.cons "|" "" rest)
    ∙ ap (λ s. pieces (String.◌∷◌ "|" s)) (append_laws.nil rest)

pieces-cons :
    (c : Char) (s : String) → code c ≢ 0x7c → pieces (String.◌∷◌ c s) ≡ with_first c (pieces s)
unfolding pieces
pieces-cons c s ne =
    let other : nat_eq (code c) 0x7c ≡ false = ground arith in
    ap (λ b. if b then "" ∷ pieces s else with_first c (pieces s)) other

pieces-append :
    (s rest : String) → IsPlain s → pieces (append s (append "|" rest)) ≡ s ∷ pieces rest
unfolding pieces with_first
pieces-append String.[] rest h = ap pieces (append_laws.nil (append "|" rest)) ∙ pieces-bar rest
pieces-append (String.◌∷◌ c s) rest (ne, h) =
    ap pieces (append_laws.cons c s (append "|" rest))
    ∙ pieces-cons c (append s (append "|" rest)) ne
    ∙ ap (with_first c) (pieces-append s rest h)

pieces-plain : (s : String) → IsPlain s → pieces s ≡ s ∷ []
unfolding pieces with_first
pieces-plain String.[] h = refl
pieces-plain (String.◌∷◌ c s) (ne, h) = pieces-cons c s ne ∙ ap (with_first c) (pieces-plain s h)

-- Three pieces make a key.
rejoin : List String → List String
rejoin (name ∷ pid ∷ hash ∷ rest) = barred name pid hash ∷ rejoin rest
rejoin _ = []

-- A key, and what stands behind a bar after it.
pieces-key :
    (name pid hash rest : String)
    → IsPlain name
    → IsPlain pid
    → IsPlain hash
    → pieces (append (barred name pid hash) (append "|" rest)) ≡ name ∷ pid ∷ hash ∷ pieces rest
pieces-key name pid hash rest n p h =
    ap pieces (
      append_assoc name _ _
      ∙ ap (append name) (
          append_assoc "|" _ _
          ∙ ap (append "|") (append_assoc pid _ _ ∙ ap (append pid) (append_assoc "|" _ _))))
    ∙ pieces-append name _ n
    ∙ ap (λ l. name ∷ l) (pieces-append pid _ p ∙ ap (λ l. pid ∷ l) (pieces-append hash rest h))

pieces-last :
    (name pid hash : String)
    → IsPlain name
    → IsPlain pid
    → IsPlain hash
    → pieces (barred name pid hash) ≡ name ∷ pid ∷ hash ∷ []
pieces-last name pid hash n p h =
    pieces-append name _ n
    ∙ ap (λ l. name ∷ l) (pieces-append pid hash p ∙ ap (λ l. pid ∷ l) (pieces-plain hash h))

rejoin-pieces : (keys : List String) → All IsSourceKey keys → rejoin (pieces (join keys "|")) ≡ keys
unfolding rejoin join
rejoin-pieces [] h = pieces_empty
  where
    pieces_empty : rejoin (pieces "") ≡ []
    pieces_empty = ap rejoin (pieces-plain "" tt)
rejoin-pieces (key ∷ []) (k, h) =
    let (n, p, l) = k.plain in
    ap (λ s. rejoin (pieces s)) k.whole
    ∙ ap rejoin (pieces-last k.name k.pid k.hash n p l)
    ∙ ap (λ s. s ∷ []) (sym k.whole)
rejoin-pieces (key ∷ next ∷ keys) (k, h) =
    let (n, p, l) = k.plain in
    let rest = join (next ∷ keys) "|" in
    ap (λ s. rejoin (pieces (append s (append "|" rest)))) k.whole
    ∙ ap rejoin (pieces-key k.name k.pid k.hash rest n p l)
    ∙ ap (λ s. s ∷ rejoin (pieces rest)) (sym k.whole)
    ∙ ap (λ l. key ∷ l) (rejoin-pieces (next ∷ keys) h)

abbrev pub source_keys : List ClientSource → List String
source_keys = map (λ (source : ClientSource). source.source_key)

-- If the client names have no bar in them, then the query's key tells any two lists of source keys
-- apart, also lists of different lengths.
pub source_keys_fingerprint-injective :
    (sources others : List ClientSource)
    → All IsSourceKey (source_keys sources)
    → All IsSourceKey (source_keys others)
    → source_keys_fingerprint sources ≡ source_keys_fingerprint others
    → source_keys sources ≡ source_keys others
unfolding source_keys_fingerprint
source_keys_fingerprint-injective sources others h k same =
    sym (rejoin-pieces (source_keys sources) h)
    ∙ ap (λ s. rejoin (pieces s)) same
    ∙ rejoin-pieces (source_keys others) k
