-- ===== src/Stream/Query.antt =====
-- What the server finds in the URL of a subscription of web/src/lib/sse.ts.
use codex_mcp_ui.Common.{
  String, ◌≡◌, refl, ◌∙◌, Bool, true, false, Option, none, some, [], truthy, if◌then◌else◌, if_both,
  ◌==◌, ◌or_else◌, eq_iff, Bool-cases, inl, inr,
}
use mathlib.Core.Path.{subst}
use codex_mcp_ui.Common.Table.{Table, get, get-set}
use codex_mcp_ui.Stream.{StreamOptions, set_given, stream_query}

-- What is given: a text that is not empty.
abbrev pub given : Option String → Option String
given none = none
given (some value) = if truthy value then some value else none

get-set_given :
    (qs : Table String) (key k : String) (o : Option String)
    → get (set_given qs key o) k ≡ (if key == k then given o or_else get qs k else get qs k)
get-set_given qs key k none = if_both (λ r. get qs k ≡ r) (key == k) refl refl
get-set_given qs key k (some value) = elim (Bool-cases (truthy value)) [
  | inl there ↦ rw there (get-set qs key k value)
  | inr blank ↦ rw blank (if_both (λ r. get qs k ≡ r) (key == k) refl refl)
]

or_none : (o : Option String) → (o or_else none) ≡ o
or_none none = refl
or_none (some value) = refl

-- The three writes, read at one key.
get-stream_query_or :
    (opts : StreamOptions) (k : String)
    → get (stream_query opts) k ≡ (
        let named = if "source_key" == k then given opts.source_key or_else none else none in
        let threaded = if "thread_id" == k then given opts.thread_id or_else named else named in
        if "since" == k then given opts.since or_else threaded else threaded)
unfolding stream_query get
get-stream_query_or opts k =
    rw
      (
        get-set_given
            (set_given (set_given [] "source_key" opts.source_key) "thread_id" opts.thread_id)
            "since" k opts.since,
        get-set_given (set_given [] "source_key" opts.source_key) "thread_id" k opts.thread_id,
        get-set_given [] "source_key" k opts.source_key,
      )
      refl

excluded : (a b k : String) → (b == a) ≡ false → (a == k) ≡ true → (b == k) ≡ false
excluded a b k apart same = subst (λ l. (b == l) ≡ false) ((eq_iff a k).0 same) apart

-- Of three tests at most one is true.
one_of :
    (a b c : Bool) (x y z : Option String)
    → (a ≡ true → b ≡ false)
    → (a ≡ true → c ≡ false)
    → (b ≡ true → c ≡ false)
    → (let named = if c then z or_else none else none in
        let threaded = if b then y or_else named else named in
        if a then x or_else threaded else threaded)
      ≡ (if a then x else if b then y else if c then z else none)
one_of true true c x y z p q r = let e = p refl in cc
one_of true false true x y z p q r = let e = q refl in cc
one_of true false false x y z p q r = or_none x
one_of false true true x y z p q r = let e = r refl in cc
one_of false true false x y z p q r = or_none y
one_of false false true x y z p q r = or_none z
one_of false false false x y z p q r = refl

-- The server finds each option in the URL's query under its name exactly if it is given and not
-- empty, and nothing under another name.
pub get-stream_query :
    (opts : StreamOptions) (k : String)
    → get (stream_query opts) k ≡ (
        if "since" == k
        then given opts.since
        else if "thread_id" == k
        then given opts.thread_id
        else if "source_key" == k
        then given opts.source_key
        else none)
get-stream_query opts k =
    get-stream_query_or opts k
    ∙ one_of ("since" == k) ("thread_id" == k) ("source_key" == k) (given opts.since)
        (given opts.thread_id) (given opts.source_key) (excluded "since" "thread_id" k refl)
        (excluded "since" "source_key" k refl) (excluded "thread_id" "source_key" k refl)
