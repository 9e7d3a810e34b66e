-- ===== src/Projection/Dispatch/Kinds.antt =====
-- The ten maps of begin and end events of web/src/lib/assistant-projection.ts: a write to one leaves
-- the others, and so do the branches of the loop that are not about pairs.
use codex_mcp_ui.Common.{
  ℕ, zero, suc, String, ◌≡◌, refl, sym, ap, ◌∙◌, Option, some, List, [], ◌∷◌, nat_eq, arith,
  if◌then◌else◌, get_elem?,
}
use codex_mcp_ui.Common.Table.{Table}
use codex_mcp_ui.Event.{EventRecord}
use codex_mcp_ui.Projection.Parts.{ProjectionItem, ExecBucket, PairBucket, StreamBucket}
use codex_mcp_ui.Projection.Switch.{PairKind}
use codex_mcp_ui.Projection.Dispatch.Default.{default_for-IsOf}
use codex_mcp_ui.Projection.Dispatch.{Projection, pair_buckets, set_pair_buckets, default_for}

-- Kinds are told apart by their place in the declaration.
abbrev pub position : PairKind → ℕ
position PairKind.mcp_tool = 0
position PairKind.web_search = 1
position PairKind.image_generation = 2
position PairKind.patch = 3
position PairKind.dynamic_tool = 4
position PairKind.collab_spawn = 5
position PairKind.collab_interaction = 6
position PairKind.collab_wait = 7
position PairKind.collab_close = 8
position PairKind.collab_resume = 9

fields : Projection → List (Table PairBucket)
fields p =
    p.mcp_tool_buckets ∷ p.web_search_buckets ∷ p.image_generation_buckets ∷ p.patch_buckets
    ∷ p.dynamic_tool_buckets ∷ p.collab_spawn_buckets ∷ p.collab_interaction_buckets
    ∷ p.collab_wait_buckets ∷ p.collab_close_buckets ∷ p.collab_resume_buckets ∷ []

pair_buckets-get_elem? :
    (p : Projection) (kind : PairKind)
    → get_elem? (fields p) (position kind) ≡ some (pair_buckets p kind)
unfolding pair_buckets fields
pair_buckets-get_elem? p PairKind.mcp_tool = refl
pair_buckets-get_elem? p PairKind.web_search = refl
pair_buckets-get_elem? p PairKind.image_generation = refl
pair_buckets-get_elem? p PairKind.patch = refl
pair_buckets-get_elem? p PairKind.dynamic_tool = refl
pair_buckets-get_elem? p PairKind.collab_spawn = refl
pair_buckets-get_elem? p PairKind.collab_interaction = refl
pair_buckets-get_elem? p PairKind.collab_wait = refl
pair_buckets-get_elem? p PairKind.collab_close = refl
pair_buckets-get_elem? p PairKind.collab_resume = refl

some_injective :
    {a b : Table PairBucket} → Path (Option (Table PairBucket)) (some a) (some b) → a ≡ b
some_injective h = cc

pub pair_buckets-position :
    (p : Projection) (k kind : PairKind)
    → position k ≡ position kind
    → pair_buckets p k ≡ pair_buckets p kind
pair_buckets-position p k kind same =
    let found =
      sym (pair_buckets-get_elem? p k)
      ∙ ap (get_elem? (fields p)) same
      ∙ pair_buckets-get_elem? p kind in
    some_injective found

replace {ℓ} : {A : Type ℓ} → List A → ℕ → A → List A
replace [] i a = []
replace (x ∷ xs) zero a = a ∷ xs
replace (x ∷ xs) (suc i) a = x ∷ replace xs i a

fields-set_pair_buckets :
    (p : Projection) (kind : PairKind) (m : Table PairBucket)
    → fields (set_pair_buckets p kind m) ≡ replace (fields p) (position kind) m
unfolding set_pair_buckets fields replace
fields-set_pair_buckets p PairKind.mcp_tool m = refl
fields-set_pair_buckets p PairKind.web_search m = refl
fields-set_pair_buckets p PairKind.image_generation m = refl
fields-set_pair_buckets p PairKind.patch m = refl
fields-set_pair_buckets p PairKind.dynamic_tool m = refl
fields-set_pair_buckets p PairKind.collab_spawn m = refl
fields-set_pair_buckets p PairKind.collab_interaction m = refl
fields-set_pair_buckets p PairKind.collab_wait m = refl
fields-set_pair_buckets p PairKind.collab_close m = refl
fields-set_pair_buckets p PairKind.collab_resume m = refl

get_elem?-replace {ℓ} :
    {A : Type ℓ} (xs : List A) (i j : ℕ) (a x y : A)
    → get_elem? xs i ≡ some x
    → get_elem? xs j ≡ some y
    → get_elem? (replace xs i a) j ≡ some (if nat_eq i j then a else y)
unfolding replace
get_elem?-replace [] i j a x y hi hj = cc
get_elem?-replace (z ∷ zs) zero zero a x y hi hj = refl
get_elem?-replace (z ∷ zs) zero (suc j) a x y hi hj = ground (arith, hj)
get_elem?-replace (z ∷ zs) (suc i) zero a x y hi hj = ground (arith, hj)
get_elem?-replace (z ∷ zs) (suc i) (suc j) a x y hi hj =
    ground (arith, get_elem?-replace zs i j a x y hi hj)

-- Setting the buckets of a kind leaves those of another.
pub pair_buckets-set_pair_buckets_if :
    (p : Projection) (k kind : PairKind) (m : Table PairBucket)
    → pair_buckets (set_pair_buckets p k m) kind
      ≡ (if nat_eq (position k) (position kind) then m else pair_buckets p kind)
pair_buckets-set_pair_buckets_if p k kind m = some_injective (
    sym (pair_buckets-get_elem? (set_pair_buckets p k m) kind)
    ∙ ap (λ fs. get_elem? fs (position kind)) (fields-set_pair_buckets p k m)
    ∙ get_elem?-replace (fields p) (position k) (position kind) m (pair_buckets p k)
        (pair_buckets p kind) (pair_buckets-get_elem? p k) (pair_buckets-get_elem? p kind))

-- The maps of pairs do not change with the other variables.
pub kept :
    (p : Projection) (items : List ProjectionItem) (execs : Table ExecBucket)
    (messages reasonings : Table StreamBucket) (kind : PairKind)
    → pair_buckets
        (record p {
          items = items;
          exec_buckets = execs;
          message_streams = messages;
          reasoning_streams = reasonings;
        })
        kind
      ≡ pair_buckets p kind
unfolding pair_buckets
kept p items execs messages reasonings PairKind.mcp_tool = refl
kept p items execs messages reasonings PairKind.web_search = refl
kept p items execs messages reasonings PairKind.image_generation = refl
kept p items execs messages reasonings PairKind.patch = refl
kept p items execs messages reasonings PairKind.dynamic_tool = refl
kept p items execs messages reasonings PairKind.collab_spawn = refl
kept p items execs messages reasonings PairKind.collab_interaction = refl
kept p items execs messages reasonings PairKind.collab_wait = refl
kept p items execs messages reasonings PairKind.collab_close = refl
kept p items execs messages reasonings PairKind.collab_resume = refl

pub default_for-pair_buckets :
    (p : Projection) (event : EventRecord) (index : ℕ) (kind : PairKind) (o : Option String)
    → pair_buckets (default_for p event index o) kind ≡ pair_buckets p kind
default_for-pair_buckets p event index kind o =
    let (items, same) = default_for-IsOf p event index o in
    ap (λ q. pair_buckets q kind) same ∙ kept p items _ _ _ kind
