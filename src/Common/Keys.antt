-- ===== src/Common/Keys.antt =====
-- The keys of a JavaScript `Map`, in order of insertion.
use Prim.Native.String.{String}
use mathlib.Core.Path.{◌≡◌, refl, sym, ap, ◌∙◌}
use mathlib.Core.Logic.{◌≢◌, inl, inr}
use mathlib.Core.Bool.{false}
use mathlib.Core.Option.{Option, some}
use mathlib.Core.List.{List, [], ◌∷◌, ◌++◌, map, flatten}
use native.Mathlib.Omega.{arith}
use text.Mathlib.Text.{◌==◌}
use text.Mathlib.TextEquality.{eq_iff}
use text.Mathlib.TextPositions.{eq_refl}
use codex_mcp_ui.Common.Tests.{if◌then◌else◌, Bool-cases}
use codex_mcp_ui.Common.Lists.{All, All-append, Distinct, any}
use codex_mcp_ui.Common.Table.{Table, get, set, keys}

abbrev pub add_key : List String → String → List String
add_key ks k = if any (λ j. j == k) ks then ks else ks ++ k ∷ []

-- The texts behind those there were, each where it came first.
abbrev pub firsts_after : List String → List String → List String
firsts_after ks [] = ks
firsts_after ks (x ∷ xs) = firsts_after (add_key ks x) xs

-- A list without the texts that came before.
abbrev pub firsts : List String → List String
firsts xs = firsts_after [] xs

pub keys-set {ℓ} :
    {V : Type ℓ} (m : Table V) (k : String) (v : V) → keys (set m k v) ≡ add_key (keys m) k
unfolding set
keys-set [] k v = refl
keys-set ((j, w) ∷ m) k v = elim (Bool-cases (j == k)) [
  | inl here ↦ rw here refl
  | inr there ↦ elim (Bool-cases (any (λ i. i == k) (keys m))) [
    | inl found ↦ rw (there, keys-set m k v, found) refl
    | inr new ↦ rw (there, keys-set m k v, new) refl
  ]
]

absent : (ks : List String) (k : String) → any (λ j. j == k) ks ≡ false → All (λ j. j ≢ k) ks
absent [] k h = tt
absent (j ∷ ks) k h = (ground (arith, eq_iff j k), absent ks k (ground arith))

append-Distinct :
    (ks : List String) (k : String) → Distinct ks → All (λ j. j ≢ k) ks → Distinct (ks ++ k ∷ [])
append-Distinct [] k d h = (tt, tt)
append-Distinct (j ∷ ks) k d h =
    (All-append (λ y. j ≢ y) ks (k ∷ []) d.0 (h.0, tt), append-Distinct ks k d.1 h.1)

pub add_key-Distinct : (ks : List String) (k : String) → Distinct ks → Distinct (add_key ks k)
add_key-Distinct ks k d = elim (Bool-cases (any (λ j. j == k) ks)) [
  | inl found ↦ rw found d
  | inr new ↦ rw new (append-Distinct ks k d (absent ks k new))
]

firsts_after-Distinct : (ks xs : List String) → Distinct ks → Distinct (firsts_after ks xs)
firsts_after-Distinct ks [] d = d
firsts_after-Distinct ks (x ∷ xs) d =
    firsts_after-Distinct (add_key ks x) xs (add_key-Distinct ks x d)

pub firsts-Distinct : (xs : List String) → Distinct (firsts xs)
firsts-Distinct xs = firsts_after-Distinct [] xs tt

-- What is made of the entries is made of the keys, by looking them up.
module _ {ℓ κ} {V : Type ℓ} {B : Type κ} (f : String → Option V → List B) where
  lookups-cons :
      (j : String) (v : V) (m : Table V) (ks : List String)
      → All (λ k. j ≢ k) ks
      → flatten (map (λ k. f k (get ((j, v) ∷ m) k)) ks) ≡ flatten (map (λ k. f k (get m k)) ks)
  unfolding get flatten
  lookups-cons j v m [] h = refl
  lookups-cons j v m (k ∷ ks) h = elim (Bool-cases (j == k)) [
    | inl same ↦ absurd (h.0 ((eq_iff j k).0 same))
    | inr other ↦ rw other (ap (λ l. f k (get m k) ++ l) (lookups-cons j v m ks h.1))
  ]

  abbrev pub entries : Table V → List B
  entries [] = []
  entries ((j, v) ∷ m) = f j (some v) ++ entries m

  pub entries-keys :
      (m : Table V) → Distinct (keys m) → entries m ≡ flatten (map (λ k. f k (get m k)) (keys m))
  unfolding get flatten
  entries-keys [] d = refl
  entries-keys ((j, v) ∷ m) d =
      rw (eq_refl j)
        (ap (λ l. f j (some v) ++ l) (entries-keys m d.1 ∙ sym (lookups-cons j v m (keys m) d.0)))
