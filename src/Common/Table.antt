-- ===== src/Common/Table.antt =====
-- The JavaScript `Map` with text keys: entries in order of insertion; `set` on a present key
-- keeps its place.
use Prim.Native.String.{String}
use mathlib.Core.Path.{◌≡◌, refl, sym, subst}
use mathlib.Core.Logic.{◌≢◌, inl, inr}
use mathlib.Core.Bool.{Bool, false, ◌||◌}
use mathlib.Core.Option.{Option, none, some}
use mathlib.Core.List.{List, [], ◌∷◌, ◌++◌}
use native.Mathlib.Omega.{arith}
use text.Mathlib.Text.{◌==◌}
use text.Mathlib.TextEquality.{eq_iff}
use text.Mathlib.TextPositions.{eq_refl}
use codex_mcp_ui.Common.Tests.{if◌then◌else◌, Bool-cases}
use codex_mcp_ui.Common.Lists.{All}

abbrev pub Table {ℓ} : Type ℓ → Type ℓ
Table V = List (String × V)

module _ {ℓ} {V : Type ℓ} where
  unfoldable pub get : Table V → String → Option V
  get [] k = none
  get ((j, v) ∷ m) k = if j == k then some v else get m k

  unfoldable pub has : Table V → String → Bool
  has [] k = false
  has ((j, v) ∷ m) k = j == k || has m k

  unfoldable pub set : Table V → String → V → Table V
  set [] k v = (k, v) ∷ []
  set ((j, w) ∷ m) k v = if j == k then (j, v) ∷ m else (j, w) ∷ set m k v

  unfoldable pub delete : Table V → String → Table V
  delete [] k = []
  delete ((j, w) ∷ m) k = if j == k then m else (j, w) ∷ delete m k

  abbrev pub values : Table V → List V
  values [] = []
  values ((j, v) ∷ m) = v ∷ values m

  abbrev pub keys : Table V → List String
  keys [] = []
  keys ((j, v) ∷ m) = j ∷ keys m

  pub get-set :
      (m : Table V) (k j : String) (v : V)
      → get (set m k v) j ≡ (if k == j then some v else get m j)
  unfolding get set
  get-set [] k j v = refl
  get-set ((i, w) ∷ m) k j v = ground (arith, eq_iff k j, eq_iff i k, eq_iff i j, get-set m k j v)

  -- The second write of a key takes the place of the first.
  pub set-set : (m : Table V) (k : String) (v w : V) → set (set m k v) k w ≡ set m k w
  unfolding set
  set-set [] k v w = ground (arith, eq_refl k)
  set-set ((i, x) ∷ m) k v w = ground (arith, eq_iff i k, set-set m k v w)

  pub get-delete_ne : (m : Table V) (k j : String) → k ≢ j → get (delete m k) j ≡ get m j
  unfolding get delete
  get-delete_ne [] k j h = refl
  get-delete_ne ((i, w) ∷ m) k j h = ground (arith, eq_iff i k, eq_iff i j, get-delete_ne m k j h)

  pub set_absent :
      (m : Table V) (k : String) (v : V) → has m k ≡ false → set m k v ≡ m ++ (k, v) ∷ []
  unfolding has set
  set_absent [] k v h = refl
  set_absent ((i, w) ∷ m) k v h = ground (arith, set_absent m k v)

module _ {ℓ κ} {V : Type ℓ} (P : String × V → Type κ) where
  pub All-set : (m : Table V) (k : String) (v : V) → All P m → P (k, v) → All P (set m k v)
  unfolding set
  All-set [] k v h p = (p, tt)
  All-set ((j, w) ∷ m) k v h p = elim (Bool-cases (j == k)) [
    | inl here ↦ rw here ((subst (λ i. P (i, v)) (sym ((eq_iff j k).0 here)) p), h.1)
    | inr there ↦ rw there (h.0, All-set m k v h.1 p)
  ]

  pub All-delete : (m : Table V) (k : String) → All P m → All P (delete m k)
  unfolding delete
  All-delete [] k h = tt
  All-delete ((j, w) ∷ m) k h = elim (Bool-cases (j == k)) [
    | inl here ↦ rw here h.1
    | inr there ↦ rw there (h.0, All-delete m k h.1)
  ]

  pub All-get : (m : Table V) (k : String) {v : V} → All P m → get m k ≡ some v → P (k, v)
  unfolding get
  All-get [] k h e = cc
  All-get ((j, w) ∷ m) k {v} h e = elim (Bool-cases (j == k)) [
    | inl here ↦
        let same : Path (String × V) (j, w) (k, v) = ground (arith, eq_iff j k) in subst P same h.0
    | inr there ↦ All-get m k h.1 (rw (there, get) at e)
  ]
