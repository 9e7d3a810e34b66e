-- ===== src/Collation/CodePoints.antt =====
-- The order of texts by their characters' codes, a collation that is strict.
use Prim.Native.Nat.{Ordering, compare as compare_ℕ}
use Prim.Native.String.compare
use Prim.Native.Char.{Char, code}
use Prim.Native.String.{String, [], ◌∷◌, compare}
use text.Mathlib.TextEquality.{path_by_compare}
use codex_mcp_ui.Common.{◌≡◌, ◌≢◌, refl, ◌∙◌, arith}
use codex_mcp_ui.Common.Sort.{opposite, then_by, compare-IsComparator}
use codex_mcp_ui.Collation.{Collation, IsCollation}

abbrev pub by_code_points : Collation
by_code_points = compare

cons-cons :
    (c : Char) (s : String) (d : Char) (t : String)
    → compare (c ∷ s) (d ∷ t) ≡ then_by (compare_ℕ (code c) (code d)) (compare s t)
cons-cons c s d t = compare.cons-cons c d s t ∙ same (compare_ℕ (code c) (code d))
  where
    same : (o : Ordering) → Prim.Native.String.then o (compare s t) ≡ then_by o (compare s t)
    same Ordering.lt = refl
    same Ordering.eq = refl
    same Ordering.gt = refl

opposite-then_by : (a b : Ordering) → then_by (opposite a) (opposite b) ≡ opposite (then_by a b)
opposite-then_by Ordering.lt b = refl
opposite-then_by Ordering.eq b = refl
opposite-then_by Ordering.gt b = refl

flip : (s t : String) → compare t s ≡ opposite (compare s t)
flip [] [] = refl
flip [] (d ∷ t) = rw (compare.nil-cons, compare.cons-nil) refl
flip (c ∷ s) [] = rw (compare.nil-cons, compare.cons-nil) refl
flip (c ∷ s) (d ∷ t) =
    rw (cons-cons d t c s, cons-cons c s d t, compare-IsComparator.flip (code c) (code d), flip s t)
      (opposite-then_by (compare_ℕ (code c) (code d)) (compare s t))

trans :
    (s t u : String)
    → compare s t ≢ Ordering.gt
    → compare t u ≢ Ordering.gt
    → compare s u ≢ Ordering.gt
trans [] [] u p q = q
trans [] (d ∷ t) [] p q = ground arith
trans [] (d ∷ t) (e ∷ u) p q = ground (arith, compare.nil-cons e u)
trans (c ∷ s) [] u p q = ground (arith, compare.cons-nil c s)
trans (c ∷ s) (d ∷ t) [] p q = ground (arith, compare.cons-nil d t)
trans (c ∷ s) (d ∷ t) (e ∷ u) p q =
    ground (arith, cons-cons c s d t, cons-cons d t e u, cons-cons c s e u, trans s t u)

pub by_code_points-IsCollation : IsCollation by_code_points
by_code_points-IsCollation = record { flip = flip; trans = trans }

pub by_code_points-strict : (a b : String) → by_code_points a b ≡ Ordering.eq → a ≡ b
by_code_points-strict = path_by_compare
