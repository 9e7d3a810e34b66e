-- ===== src/Common/Sort.antt =====
-- `Array.prototype.sort`, which is stable, over a comparator whose sign is an `Ordering`.
use Prim.Native.Nat.{compare, Ordering}
use mathlib.Core.Path.{◌≡◌, refl}
use mathlib.Core.Logic.{◌≢◌, inl, inr}
use mathlib.Core.Bool.{Bool, true, false}
use mathlib.Core.List.{List, [], ◌∷◌, Perm}
use mathlib.Core.List.Perm
use native.Mathlib.Omega.{arith}
use codex_mcp_ui.Common.Lists.{All, All_mono}
use codex_mcp_ui.Common.Tests.{if◌then◌else◌, Bool-cases}

abbrev pub opposite : Ordering → Ordering
opposite Ordering.lt = Ordering.gt
opposite Ordering.eq = Ordering.eq
opposite Ordering.gt = Ordering.lt

abbrev pub is_gt : Ordering → Bool
is_gt Ordering.gt = true
is_gt _ = false

-- `a || b` on signs: the second comparison decides where the first gives 0.
abbrev pub then_by : Ordering → Ordering → Ordering
then_by Ordering.lt o = Ordering.lt
then_by Ordering.eq o = o
then_by Ordering.gt o = Ordering.gt

-- What `sort` needs of its comparator.
pub record IsComparator {ℓ} {A : Type ℓ} (cmp : A → A → Ordering) : Type ℓ where
  pub flip : (a b : A) → cmp b a ≡ opposite (cmp a b)
  pub trans : (a b c : A) → cmp a b ≢ Ordering.gt → cmp b c ≢ Ordering.gt → cmp a c ≢ Ordering.gt

module _ {ℓ} {A : Type ℓ} (cmp : A → A → Ordering) where
  unfoldable pub insert : A → List A → List A
  insert x [] = x ∷ []
  insert x (y ∷ ys) = let later = y ∷ insert x ys in if is_gt (cmp x y) then later else x ∷ y ∷ ys

  unfoldable pub sort : List A → List A
  unfolding insert
  sort [] = []
  sort (x ∷ xs) = insert x (sort xs)

  abbrev pub IsSorted : List A → Type ℓ
  IsSorted [] = Unit
  IsSorted (x ∷ xs) = All (λ y. cmp x y ≢ Ordering.gt) xs × IsSorted xs

module _ {ℓ} {A : Type ℓ} (cmp : A → A → Ordering) where
  pub insert-perm : (x : A) (ys : List A) → Perm (insert cmp x ys) (x ∷ ys)
  unfolding insert
  insert-perm x [] = Perm.refl _
  insert-perm x (y ∷ ys) = elim (Bool-cases (is_gt (cmp x y))) [
    | inl gt ↦ rw gt (Perm.trans (Perm.cons y (insert-perm x ys)) (Perm.swap x y ys))
    | inr le ↦ rw le (Perm.refl _)
  ]

  pub sort-perm : (xs : List A) → Perm (sort cmp xs) xs
  unfolding sort
  sort-perm [] = Perm.refl _
  sort-perm (x ∷ xs) = Perm.trans (insert-perm x (sort cmp xs)) (Perm.cons x (sort-perm xs))

  pub All-insert {κ} :
      (P : A → Type κ) (x : A) (ys : List A) → P x → All P ys → All P (insert cmp x ys)
  unfolding insert
  All-insert P x [] px h = (px, tt)
  All-insert P x (y ∷ ys) px h = elim (Bool-cases (is_gt (cmp x y))) [
    | inl gt ↦ rw gt (h.0, All-insert P x ys px h.1)
    | inr le ↦ rw le (px, h)
  ]

  pub All-sort {κ} : (P : A → Type κ) (xs : List A) → All P xs → All P (sort cmp xs)
  unfolding sort
  All-sort P [] h = tt
  All-sort P (x ∷ xs) h = All-insert P x (sort cmp xs) h.0 (All-sort P xs h.1)

  module _ (c : IsComparator cmp) where
    insert-IsSorted : (x : A) (ys : List A) → IsSorted cmp ys → IsSorted cmp (insert cmp x ys)
    unfolding insert
    insert-IsSorted x [] h = (tt, tt)
    insert-IsSorted x (y ∷ ys) h = elim (Bool-cases (is_gt (cmp x y))) [
      | inl gt ↦ rw gt (
        All-insert (λ z. cmp y z ≢ Ordering.gt) x ys (ground (arith, c.flip x y)) h.0,
        insert-IsSorted x ys h.1,
      )
      | inr le ↦
          let below : cmp x y ≢ Ordering.gt = ground arith in
          rw le ((below, All_mono _ _ (λ z p. c.trans x y z below p) ys h.0), h)
    ]

    pub sort-IsSorted : (xs : List A) → IsSorted cmp (sort cmp xs)
    unfolding sort
    sort-IsSorted [] = tt
    sort-IsSorted (x ∷ xs) = insert-IsSorted x (sort cmp xs) (sort-IsSorted xs)

  insert_least :
      (x : A) (ys : List A) → All (λ y. cmp x y ≢ Ordering.gt) ys → insert cmp x ys ≡ x ∷ ys
  unfolding insert
  insert_least x [] h = refl
  insert_least x (y ∷ ys) h = ground (arith, h.0)

  -- Sorting what is sorted changes nothing.
  pub sort_of_IsSorted : (xs : List A) → IsSorted cmp xs → sort cmp xs ≡ xs
  unfolding sort
  sort_of_IsSorted [] h = refl
  sort_of_IsSorted (x ∷ xs) h = rw (sort_of_IsSorted xs h.1) (insert_least x xs h.0)

-- The sign of the comparator by a key, and of two comparators in turn.
module _ {ℓ κ} {A : Type ℓ} {B : Type κ} (key : A → B) (cmp : B → B → Ordering) where
  pub by_key-IsComparator : IsComparator cmp → IsComparator (λ a b. cmp (key a) (key b))
  by_key-IsComparator c = record {
    flip = λ a b. c.flip (key a) (key b);
    trans = λ x y z. c.trans (key x) (key y) (key z);
  }

module _ {ℓ} {A : Type ℓ} (f g : A → A → Ordering) where
  pub then_by-IsComparator :
      IsComparator f → IsComparator g → IsComparator (λ a b. then_by (f a b) (g a b))
  then_by-IsComparator p q = record {
    flip = λ a b. ground (arith, p.flip a b, q.flip a b);
    trans = λ a b d. ground (
      arith,
      p.trans a b d,
      p.trans b d a,
      p.trans d a b,
      q.trans a b d,
      p.flip a b,
      p.flip b d,
      p.flip a d,
    );
  }

pub compare-IsComparator : IsComparator compare
compare-IsComparator = record { flip = λ a b. ground arith; trans = λ a b c. ground arith }
