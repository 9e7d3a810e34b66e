-- ===== src/Common/Lists.antt =====
-- Lists over the native numbers, and the predicates that hold of every element.
use Prim.Native.Nat.{ℕ, zero, suc, ◌+◌}
use mathlib.Core.Path.{◌≡◌, refl, sym, ap, ◌∙◌}
use mathlib.Core.Logic.{◌≢◌, inl, inr}
use mathlib.Core.Bool.{Bool, true, false, ◌||◌}
use mathlib.Core.List.{List, [], ◌∷◌, ◌++◌, map, flatten, map-append, append_assoc}
use mathlib.Core.Option.{Option, none, some}
use native.Mathlib.Omega.{arith}
use codex_mcp_ui.Common.Tests.{if◌then◌else◌, Bool-cases}

module _ {ℓ} {A : Type ℓ} where
  abbrev pub length : List A → ℕ
  length [] = 0
  length (x ∷ xs) = suc (length xs)

  abbrev pub any : (A → Bool) → List A → Bool
  any p [] = false
  any p (x ∷ xs) = p x || any p xs

  -- `Array.prototype.filter`.
  abbrev pub select : (A → Bool) → List A → List A
  select p [] = []
  select p (x ∷ xs) = let rest = select p xs in if p x then x ∷ rest else rest

  -- The elements that are present.
  abbrev pub present : List (Option A) → List A
  present [] = []
  present (none ∷ xs) = present xs
  present (some x ∷ xs) = x ∷ present xs

  abbrev pub get_elem? : List A → ℕ → Option A
  get_elem? [] i = none
  get_elem? (x ∷ xs) zero = some x
  get_elem? (x ∷ xs) (suc i) = get_elem? xs i

  -- `a.at(-1)`.
  abbrev pub last? : List A → Option A
  last? [] = none
  last? (x ∷ []) = some x
  last? (x ∷ y ∷ xs) = last? (y ∷ xs)

  abbrev pub is_empty : List A → Bool
  is_empty [] = true
  is_empty (x ∷ xs) = false

  abbrev pub take : ℕ → List A → List A
  take zero xs = []
  take (suc n) [] = []
  take (suc n) (x ∷ xs) = x ∷ take n xs

  pub length-append : (xs ys : List A) → length (xs ++ ys) ≡ length xs + length ys
  length-append [] ys = omega arith
  length-append (x ∷ xs) ys = omega (arith, length-append xs ys)

abbrev pub All {ℓ κ} : {A : Type ℓ} → (A → Type κ) → List A → Type κ
All P [] = Unit
All P (x ∷ xs) = P x × All P xs

-- No two elements are equal.
abbrev pub Distinct {ℓ} : {A : Type ℓ} → List A → Type ℓ
Distinct [] = Unit
Distinct (x ∷ xs) = All (λ y. x ≢ y) xs × Distinct xs

module _ {ℓ κ} {A : Type ℓ} (P : A → Type κ) where
  pub All-append : (xs ys : List A) → All P xs → All P ys → All P (xs ++ ys)
  All-append [] ys hx hy = hy
  All-append (x ∷ xs) ys hx hy = (hx.0, All-append xs ys hx.1 hy)

  pub All_left : (xs ys : List A) → All P (xs ++ ys) → All P xs
  All_left [] ys h = tt
  All_left (x ∷ xs) ys h = (h.0, All_left xs ys h.1)

  pub All_right : (xs ys : List A) → All P (xs ++ ys) → All P ys
  All_right [] ys h = h
  All_right (x ∷ xs) ys h = All_right xs ys h.1

pub All_mono {ℓ κ μ} :
    {A : Type ℓ} (P : A → Type κ) (Q : A → Type μ)
    → ((a : A) → P a → Q a)
    → (xs : List A) → All P xs
    → All Q xs
All_mono P Q f [] h = tt
All_mono P Q f (x ∷ xs) h = (f x h.0, All_mono P Q f xs h.1)

pub flatten-singles {ℓ κ} :
    {A : Type ℓ} {B : Type κ} (f : A → B) (xs : List A)
    → flatten (map (λ x. f x ∷ []) xs) ≡ map f xs
unfolding flatten
flatten-singles f [] = refl
flatten-singles f (x ∷ xs) = ap (λ l. f x ∷ l) (flatten-singles f xs)

pub map-flatten {ℓ κ μ} :
    {A : Type ℓ} {B : Type κ} {C : Type μ} (f : B → C) (g : A → List B) (xs : List A)
    → map f (flatten (map g xs)) ≡ flatten (map (λ x. map f (g x)) xs)
unfolding flatten
map-flatten f g [] = refl
map-flatten f g (x ∷ xs) = map-append f (g x) _ ∙ ap (λ l. map f (g x) ++ l) (map-flatten f g xs)

pub any-append {ℓ} :
    {A : Type ℓ} (p : A → Bool) (xs ys : List A) → any p (xs ++ ys) ≡ any p xs || any p ys
any-append p [] ys = refl
any-append p (x ∷ xs) ys = elim (Bool-cases (p x)) [
  | inl yes_ ↦ rw yes_ refl
  | inr no_ ↦ rw no_ (any-append p xs ys)
]

pub any-flatten {ℓ κ} :
    {A : Type ℓ} {B : Type κ} (p : B → Bool) (g : A → List B) (xs : List A)
    → any p (flatten (map g xs)) ≡ any (λ x. any p (g x)) xs
unfolding flatten
any-flatten p g [] = refl
any-flatten p g (x ∷ xs) =
    any-append p (g x) (flatten (map g xs)) ∙ ap (λ b. any p (g x) || b) (any-flatten p g xs)

pub any-map {ℓ κ} :
    {A : Type ℓ} {B : Type κ} (p : B → Bool) (f : A → B) (xs : List A)
    → any p (map f xs) ≡ any (λ x. p (f x)) xs
any-map p f [] = refl
any-map p f (x ∷ xs) = ap (λ b. p (f x) || b) (any-map p f xs)

pub flatten-append {ℓ} :
    {A : Type ℓ} (xss yss : List (List A)) → flatten (xss ++ yss) ≡ flatten xss ++ flatten yss
unfolding flatten
flatten-append [] yss = refl
flatten-append (xs ∷ xss) yss =
    ap (λ l. xs ++ l) (flatten-append xss yss) ∙ sym (append_assoc xs (flatten xss) (flatten yss))

pub flatten-flatten-map {ℓ κ} :
    {A : Type ℓ} {B : Type κ} (g : A → List (List B)) (xs : List A)
    → flatten (flatten (map g xs)) ≡ flatten (map (λ x. flatten (g x)) xs)
unfolding flatten
flatten-flatten-map g [] = refl
flatten-flatten-map g (x ∷ xs) =
    flatten-append (g x) (flatten (map g xs))
    ∙ ap (λ l. flatten (g x) ++ l) (flatten-flatten-map g xs)

-- What is left of a list, one for one.
pub flatten-select {ℓ κ} :
    {A : Type ℓ} {B : Type κ} (p : A → Bool) (f : A → B) (xs : List A)
    → flatten (map (λ x. if p x then f x ∷ [] else []) xs) ≡ map f (select p xs)
unfolding flatten
flatten-select p f [] = refl
flatten-select p f (x ∷ xs) = elim (Bool-cases (p x)) [
  | inl kept ↦ rw kept (ap (λ l. f x ∷ l) (flatten-select p f xs))
  | inr left ↦ rw left (flatten-select p f xs)
]

-- A test of the image.
pub map-select {ℓ κ} :
    {A : Type ℓ} {B : Type κ} (f : A → B) (p : B → Bool) (xs : List A)
    → map f (select (λ x. p (f x)) xs) ≡ select p (map f xs)
map-select f p [] = refl
map-select f p (x ∷ xs) = elim (Bool-cases (p (f x))) [
  | inl kept ↦ rw kept (ap (λ l. f x ∷ l) (map-select f p xs))
  | inr left ↦ rw left (map-select f p xs)
]

module _ {ℓ} {A : Type ℓ} where
  -- The last of a list that stands behind what there was.
  abbrev pub last_after : Option A → List A → Option A
  last_after b [] = b
  last_after b (x ∷ xs) = last_after (some x) xs

  last_after-last? : (x : A) (xs : List A) → last_after (some x) xs ≡ last? (x ∷ xs)
  last_after-last? x [] = refl
  last_after-last? x (y ∷ ys) = last_after-last? y ys

  pub last_after-none : (xs : List A) → last_after none xs ≡ last? xs
  last_after-none [] = refl
  last_after-none (x ∷ xs) = last_after-last? x xs

  pub last_after-select :
      (t : A → Bool) (b : Option A) (x : A) (xs : List A)
      → last_after b (select t (x ∷ xs)) ≡ last_after (if t x then some x else b) (select t xs)
  last_after-select t b x xs = elim (Bool-cases (t x)) [
    | inl taken ↦ rw taken refl
    | inr left ↦ rw left refl
  ]

  pub select-cons :
      (t : A → Bool) (x : A) (xs : List A)
      → select t (x ∷ xs) ≡ (if t x then x ∷ [] else []) ++ select t xs
  select-cons t x xs = elim (Bool-cases (t x)) [
    | inl taken ↦ rw taken refl
    | inr left ↦ rw left refl
  ]
