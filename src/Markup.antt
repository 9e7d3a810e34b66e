-- ===== src/Markup.antt =====
-- Markup: what the components of web/src/components render, as trees. A component of the interface
-- kit or of a library is an element under its own name. Class names and styles are left out, but
-- for the classes that depend on what is shown.
use mathlib.Core.List.{flatten, append_assoc}
use codex_mcp_ui.Common.{
  ℕ, String, Bool, true, false, List, [], ◌∷◌, ◌++◌, map, ◌≡◌, refl, ap, ◌∙◌, sym, ◌==◌,
  if◌then◌else◌,
}

-- The value of an attribute; `does` is what a click does, `takes` what a change of an input's text
-- does.
pub data Attribute (A : Type 0) : Type 0 where
  text : String → Attribute A
  number : ℕ → Attribute A
  flag : Bool → Attribute A
  does : A → Attribute A
  takes : (String → A) → Attribute A

abbrev pub Attributes : Type 0 → Type 0
Attributes A = List (String × Attribute A)

-- A text, a text that was cut, by its UTF-16 units, or an element.
mutual
  pub data Node (A : Type 0) : Type 0 where
    text : String → Node A
    units : List ℕ → Node A
    element : String → Attributes A → Nodes A → Node A

  pub data Nodes (A : Type 0) : Type 0 where
    nil : Nodes A
    cons : Node A → Nodes A → Nodes A

module _ {A : Type 0} where
  abbrev pub nodes : List (Node A) → Nodes A
  nodes [] = nil
  nodes (n ∷ ns) = cons n (nodes ns)

  -- `<tag ...attributes>{children}</tag>`.
  abbrev pub el : String → Attributes A → List (Node A) → Node A
  el tag attributes children = element tag attributes (nodes children)

  -- `{condition && node}`.
  abbrev pub when : Bool → Node A → List (Node A)
  when true n = n ∷ []
  when false n = []

  abbrev pub actions : Attributes A → List A
  actions [] = []
  actions ((name, does a) ∷ attributes) = a ∷ actions attributes
  actions (_ ∷ attributes) = actions attributes

-- What can be clicked, in the order of the document.
unfoldable mutual
  pub clicks : {A : Type 0} → Node A → List A
  clicks (text s) = []
  clicks (units u) = []
  clicks (element tag attributes ns) = actions attributes ++ clicks_in ns

  pub clicks_in : {A : Type 0} → Nodes A → List A
  clicks_in nil = []
  clicks_in (cons n ns) = clicks n ++ clicks_in ns

-- The elements of one tag, by their attributes.
unfoldable mutual
  pub elements : {A : Type 0} → String → Node A → List (Attributes A)
  elements tag (text s) = []
  elements tag (units u) = []
  elements tag (element t attributes ns) =
      if t == tag then attributes ∷ elements_in tag ns else elements_in tag ns

  pub elements_in : {A : Type 0} → String → Nodes A → List (Attributes A)
  elements_in tag nil = []
  elements_in tag (cons n ns) = elements tag n ++ elements_in tag ns

module _ {A B : Type 0} where
  pub clicks_in-map :
      (f : B → Node A) (xs : List B)
      → clicks_in (nodes (map f xs)) ≡ flatten (map (λ x. clicks (f x)) xs)
  unfolding clicks flatten
  clicks_in-map f [] = refl
  clicks_in-map f (x ∷ xs) = ap (λ l. clicks (f x) ++ l) (clicks_in-map f xs)

  pub elements_in-map :
      (tag : String) (f : B → Node A) (xs : List B)
      → elements_in tag (nodes (map f xs)) ≡ flatten (map (λ x. elements tag (f x)) xs)
  unfolding elements flatten
  elements_in-map tag f [] = refl
  elements_in-map tag f (x ∷ xs) = ap (λ l. elements tag (f x) ++ l) (elements_in-map tag f xs)

module _ {A B : Type 0} where
  pub clicks_in-map_none :
      (f : B → Node A) (xs : List B)
      → ((x : B) → clicks (f x) ≡ [])
      → clicks_in (nodes (map f xs)) ≡ []
  unfolding clicks
  clicks_in-map_none f [] h = refl
  clicks_in-map_none f (x ∷ xs) h = rw (h x) (clicks_in-map_none f xs h)

  pub elements_in-map_none :
      (tag : String) (f : B → Node A) (xs : List B)
      → ((x : B) → elements tag (f x) ≡ [])
      → elements_in tag (nodes (map f xs)) ≡ []
  unfolding elements
  elements_in-map_none tag f [] h = refl
  elements_in-map_none tag f (x ∷ xs) h = rw (h x) (elements_in-map_none tag f xs h)

module _ {A : Type 0} where
  pub elements_in-append :
      (tag : String) (ms ns : List (Node A))
      → elements_in tag (nodes (ms ++ ns))
        ≡ elements_in tag (nodes ms) ++ elements_in tag (nodes ns)
  unfolding elements
  elements_in-append tag [] ns = refl
  elements_in-append tag (m ∷ ms) ns =
      ap (λ l. elements tag m ++ l) (elements_in-append tag ms ns)
      ∙ sym
          (append_assoc (elements tag m) (elements_in tag (nodes ms)) (elements_in tag (nodes ns)))

  pub clicks_in-append :
      (ms ns : List (Node A))
      → clicks_in (nodes (ms ++ ns)) ≡ clicks_in (nodes ms) ++ clicks_in (nodes ns)
  unfolding clicks
  clicks_in-append [] ns = refl
  clicks_in-append (m ∷ ms) ns =
      ap (λ l. clicks m ++ l) (clicks_in-append ms ns)
      ∙ sym (append_assoc (clicks m) (clicks_in (nodes ms)) (clicks_in (nodes ns)))

  pub clicks_in-when : (b : Bool) (n : Node A) → clicks n ≡ [] → clicks_in (nodes (when b n)) ≡ []
  unfolding clicks
  clicks_in-when true n h = rw h refl
  clicks_in-when false n h = refl

  pub elements_in-when :
      (tag : String) (b : Bool) (n : Node A)
      → elements tag n ≡ []
      → elements_in tag (nodes (when b n)) ≡ []
  unfolding elements
  elements_in-when tag true n h = rw h refl
  elements_in-when tag false n h = refl
