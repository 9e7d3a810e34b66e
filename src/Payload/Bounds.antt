-- ===== src/Payload/Bounds.antt =====
-- How long a preview is, and how much of its text it shows.
use codex_mcp_ui.Common.{
  ℕ, zero, suc, ◌+◌, ◌≤◌, ◌<◌, ◌≡◌, refl, ap, Bool-cases, inl, inr, Option, List, [], ◌∷◌, ◌++◌,
  ltb, length, take, String, arith,
}
use codex_mcp_ui.Json.{Number, Json}
use codex_mcp_ui.Payload.{ellipsis, truncate, preview_text, compact_payload_preview}

length-take : (n : ℕ) (xs : List ℕ) → length (take n xs) ≤ n
length-take zero xs = omega arith
length-take (suc n) [] = omega arith
length-take (suc n) (x ∷ xs) = omega (arith, length-take n xs)

length-take_append : (n : ℕ) (xs : List ℕ) (x : ℕ) → length (take n xs ++ x ∷ []) ≤ n + 1
length-take_append zero xs x = omega arith
length-take_append (suc n) [] x = omega arith
length-take_append (suc n) (y ∷ xs) x = omega (arith, length-take_append n xs x)

take-take : (n : ℕ) (xs : List ℕ) (x : ℕ) → n < length xs → take n (take n xs ++ x ∷ []) ≡ take n xs
take-take zero xs x h = refl
take-take (suc n) [] x h = absurd (omega arith)
take-take (suc n) (y ∷ xs) x h = ap (λ l. y ∷ l) (take-take n xs x (omega arith))

-- What a cut text has to do with the whole one.
pub record IsCut (max : ℕ) (whole cut : List ℕ) : Type 0 where
  pub short : length cut ≤ max + 1
  pub same_start : take max cut ≡ take max whole
  pub whole_if_fits : length whole ≤ max → cut ≡ whole

truncate-IsCut : (s : List ℕ) (max : ℕ) → IsCut max s (truncate s max)
unfolding truncate
truncate-IsCut [] max = record { short = omega arith; same_start = refl; whole_if_fits = λ h. refl }
truncate-IsCut (x ∷ s) max = elim (Bool-cases (ltb max (length (x ∷ s)))) [
  | inl long ↦ rw long (record {
    short = length-take_append max (x ∷ s) ellipsis;
    same_start = take-take max (x ∷ s) ellipsis (ground arith);
    whole_if_fits = λ h. absurd (ground arith);
  })
  | inr fits ↦
      rw fits (record { short = ground arith; same_start = refl; whole_if_fits = λ h. refl })
]

-- A preview is at most one unit longer than the bound, agrees with the payload's text up to the
-- bound, and is the whole text if that is no longer than the bound.
pub compact_payload_preview-IsCut :
    (number_text : Number → String) (payload : Option Json) (max : ℕ)
    → IsCut max (preview_text number_text payload) (compact_payload_preview number_text payload max)
unfolding compact_payload_preview
compact_payload_preview-IsCut number_text payload max =
    truncate-IsCut (preview_text number_text payload) max
