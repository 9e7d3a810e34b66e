-- ===== src/Projection/Buckets/Laws.antt =====
-- Reading and changing a bucket of web/src/lib/assistant-projection.ts.
use codex_mcp_ui.Common.{
  String, ◌≡◌, some, ◌==◌, eq_refl, if◌then◌else◌, value_or, All, Option-cases, inl, inr,
}
use codex_mcp_ui.Common.Table.{Table, get, get-set, set-set, All-set, All-get}
use codex_mcp_ui.Projection.Buckets.{change_bucket}

module _ {ℓ} {T : Type ℓ} where
  pub get-change_bucket :
      (store : Table T) (id key : String) (create : T) (change : T → T)
      → get (change_bucket store id create change) key
        ≡ (if id == key then some (change (value_or (get store id) create)) else get store key)
  unfolding change_bucket
  get-change_bucket store id key create change = get-set store id key _

  -- Two changes of one bucket are one.
  pub change_bucket_twice :
      (store : Table T) (id : String) (create : T) (f g : T → T)
      → change_bucket (change_bucket store id create f) id create g
        ≡ change_bucket store id create (λ b. g (f b))
  unfolding change_bucket
  change_bucket_twice store id create f g = rw (get-set, eq_refl) (set-set store id _ _)

-- What holds of a new bucket, and is kept by the change, holds of every bucket after the change.
pub All-change_bucket {ℓ κ} :
    {T : Type ℓ} (Q : T → Type κ) (store : Table T) (id : String) (create : T) (change : T → T)
    → All (λ entry. Q entry.1) store
    → Q create
    → ((b : T) → Q b → Q (change b))
    → All (λ entry. Q entry.1) (change_bucket store id create change)
unfolding change_bucket
All-change_bucket Q store id create change h new keep =
    All-set (λ entry. Q entry.1) store id _ h
      (keep _ (elim (Option-cases (get store id)) [
        | inl missing ↦ rw missing new
        | inr (b, found) ↦ rw found (All-get (λ entry. Q entry.1) store id h found)
      ]))
