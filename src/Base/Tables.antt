-- ===== src/Base/Tables.antt =====
-- Unordered maps as association lists, newest first, of distinct keys, and as functions where a
-- missing key reads as a default.
use Prim.Native.Nat.{ℕ}
use mathlib.Core.Bool.{Bool, true, false}
use mathlib.Core.Option.{Option, none, some}
use mathlib.Core.List.{List, [], ◌∷◌}
use quetz.Base.Compare.{◌==◌, if◌then◌else◌}

module _ {ℓ} {A : Type ℓ} where
  unfoldable pub find : ℕ → List (ℕ × A) → Option A
  find k [] = none
  find k ((j, a) ∷ t) = let rest = find k t in if j == k then some a else rest

  unfoldable pub erase : ℕ → List (ℕ × A) → List (ℕ × A)
  erase k [] = []
  erase k ((j, a) ∷ t) = let rest = erase k t in if j == k then t else (j, a) ∷ rest

  unfoldable pub has_key : ℕ → List (ℕ × A) → Bool
  has_key k [] = false
  has_key k ((j, a) ∷ t) = let rest = has_key k t in if j == k then true else rest

  -- `f[k] = a` for a map whose missing keys read as a default.
  abbrev pub update : ℕ → A → (ℕ → A) → ℕ → A
  update k a f j = if j == k then a else f j
