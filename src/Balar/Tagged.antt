-- ===== src/Balar/Tagged.antt =====
-- The entries of a table with a mark, such as those of posted operations.
use quetz.Base.{
  ℕ, ◌≡◌, ◌≤◌, Bool, true, false, some, List, [], ◌∷◌, ◌++◌, if◌then◌else◌, length, refl, arith,
}
use quetz.Base.Tables.{find, erase, has_key}

module _ {A : Type 0} {B : Type 0} (mark : A → Bool) (f : ℕ → A → B) where
  abbrev pub marked : List (ℕ × A) → List B
  marked [] = []
  marked ((k, a) ∷ t) = if mark a then f k a ∷ marked t else marked t

  pub length-marked :
      (k : ℕ) (t : List (ℕ × A)) {a : A} → find k t ≡ some a → mark a ≡ true → 1 ≤ length (marked t)
  unfolding find
  length-marked k [] e m = absurd (cc)
  length-marked k ((j, b) ∷ t) {a} e m = ground (arith, length-marked k t {a = a})

  pub marked-erase :
      (k : ℕ) (t : List (ℕ × A)) {a : A}
      → find k t ≡ some a
      → mark a ≡ true
      → length (marked t) ≤ 1
      → (marked t ≡ f k a ∷ []) × (marked (erase k t) ≡ [])
  unfolding find erase
  marked-erase k [] e m h = absurd (cc)
  marked-erase k ((j, b) ∷ t) {a} e m h =
      ground (arith, marked-erase k t {a = a}, length-marked k t {a = a}, nil (marked t))
    where
      nil : (l : List B) → length l ≤ 0 → l ≡ []
      nil [] h = refl
      nil (x ∷ l) h = absurd (omega arith)

  pub marked-erase_other :
      (k : ℕ) (t : List (ℕ × A)) {a : A}
      → find k t ≡ some a
      → mark a ≡ false
      → marked (erase k t) ≡ marked t
  unfolding find erase
  marked-erase_other k [] e m = absurd (cc)
  marked-erase_other k ((j, b) ∷ t) {a} e m = ground (arith, marked-erase_other k t {a = a})

module _ {A : Type 0} {B : Type 0} (mark : A → Bool) (f : ℕ → A → B) (k : ℕ) (a : A) where
  pub length-marked_middle :
      (xs t : List (ℕ × A)) → mark a ≡ true → 1 ≤ length (marked mark f (xs ++ ((k, a) ∷ t)))
  length-marked_middle [] t m = ground arith
  length-marked_middle ((j, b) ∷ xs) t m = ground (arith, length-marked_middle xs t m)

  -- An entry that leaves the middle of a table.
  pub marked_middle :
      (xs t : List (ℕ × A))
      → mark a ≡ true
      → length (marked mark f (xs ++ ((k, a) ∷ t))) ≤ 1
      → (marked mark f (xs ++ ((k, a) ∷ t)) ≡ f k a ∷ []) × (marked mark f (xs ++ t) ≡ [])
  marked_middle [] t m h = ground (arith, nil (marked mark f t))
    where
      nil : (l : List B) → length l ≤ 0 → l ≡ []
      nil [] h = refl
      nil (x ∷ l) h = absurd (omega arith)
  marked_middle ((j, b) ∷ xs) t m h =
      ground (arith, marked_middle xs t m, length-marked_middle xs t m)

  pub marked_middle_other :
      (xs t : List (ℕ × A))
      → mark a ≡ false
      → marked mark f (xs ++ ((k, a) ∷ t)) ≡ marked mark f (xs ++ t)
  marked_middle_other [] t m = ground arith
  marked_middle_other ((j, b) ∷ xs) t m = ground (arith, marked_middle_other xs t m)

module _ {A : Type 0} (mark : A → Bool) (key : ℕ → A → ℕ) (v : ℕ) where
  -- The marked entries are of one key.
  abbrev pub AllOf : List (ℕ × A) → Type 0
  AllOf [] = Unit
  AllOf ((k, a) ∷ t) = (mark a ≡ true → key k a ≡ v) × AllOf t

  pub AllOf-find :
      (k : ℕ) (t : List (ℕ × A)) {a : A} → AllOf t → find k t ≡ some a → mark a ≡ true → key k a ≡ v
  unfolding find
  AllOf-find k [] h e m = absurd (cc)
  AllOf-find k ((j, b) ∷ t) {a} h e m = ground (arith, h.0, AllOf-find k t {a = a} h.1)

  pub AllOf-erase : (k : ℕ) (t : List (ℕ × A)) → AllOf t → AllOf (erase k t)
  unfolding erase
  AllOf-erase k [] h = tt
  AllOf-erase k ((j, b) ∷ t) h = ground (arith, h, AllOf-erase k t h.1)

  pub AllOf-middle :
      (k : ℕ) (a : A) (xs t : List (ℕ × A))
      → AllOf (xs ++ ((k, a) ∷ t))
      → AllOf (xs ++ t) × (mark a ≡ true → key k a ≡ v)
  AllOf-middle k a [] t h = (h.1, h.0)
  AllOf-middle k a ((j, b) ∷ xs) t h = let r = AllOf-middle k a xs t h.1 in ((h.0, r.0), r.1)

module _ {A : Type 0} {B : Type 0} (mark : A → Bool) (f : ℕ → A → B) (v : ℕ) where
  pub marked_nil :
      (t : List (ℕ × A)) → AllOf mark (λ k a. k) v t → has_key v t ≡ false → marked mark f t ≡ []
  unfolding has_key
  marked_nil [] h e = refl
  marked_nil ((j, b) ∷ t) h e = ground (arith, h.0, marked_nil t h.1)
