-- ===== src/WindowCache/View.antt =====
-- What an address reads as: the byte of the line that caches it, else that of the memory.
use quetz.Base.{
  ℕ, zero, suc, ◌+◌, ◌*◌, ◌/◌, ◌%◌, ◌≤◌, ◌<◌, ◌≡◌, sym, ap, ◌∙◌, true, false, none, some, ◌==◌,
  get_or, length, arith, Bool-cases, Option-cases, inl, inr, ◌⊎◌, subst,
}
use quetz.WindowCache.State.{
  Line, find_from, find, holds, set_index, line_address, line_bytes, ways,
}
use quetz.WindowCache.Transact.{lines_below}

abbrev pub view : (ℕ → Line) → (ℕ → ℕ) → ℕ → ℕ
view lines m a = elim (find lines (line_address a)) [
  | none ↦ m a
  | some s ↦ get_or (lines s).bytes (a % line_bytes) 0
]

-- A valid line is in the set of its aligned address and has sixteen bytes; no two are of one address;
-- and a line that is not dirty agrees with the memory.
pub record Inv (lines : ℕ → Line) (m : ℕ → ℕ) : Type 0 where
  pub aligned :
      (s : ℕ) → s < lines_below → (lines s).valid ≡ true → (lines s).address % line_bytes ≡ 0
  pub placed :
      (s : ℕ) → s < lines_below → (lines s).valid ≡ true → set_index (lines s).address ≡ s / ways
  pub full :
      (s : ℕ) → s < lines_below → (lines s).valid ≡ true → length (lines s).bytes ≡ line_bytes
  pub unique :
      (s t : ℕ)
      → s < lines_below
      → t < lines_below
      → (lines s).valid ≡ true
      → (lines t).valid ≡ true
      → (lines s).address ≡ (lines t).address
      → s ≡ t
  pub clean :
      (s k : ℕ)
      → s < lines_below
      → k < line_bytes
      → (lines s).valid ≡ true
      → (lines s).dirty ≡ false
      → get_or (lines s).bytes k 0 ≡ m ((lines s).address + k)

find_from-some :
    (lines : ℕ → Line) (slot left address : ℕ) {s : ℕ}
    → find_from lines slot left address ≡ some s
    → (slot ≤ s) × (s < slot + left) × (holds (lines s) address ≡ true)
unfolding find_from
find_from-some lines slot zero address e = ground arith
find_from-some lines slot (suc n) address {s} e =
    ground (arith, find_from-some lines (suc slot) n address {s = s})

find_from-none_split :
    (lines : ℕ → Line) (slot n address : ℕ)
    → find_from lines slot (suc n) address ≡ none
    → (holds (lines slot) address ≡ false) × (find_from lines (suc slot) n address ≡ none)
unfolding find_from
find_from-none_split lines slot n address e = ground arith

find_from-none :
    (lines : ℕ → Line) (slot left address : ℕ)
    → find_from lines slot left address ≡ none
    → (s : ℕ) → slot ≤ s
    → s < slot + left
    → holds (lines s) address ≡ false
find_from-none lines slot zero address e s l h = absurd (omega arith)
find_from-none lines slot (suc n) address e s l h =
    let split = find_from-none_split lines slot n address e in
    elim (Bool-cases (s == slot)) [
      | inl here ↦
          let same : s ≡ slot = ground (arith, here) in
          subst (λ t. holds (lines t) address ≡ false) (sym same) split.0
      | inr there ↦
          find_from-none lines (suc slot) n address split.1 s (ground (arith, there)) (omega arith)
    ]

pub holds_iff : (l : Line) (a : ℕ) → holds l a ≡ true → (l.valid ≡ true) × (l.address ≡ a)
holds_iff l a h = ground arith

-- A line of an aligned address is found, and only there.
find_of :
    (lines : ℕ → Line) (m : ℕ → ℕ) (s a : ℕ)
    → Inv lines m
    → s < lines_below
    → holds (lines s) a ≡ true
    → find lines a ≡ some s
find_of lines m s a v b h =
    let w = holds_iff (lines s) a h in
    let p = v.placed s b w.0 in
    elim (Option-cases (find lines a)) [
      | inl e ↦
          let never =
            find_from-none lines (set_index a * ways) ways a e s (ground (arith, p, w))
              (ground (arith, p, w)) in
          absurd (ground (arith, never, h))
      | inr (t, e) ↦
          let f = find_from-some lines (set_index a * ways) ways a {s = t} e in
          let u = holds_iff (lines t) a f.2 in
          e ∙ ap some (v.unique t s (omega (arith, f)) b u.0 w.0 (u.1 ∙ sym w.1))
    ]

find-none :
    (lines : ℕ → Line) (a : ℕ)
    → ((s : ℕ) → s < lines_below → holds (lines s) a ≡ false)
    → find lines a ≡ none
find-none lines a h = elim (Option-cases (find lines a)) [
  | inl e ↦ e
  | inr (s, e) ↦
      let f = find_from-some lines (set_index a * ways) ways a {s = s} e in
      absurd (ground (arith, f, h s (omega (arith, f))))
]

pub none-holds :
    (lines : ℕ → Line) (m : ℕ → ℕ) (a : ℕ)
    → Inv lines m
    → find lines a ≡ none
    → (s : ℕ) → s < lines_below
    → holds (lines s) a ≡ false
none-holds lines m a v e s b = elim (Bool-cases (holds (lines s) a)) [
  | inr not_held ↦ not_held
  | inl held ↦ absurd (ground (arith, e, find_of lines m s a v b held))
]

-- The two ways to read an address.
pub view-cached :
    (lines : ℕ → Line) (m : ℕ → ℕ) (s a : ℕ)
    → Inv lines m
    → s < lines_below
    → holds (lines s) (line_address a) ≡ true
    → view lines m a ≡ get_or (lines s).bytes (a % line_bytes) 0
view-cached lines m s a v b h = ground (arith, find_of lines m s (line_address a) v b h)

pub view-uncached :
    (lines : ℕ → Line) (m : ℕ → ℕ) (a : ℕ)
    → ((s : ℕ) → s < lines_below → holds (lines s) (line_address a) ≡ false)
    → view lines m a ≡ m a
view-uncached lines m a h = ground (arith, find-none lines (line_address a) h)

-- Whether a slot holds an address, or none does.
pub holder :
    (lines : ℕ → Line) (m : ℕ → ℕ) (a : ℕ)
    → Inv lines m
    → ((s : ℕ) × (s < lines_below) × (holds (lines s) a ≡ true))
      ⊎ ((s : ℕ) → s < lines_below → holds (lines s) a ≡ false)
holder lines m a v = elim (Option-cases (find lines a)) [
  | inl e ↦ inr (none-holds lines m a v e)
  | inr (s, e) ↦
      let f = find_from-some lines (set_index a * ways) ways a {s = s} e in
      inl (s, omega (arith, f), f.2)
]
