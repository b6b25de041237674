-- ===== src/WindowCache/Coherent.antt =====
-- Writing a line back, as it changes the lines and the memory of src/quetz_window_cache.h.
use quetz.Base.{
  ℕ, ◌+◌, ◌-◌, ◌%◌, ◌<◌, ◌≡◌, ◌≢◌, sym, ap, ◌∙◌, Bool, true, false, ◌&&◌, ltb, leb, ◌==◌, get_or,
  length, arith, Bool-cases, inl, inr, ◌⊎◌, subst,
}
use quetz.WindowCache.State.{Line, holds, set_index, line_address, line_bytes}
use quetz.WindowCache.Transact.{put, lines_below}
use quetz.WindowCache.Service.{store}
use quetz.WindowCache.View.{view, Inv, view-cached, view-uncached, holder, holds_iff}

abbrev cleaned : Line → Bool → Line
cleaned l keep = record l { valid = keep; dirty = false }

-- Two lines with different aligned addresses share no byte.
apart :
    (a b k n : ℕ)
    → a % line_bytes ≡ 0
    → b % line_bytes ≡ 0
    → a ≢ b
    → k < line_bytes
    → n ≡ line_bytes
    → (leb b (a + k) && ltb (a + k) (b + n)) ≡ false
apart a b k n ha hb ne hk e = ground arith

-- Whether a slot is the one that is put.
pub put-cases :
    (lines : ℕ → Line) (s : ℕ) (l : Line) (u : ℕ)
    → ((u ≡ s) × (put lines s l u ≡ l)) ⊎ ((u ≢ s) × (put lines s l u ≡ lines u))
put-cases lines s l u = elim (Bool-cases (u == s)) [
  | inl here ↦ inl (ground (arith, here), ground (arith, here))
  | inr there ↦ inr (ground (arith, there), ground (arith, there))
]

pub line_address_parts :
    (a : ℕ)
    → (a ≡ line_address a + a % line_bytes)
      × (line_address a % line_bytes ≡ 0)
      × (a % line_bytes < line_bytes)
line_address_parts a = (omega arith, omega arith, omega arith)

pub holds_of : (l : Line) (a : ℕ) → l.valid ≡ true → l.address ≡ a → holds l a ≡ true
holds_of l a h e = ground (arith, h, e)

pub not_holds : (l : Line) (a : ℕ) → holds l a ≡ false → l.valid ≡ true → l.address ≢ a
not_holds l a h v e = absurd (ground (arith, h, v, e))

-- Writing back the valid line of a slot: it agrees with the memory, and stays valid or does not.
module _ (lines : ℕ → Line) (m : ℕ → ℕ) (s : ℕ) (keep : Bool) (v : Inv lines m)
    (b : s < lines_below) (valid : (lines s).valid ≡ true) where
  abbrev lines' : ℕ → Line
  lines' = put lines s (cleaned (lines s) keep)

  abbrev m' : ℕ → ℕ
  m' = store m (lines s).address (lines s).bytes

  was_valid : (u : ℕ) → (lines' u).valid ≡ true → (lines u).valid ≡ true
  was_valid u h = elim (put-cases lines s (cleaned (lines s) keep) u) [
    | inl (same, e) ↦ subst (λ t. (lines t).valid ≡ true) (sym same) valid
    | inr (ne, e) ↦ sym (ap (λ l. l.valid) e) ∙ h
  ]

  same_address : (u : ℕ) → (lines' u).address ≡ (lines u).address
  same_address u = elim (put-cases lines s (cleaned (lines s) keep) u) [
    | inl (same, e) ↦ ap (λ l. l.address) e ∙ sym (ap (λ t. (lines t).address) same)
    | inr (ne, e) ↦ ap (λ l. l.address) e
  ]

  same_bytes : (u : ℕ) → (lines' u).bytes ≡ (lines u).bytes
  same_bytes u = elim (put-cases lines s (cleaned (lines s) keep) u) [
    | inl (same, e) ↦ ap (λ l. l.bytes) e ∙ sym (ap (λ t. (lines t).bytes) same)
    | inr (ne, e) ↦ ap (λ l. l.bytes) e
  ]

  -- The bytes of the line are in the memory, and no other line's are touched.
  stored : (k : ℕ) → k < line_bytes → m' ((lines s).address + k) ≡ get_or (lines s).bytes k 0
  stored k h =
      let f = v.full s b valid in
      let e : (lines s).address + k - (lines s).address ≡ k = omega arith in ground (arith, f, e)

  elsewhere :
      (a k : ℕ)
      → a % line_bytes ≡ 0
      → k < line_bytes
      → a ≢ (lines s).address
      → m' (a + k) ≡ m (a + k)
  elsewhere a k ha hk ne = ground (
    arith,
    apart a (lines s).address k (length (lines s).bytes) ha (v.aligned s b valid) ne hk
        (v.full s b valid),
  )

  clean_after :
      (u k : ℕ)
      → u < lines_below
      → k < line_bytes
      → (lines' u).valid ≡ true
      → (lines' u).dirty ≡ false
      → get_or (lines' u).bytes k 0 ≡ m' ((lines' u).address + k)
  clean_after u k hu hk hv hd = elim (put-cases lines s (cleaned (lines s) keep) u) [
    | inl (same, e) ↦
        subst (λ l. get_or l.bytes k 0 ≡ m' (l.address + k)) (sym e) (sym (stored k hk))
    | inr (ne, e) ↦
        let wv = was_valid u hv in
        let apart_from : (lines u).address ≢ (lines s).address =
          λ q. ne (v.unique u s hu b wv valid q) in
        subst (λ l. get_or l.bytes k 0 ≡ m' (l.address + k)) (sym e)
          (v.clean u k hu hk wv (sym (ap (λ l. l.dirty) e) ∙ hd)
            ∙ sym (elsewhere (lines u).address k (v.aligned u hu wv) hk apart_from))
  ]

  pub writeback-Inv : Inv lines' m'
  writeback-Inv = record {
    aligned =
        λ u hu hv. ap (λ a. a % line_bytes) (same_address u) ∙ v.aligned u hu (was_valid u hv);
    placed = λ u hu hv. ap (λ a. set_index a) (same_address u) ∙ v.placed u hu (was_valid u hv);
    full = λ u hu hv. ap (λ l. length l) (same_bytes u) ∙ v.full u hu (was_valid u hv);
    unique = λ u t hu ht hv hw e.
        v.unique u t hu ht (was_valid u hv) (was_valid t hw)
          (sym (same_address u) ∙ e ∙ same_address t);
    clean = clean_after;
  }

  held_before : (u a : ℕ) → holds (lines' u) a ≡ true → holds (lines u) a ≡ true
  held_before u a h =
      let w = holds_iff (lines' u) a h in
      holds_of (lines u) a (was_valid u w.0) (sym (same_address u) ∙ w.1)

  memory_part :
      (a : ℕ)
      → line_address a ≡ (lines s).address
      → m' a ≡ get_or (lines s).bytes (a % line_bytes) 0
  memory_part a e =
      let p = line_address_parts a in
      ap m' (p.0 ∙ ap (λ x. x + a % line_bytes) e) ∙ stored (a % line_bytes) p.2

  -- An address of the line reads as the line's byte: from the line or from the memory.
  view-written :
      (a : ℕ)
      → (lines s).address ≡ line_address a
      → view lines' m' a ≡ get_or (lines s).bytes (a % line_bytes) 0
  view-written a at = elim (holder lines' m' (line_address a) writeback-Inv) [
    | inl (t, ht, h) ↦
        let w = holds_iff (lines' t) (line_address a) h in
        let is_s : t ≡ s =
          v.unique t s ht b (was_valid t w.0) valid (sym (same_address t) ∙ w.1 ∙ sym at) in
        view-cached lines' m' t a writeback-Inv ht h
        ∙ ap (λ l. get_or l (a % line_bytes) 0) (same_bytes t ∙ ap (λ u. (lines u).bytes) is_s)
    | inr none_held ↦ view-uncached lines' m' a none_held ∙ memory_part a (sym at)
  ]

  pub writeback-view : (a : ℕ) → view lines' m' a ≡ view lines m a
  writeback-view a = elim (holder lines m (line_address a) v) [
    | inl (t, ht, h) ↦
        let w = holds_iff (lines t) (line_address a) h in
        elim (put-cases lines s (cleaned (lines s) keep) t) [
          | inl (same, e) ↦
              let at : (lines s).address ≡ line_address a =
                sym (ap (λ u. (lines u).address) same) ∙ w.1 in
              view-written a at
              ∙ sym (view-cached lines m s a v b (holds_of (lines s) (line_address a) valid at))
          | inr (ne, e) ↦
              view-cached lines' m' t a writeback-Inv ht
                (subst (λ l. holds l (line_address a) ≡ true) (sym e) h)
              ∙ ap (λ l. get_or l.bytes (a % line_bytes) 0) e
              ∙ sym (view-cached lines m t a v ht h)
        ]
    | inr none_held ↦
        let p = line_address_parts a in
        let differs = not_holds (lines s) (line_address a) (none_held s b) valid in
        view-uncached lines' m' a (λ u hu. elim (Bool-cases (holds (lines' u) (line_address a))) [
          | inr free ↦ free
          | inl held ↦ absurd (ground (arith, none_held u hu, held_before u (line_address a) held))
        ])
        ∙ ap m' p.0
        ∙ elsewhere (line_address a) (a % line_bytes) p.1 p.2 (λ q. differs (sym q))
        ∙ ap m (sym p.0)
        ∙ sym (view-uncached lines m a none_held)
  ]
