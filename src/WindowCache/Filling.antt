-- ===== src/WindowCache/Filling.antt =====
-- Filling a line from the memory, as it changes the lines of src/quetz_window_cache.h.
use quetz.Base.{
  ℕ, zero, suc, ◌+◌, ◌/◌, ◌%◌, ◌<◌, ◌≡◌, ◌≢◌, refl, sym, ap, ◌∙◌, true, false, ◌==◌, get_or, length,
  arith, Bool-cases, inl, inr, subst,
}
use quetz.WindowCache.State.{Line, holds, set_index, line_address, line_bytes, ways}
use quetz.WindowCache.Transact.{put, lines_below}
use quetz.WindowCache.Service.{load}
use quetz.WindowCache.View.{view, Inv, view-cached, view-uncached, holder, holds_iff}
use quetz.WindowCache.Coherent.{put-cases, line_address_parts, not_holds}

pub length-load : (m : ℕ → ℕ) (a n : ℕ) → length (load m a n) ≡ n
unfolding load
length-load m a zero = refl
length-load m a (suc n) = ap suc (length-load m (suc a) n)

get_or-load : (m : ℕ → ℕ) (a n k : ℕ) → k < n → get_or (load m a n) k 0 ≡ m (a + k)
unfolding load
get_or-load m a zero k h = absurd (omega arith)
get_or-load m a (suc n) zero h = ap m (omega arith)
get_or-load m a (suc n) (suc k) h = get_or-load m (suc a) n k (omega arith) ∙ ap m (omega arith)

abbrev pub loaded : (ℕ → ℕ) → ℕ → Line
loaded m a = record { bytes = load m a line_bytes; address = a; valid = true; dirty = false }

module _ (lines : ℕ → Line) (m : ℕ → ℕ) (s a : ℕ) (v : Inv lines m) (b : s < lines_below)
    (al : a % line_bytes ≡ 0) (pl : set_index a ≡ s / ways)
    (missing : (u : ℕ) → u < lines_below → holds (lines u) a ≡ false)
    (old : (lines s).valid ≡ true → (lines s).dirty ≡ false) where
  abbrev lines' : ℕ → Line
  lines' = put lines s (loaded m a)

  -- What holds of the loaded line and of the other valid lines holds of the lines after the fill.
  by_line :
      (P : Line → Type 0) (u : ℕ)
      → P (loaded m a)
      → (u ≢ s → (lines u).valid ≡ true → P (lines u))
      → (lines' u).valid ≡ true
      → P (lines' u)
  by_line P u one others h = elim (put-cases lines s (loaded m a) u) [
    | inl (same, e) ↦ subst P (sym e) one
    | inr (ne, e) ↦ subst P (sym e) (others ne (sym (ap (λ l. l.valid) e) ∙ h))
  ]

  unique_after :
      (u t : ℕ)
      → u < lines_below
      → t < lines_below
      → (lines' u).valid ≡ true
      → (lines' t).valid ≡ true
      → (lines' u).address ≡ (lines' t).address
      → u ≡ t
  unique_after u t hu ht hv hw q = elim (put-cases lines s (loaded m a) u) [
    | inl (same, e) ↦ elim (put-cases lines s (loaded m a) t) [
      | inl (same', e') ↦ same ∙ sym same'
      | inr (ne', e') ↦ absurd (
          not_holds (lines t) a (missing t ht) (sym (ap (λ l. l.valid) e') ∙ hw)
            (sym (ap (λ l. l.address) e') ∙ sym q ∙ ap (λ l. l.address) e))
    ]
    | inr (ne, e) ↦ elim (put-cases lines s (loaded m a) t) [
      | inl (same', e') ↦ absurd (
          not_holds (lines u) a (missing u hu) (sym (ap (λ l. l.valid) e) ∙ hv)
            (sym (ap (λ l. l.address) e) ∙ q ∙ ap (λ l. l.address) e'))
      | inr (ne', e') ↦
          v.unique u t hu ht (sym (ap (λ l. l.valid) e) ∙ hv) (sym (ap (λ l. l.valid) e') ∙ hw)
            (sym (ap (λ l. l.address) e) ∙ q ∙ ap (λ l. l.address) e')
    ]
  ]

  pub fill-Inv : Inv lines' m
  fill-Inv = record {
    aligned = λ u hu. by_line (λ l. l.address % line_bytes ≡ 0) u al (λ ne h. v.aligned u hu h);
    placed = λ u hu hv. elim (put-cases lines s (loaded m a) u) [
      | inl (same, e) ↦ ap (λ l. set_index l.address) e ∙ pl ∙ ap (λ x. x / ways) (sym same)
      | inr (ne, e) ↦
          ap (λ l. set_index l.address) e ∙ v.placed u hu (sym (ap (λ l. l.valid) e) ∙ hv)
    ];
    full = λ u hu.
        by_line (λ l. length l.bytes ≡ line_bytes) u (length-load m a line_bytes)
          (λ ne h. v.full u hu h);
    unique = unique_after;
    clean = λ u k hu hk hv.
        by_line (λ l. l.dirty ≡ false → get_or l.bytes k 0 ≡ m (l.address + k)) u
          (λ d. get_or-load m a line_bytes k hk) (λ ne h d. v.clean u k hu hk h d) hv;
  }

  -- The address of the fill reads as the memory, before it and after it.
  view-filled : (x : ℕ) → line_address x ≡ a → view lines' m x ≡ m x
  view-filled x at = elim (holder lines' m (line_address x) fill-Inv) [
    | inl (t, ht, h) ↦
        let w = holds_iff (lines' t) (line_address x) h in
        let p = line_address_parts x in
        view-cached lines' m t x fill-Inv ht h
        ∙ fill_byte t (x % line_bytes) ht p.2 w.0 (w.1 ∙ at)
        ∙ ap m (ap (λ y. y + x % line_bytes) (sym at) ∙ sym p.0)
    | inr none_held ↦ view-uncached lines' m x none_held
  ]
    where
      fill_byte :
          (t k : ℕ)
          → t < lines_below
          → k < line_bytes
          → (lines' t).valid ≡ true
          → (lines' t).address ≡ a
          → get_or (lines' t).bytes k 0 ≡ m (a + k)
      fill_byte t k ht hk hv q = elim (put-cases lines s (loaded m a) t) [
        | inl (same, e) ↦ ap (λ l. get_or l.bytes k 0) e ∙ get_or-load m a line_bytes k hk
        | inr (ne, e) ↦ absurd (
            not_holds (lines t) a (missing t ht) (sym (ap (λ l. l.valid) e) ∙ hv)
              (sym (ap (λ l. l.address) e) ∙ q))
      ]

  only_t :
      (t u x : ℕ)
      → t < lines_below
      → u < lines_below
      → holds (lines t) (line_address x) ≡ true
      → u ≢ t
      → holds (lines u) (line_address x) ≡ false
  only_t t u x ht hu h ne = elim (Bool-cases (holds (lines u) (line_address x))) [
    | inr free ↦ free
    | inl held ↦
        let w = holds_iff (lines t) (line_address x) h in
        let w' = holds_iff (lines u) (line_address x) held in
        absurd (ne (v.unique u t hu ht w'.0 w.0 (w'.1 ∙ sym w.1)))
  ]

  uncached-fill :
      (y : ℕ)
      → y ≢ a
      → ((u : ℕ) → u < lines_below → u ≢ s → holds (lines u) y ≡ false)
      → (u : ℕ) → u < lines_below
      → holds (lines' u) y ≡ false
  uncached-fill y ne others u hu = elim (put-cases lines s (loaded m a) u) [
    | inl (same, e) ↦ ap (λ l. holds l y) e ∙ ground (arith, ne)
    | inr (other, e) ↦ ap (λ l. holds l y) e ∙ others u hu other
  ]

  pub fill-view : (x : ℕ) → view lines' m x ≡ view lines m x
  fill-view x = elim (Bool-cases (line_address x == a)) [
    | inl same ↦
        let at : line_address x ≡ a = ground (arith, same) in
        view-filled x at
        ∙ sym (view-uncached lines m x (λ u hu. ap (λ y. holds (lines u) y) at ∙ missing u hu))
    | inr differs ↦
        let ne : line_address x ≢ a = ground (arith, differs) in
        elim (holder lines m (line_address x) v) [
          | inl (t, ht, h) ↦
              let w = holds_iff (lines t) (line_address x) h in
              let p = line_address_parts x in
              elim (put-cases lines s (loaded m a) t) [
                | inl (same, e) ↦
                    let dirty : (lines t).dirty ≡ false =
                      ap (λ u. (lines u).dirty) same
                      ∙ old (sym (ap (λ u. (lines u).valid) same) ∙ w.0) in
                    view-uncached lines' m x (
                      uncached-fill (line_address x) ne
                        (λ u hu other. only_t t u x ht hu h (λ q. other (q ∙ same))))
                    ∙ ap m (p.0 ∙ ap (λ y. y + x % line_bytes) (sym w.1))
                    ∙ sym (v.clean t (x % line_bytes) ht p.2 w.0 dirty)
                    ∙ sym (view-cached lines m t x v ht h)
                | inr (other, e) ↦
                    view-cached lines' m t x fill-Inv ht
                      (subst (λ l. holds l (line_address x) ≡ true) (sym e) h)
                    ∙ ap (λ l. get_or l.bytes (x % line_bytes) 0) e
                    ∙ sym (view-cached lines m t x v ht h)
              ]
          | inr none_held ↦
              view-uncached lines' m x
                (uncached-fill (line_address x) ne (λ u hu other. none_held u hu))
              ∙ sym (view-uncached lines m x none_held)
        ]
  ]
