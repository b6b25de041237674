-- ===== src/WindowCache/Push.antt =====
-- Dropping a line that is not dirty, as CPUSHL does in src/quetz_window_cache.h.
use quetz.Base.{
  ℕ, ◌+◌, ◌-◌, ◌<◌, ◌≡◌, sym, ap, ◌∙◌, Bool, true, false, ◌&&◌, ltb, leb, length, arith, Bool-cases,
  inl, inr, subst,
}
use quetz.WindowCache.State.{Line}
use quetz.WindowCache.Transact.{put, lines_below}
use quetz.WindowCache.Service.{store}
use quetz.WindowCache.View.{view, Inv}
use quetz.WindowCache.Coherent.{put-cases, writeback-Inv, writeback-view}

-- The memory already has the bytes of a line that is not dirty.
store_clean :
    (lines : ℕ → Line) (m : ℕ → ℕ) (s : ℕ)
    → Inv lines m
    → s < lines_below
    → (lines s).valid ≡ true
    → (lines s).dirty ≡ false
    → (a : ℕ) → store m (lines s).address (lines s).bytes a ≡ m a
store_clean lines m s v b h d a =
    elim (Bool-cases
      (leb (lines s).address a && ltb a ((lines s).address + length (lines s).bytes))) [
        | inr out ↦ ground (arith, out)
        | inl within ↦
            let k : ℕ = a - (lines s).address in
            let f = v.full s b h in
            let e : (lines s).address + k ≡ a = ground (arith, within) in
            ground (arith, within, v.clean s k b (ground (arith, within, f)) h d, ap m e)
      ]

put_same : (lines : ℕ → Line) (s : ℕ) (l : Line) → l ≡ lines s → (u : ℕ) → put lines s l u ≡ lines u
put_same lines s l e u = elim (put-cases lines s l u) [
  | inl (here, q) ↦ q ∙ e ∙ sym (ap lines here)
  | inr (there, q) ↦ q
]

pub drop_clean :
    (lines : ℕ → Line) (m : ℕ → ℕ) (s : ℕ)
    → Inv lines m
    → s < lines_below
    → ((lines s).valid && (lines s).dirty) ≡ false
    → Inv (put lines s (record (lines s) { valid = false })) m
      × ((a : ℕ) → view (put lines s (record (lines s) { valid = false })) m a ≡ view lines m a)
drop_clean lines m s v b e = elim (Bool-cases (lines s).valid) [
  | inl valid ↦
      let d : (lines s).dirty ≡ false = ground (arith, valid, e) in
      let same_m : store m (lines s).address (lines s).bytes ≡ m =
        λ i a. store_clean lines m s v b valid d a i in
      let clean : Line = record (lines s) { valid = false; dirty = false } in
      let dropped : Line = record (lines s) { valid = false } in
      let same_l : clean ≡ dropped =
        ap (λ (x : Bool). record (lines s) { valid = false; dirty = x }) (sym d) in
      (
        subst (λ l. Inv (put lines s l) m) same_l
            (subst (λ n. Inv (put lines s clean) n) same_m
              (writeback-Inv lines m s false v b valid)),
        λ a.
            subst (λ l. view (put lines s l) m a ≡ view lines m a) same_l
              (subst (λ n. view (put lines s clean) n a ≡ view lines m a) same_m
                (writeback-view lines m s false v b valid a)),
      )
  | inr invalid ↦
      let dropped : Line = record (lines s) { valid = false } in
      let same_l : dropped ≡ lines s =
        ap (λ (x : Bool). record (lines s) { valid = x }) (sym invalid) in
      let same : put lines s dropped ≡ lines = λ i u. put_same lines s dropped same_l u i in
      (subst (λ ls. Inv ls m) (sym same) v, λ a. ap (λ ls. view ls m a) same)
]
