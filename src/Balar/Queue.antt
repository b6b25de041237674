-- ===== src/Balar/Queue.antt =====
-- The queue that posted submissions form, as a specification: one runs, the others wait in order.
use quetz.Base.{
  suc, ℕ, ◌+◌, ◌-◌, ◌≡◌, ◌≤◌, ◌<◌, ◌^◌, List, [], ◌∷◌, ◌++◌, length, length-append, sym, subst,
  add32, add64, arith,
}
use quetz.Balar.State.{Doorbell}

-- The ids of what runs (one at most), the doorbells that wait, and the three counts that a guest can
-- read.
pub record Fifo : Type 0 where
  pub running : List ℕ
  pub waiting : List Doorbell
  pub submitted : ℕ
  pub completed : ℕ
  pub in_flight : ℕ

-- A submission within the depth goes to the end, the first that waits starts when nothing runs, and
-- what runs completes.
pub data Move (depth : ℕ) (a b : Fifo) : Type 0 where
  submits :
      (w : Doorbell)
      → add32 a.in_flight 1 ≤ depth
      → b ≡ record a {
        waiting = a.waiting ++ (w ∷ []);
        submitted = add64 a.submitted 1;
        in_flight = add32 a.in_flight 1;
      }
      → Move depth a b
  starts :
      (w : Doorbell) (ws : List Doorbell)
      → a.running ≡ []
      → a.waiting ≡ w ∷ ws
      → b ≡ record a { running = w.id ∷ []; waiting = ws }
      → Move depth a b
  completes :
      (id : ℕ)
      → a.running ≡ id ∷ []
      → b ≡ record a { running = []; completed = add64 a.completed 1; in_flight = a.in_flight - 1 }
      → Move depth a b

pub data Moves (depth : ℕ) : Fifo → Fifo → Type 0 where
  stay : {a b : Fifo} → a ≡ b → Moves depth a b
  move : {a b c : Fifo} → Move depth a b → Moves depth b c → Moves depth a c

pub Moves-trans :
    {depth : ℕ} {c : Fifo} {a b : Fifo} → Moves depth a b → Moves depth b c → Moves depth a c
Moves-trans {depth} {c} (stay e) r = subst (λ x. Moves depth x c) (sym e) r
Moves-trans {depth} {c} (move m n) r = move m (Moves-trans n r)

-- The counts agree with what is outstanding, which is within the depth.
pub record Fits (depth : ℕ) (a : Fifo) : Type 0 where
  pub counted : a.in_flight ≡ length a.running + length a.waiting
  pub bounded : a.in_flight ≤ depth
  pub ticket : a.submitted ≡ add64 a.completed a.in_flight
  pub one : length a.running ≤ 1

Move-Fits :
    (depth : ℕ) (a b : Fifo) → suc depth < 2 ^ 32 → Fits depth a → Move depth a b → Fits depth b
Move-Fits depth a b h f (submits w le e) =
    ground (arith, h, f, e, le, length-append a.waiting (w ∷ []))
Move-Fits depth a b h f (starts w ws r q e) = ground (arith, h, f, e, r, q)
Move-Fits depth a b h f (completes id r e) = ground (arith, h, f, e, r)

pub Moves-Fits :
    (depth : ℕ) (a b : Fifo) → suc depth < 2 ^ 32 → Fits depth a → Moves depth a b → Fits depth b
Moves-Fits depth a b h f (stay e) = subst (Fits depth) e f
Moves-Fits depth a b h f (move {b = x} m n) = Moves-Fits depth x b h (Move-Fits depth a x h f m) n
