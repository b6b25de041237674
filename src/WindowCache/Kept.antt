-- ===== src/WindowCache/Kept.antt =====
-- The requests of a read or a CPUSHL, served by the memory.
use quetz.Base.{
  ℕ, ◌+◌, ◌-◌, ◌%◌, ◌<◌, ◌≡◌, refl, sym, ap, ◌∙◌, Bool, true, false, not, ◌&&◌, Option, none, List,
  [], if◌then◌else◌, length, copy_at, arith, inl, inr, subst, ok,
}
use quetz.WindowCache.State.{
  Line, Cache, read, write, idle, fill, bypass_read, pushed, evict, line_bytes, ways,
}
use quetz.WindowCache.Transact.{put, lines_below, next_loop, next, complete, finish}
use quetz.WindowCache.Service.{load, store}
use quetz.WindowCache.View.{view, Inv}
use quetz.WindowCache.Coherent.{writeback-Inv, writeback-view}
use quetz.WindowCache.Filling.{fill-Inv, fill-view, length-load, loaded}
use quetz.WindowCache.Rounds.{Ready, Asked}

-- A cache with a request open, and the memory.
pub record Open (c : Cache) (m : ℕ → ℕ) : Type 0 where
  pub inv : Inv c.lines m
  pub active : c.active ≡ true
  pub not_writing : c.writing ≡ false
  pub counter : c.replacement < ways
  pub slot : c.pushing ≡ true → c.pending_slot < lines_below

-- No address reads differently, and the transaction is over or goes on.
pub record Kept (c : Cache) (m : ℕ → ℕ) (r : Cache × (ℕ → ℕ) × Option (List ℕ)) : Type 0 where
  pub inv : Inv r.0.lines r.1
  pub view : (a : ℕ) → view r.0.lines r.1 a ≡ view c.lines m a
  pub ready : r.2 ≡ none → Ready r.0 r.1

complete_fill :
    (c : Cache) (bytes : List ℕ)
    → c.active ≡ true
    → c.pending ≡ fill
    → length bytes ≡ line_bytes
    → complete c bytes
      ≡ ok (record c {
        lines =
            put c.lines c.pending_slot
              (record { bytes = bytes; address = c.pending_address; valid = true; dirty = false });
        replacement = (c.replacement + 1) % ways;
        pending = idle;
      })
unfolding complete
complete_fill c bytes a p l = ground (arith, a, p, l)

complete_read :
    (c : Cache) (bytes : List ℕ)
    → c.active ≡ true
    → c.pending ≡ bypass_read
    → length bytes ≡ c.pending_size
    → complete c bytes
      ≡ ok (record c {
        bytes = copy_at c.bytes c.offset bytes;
        offset = c.offset + c.pending_size;
        pending = idle;
      })
unfolding complete
complete_read c bytes a p l = ground (arith, a, p, l)

complete_evict :
    (c : Cache)
    → c.active ≡ true
    → c.pending ≡ evict
    → complete c []
      ≡ ok (record c {
        lines =
            put c.lines c.pending_slot
              (record (c.lines c.pending_slot) { valid = false; dirty = false });
        pending = idle;
      })
unfolding complete
complete_evict c a p = ground (arith, a, p)

complete_push :
    (c : Cache)
    → c.active ≡ true
    → c.pending ≡ pushed
    → (c.lines c.pending_slot).valid ≡ true
    → complete c []
      ≡ ok (record c {
        lines =
            put c.lines c.pending_slot
              (record (c.lines c.pending_slot) { valid = not c.invalidate_push; dirty = false });
        pushing = false;
        pending = idle;
      })
unfolding complete
complete_push c a p v = ground (arith, a, p, v)

-- The memory's answer to a read.
pub answer-read :
    (c : Cache) (m : ℕ → ℕ) (a n : ℕ)
    → Open c m
    → Asked c (read a n)
    → (c' : Cache) × (complete c (load m a n) ≡ ok c') × Kept c m (c', m, none)
answer-read c m a n o (inl (p, ea, en, f)) =
    let line : Line = record {
      bytes = load m a n;
      address = c.pending_address;
      valid = true;
      dirty = false;
    } in
    let same : loaded m a ≡ line =
      ap (λ (k : ℕ). record { bytes = load m a k; address = a; valid = true; dirty = false })
        (sym en)
      ∙ ap (λ (x : ℕ). record { bytes = load m a n; address = x; valid = true; dirty = false })
          ea in
    let i = fill-Inv c.lines m c.pending_slot a o.inv f.below f.aligned f.placed f.missing f.old in
    let w = fill-view c.lines m c.pending_slot a o.inv f.below f.aligned f.placed f.missing f.old in
    let i' = subst (λ l. Inv (put c.lines c.pending_slot l) m) same i in
    (
      _,
      complete_fill c (load m a n) o.active p (length-load m a n ∙ en),
      record {
        inv = i';
        view =
            λ x. subst (λ l. view (put c.lines c.pending_slot l) m x ≡ view c.lines m x) same (w x);
        ready = λ q. record {
          inv = i';
          active = o.active;
          free = refl;
          not_writing = o.not_writing;
          counter = omega arith;
          slot = o.slot;
        };
      },
    )
answer-read c m a n o (inr (p, en)) = (
  _,
  complete_read c (load m a n) o.active p (length-load m a n ∙ en),
  record {
    inv = o.inv;
    view = λ x. refl;
    ready = λ q. record {
      inv = o.inv;
      active = o.active;
      free = refl;
      not_writing = o.not_writing;
      counter = o.counter;
      slot = o.slot;
    };
  },
)

-- The memory's answer to a write, which writes the line of the pending slot back.
pub answer-write :
    (c : Cache) (m : ℕ → ℕ) (a : ℕ) (bytes : List ℕ)
    → Open c m
    → Asked c (write a bytes)
    → (c' : Cache) × (complete c [] ≡ ok c') × Kept c m (c', store m a bytes, none)
answer-write c m a bytes o (p, below, valid, ea, eb) =
    let s : ℕ = c.pending_slot in
    let line : Line = c.lines s in
    let same : store m line.address line.bytes ≡ store m a bytes =
      ap (λ (x : ℕ). store m x line.bytes) (sym ea) ∙ ap (λ (l : List ℕ). store m a l) (sym eb) in
    let i : (keep : Bool)
        → Inv (put c.lines s (record line { valid = keep; dirty = false })) (store m a bytes) =
      λ keep.
        subst (λ n. Inv (put c.lines s (record line { valid = keep; dirty = false })) n) same
          (writeback-Inv c.lines m s keep o.inv below valid) in
    let w : (keep : Bool) (x : ℕ)
        → view (put c.lines s (record line { valid = keep; dirty = false })) (store m a bytes) x
          ≡ view c.lines m x =
      λ keep x.
        subst
          (λ n.
            view (put c.lines s (record line { valid = keep; dirty = false })) n x
            ≡ view c.lines m x)
          same (writeback-view c.lines m s keep o.inv below valid x) in
    elim p [
      | inl evicted ↦ (
        _,
        complete_evict c o.active evicted,
        record {
          inv = i false;
          view = w false;
          ready = λ q. record {
            inv = i false;
            active = o.active;
            free = refl;
            not_writing = o.not_writing;
            counter = o.counter;
            slot = λ h. below;
          };
        },
      )
      | inr by_push ↦ (
        _,
        complete_push c o.active by_push valid,
        record {
          inv = i (not c.invalidate_push);
          view = w (not c.invalidate_push);
          ready = λ q. record {
            inv = i (not c.invalidate_push);
            active = o.active;
            free = refl;
            not_writing = o.not_writing;
            counter = o.counter;
            slot = λ h. below;
          };
        },
      )
    ]

pub next_access :
    (c : Cache)
    → c.active ≡ true
    → c.pending ≡ idle
    → c.pushing ≡ false
    → next c ≡ next_loop (c.count - c.offset) c
unfolding next
next_access c a p q = ground (arith, a, p, q)

pub next_push :
    (c : Cache)
    → c.active ≡ true
    → c.pending ≡ idle
    → c.pushing ≡ true
    → ((c.lines c.pending_slot).valid && (c.lines c.pending_slot).dirty) ≡ true
    → next c
      ≡ ok (
        record c { pending = pushed },
        write (c.lines c.pending_slot).address (c.lines c.pending_slot).bytes,
      )
unfolding next
next_push c a p q d = ground (arith, a, p, q, d)

pub next_drop :
    (c : Cache)
    → c.active ≡ true
    → c.pending ≡ idle
    → c.pushing ≡ true
    → ((c.lines c.pending_slot).valid && (c.lines c.pending_slot).dirty) ≡ false
    → next c
      ≡ ok (
          finish (record c {
            lines =
                (if c.invalidate_push
                  then put c.lines c.pending_slot
                      (record (c.lines c.pending_slot) { valid = false })
                  else c.lines);
            pushing = false;
          }))
unfolding next
next_drop c a p q d = ground (arith, a, p, q, d)
