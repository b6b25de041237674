-- ===== src/WindowCache/Rounds.antt =====
-- What next asks for in a read or a CPUSHL (src/quetz_window_cache.h).
use quetz.Base.{
  ℕ, zero, suc, ◌+◌, ◌-◌, ◌*◌, ◌/◌, ◌%◌, ◌≤◌, ◌<◌, min, ◌≡◌, refl, sym, ◌∙◌, true, false, ◌&&◌,
  Option, none, some, List, [], ltb, leb, if◌then◌else◌, arith, Bool-cases, Option-cases, inl, inr,
  ◌⊎◌, subst, ok,
}
use quetz.WindowCache.State.{
  Line, Cache, Action, done, read, write, idle, fill, bypass_read, pushed, evict, find, holds,
  set_index, line_address, line_bytes, ways, sets, invalid_from, victim, mode, bit,
}
use quetz.WindowCache.Transact.{lines_below, next_chunk, next_loop, finish}
use quetz.WindowCache.View.{Inv, none-holds}
use quetz.WindowCache.Coherent.{line_address_parts}

-- A cache in a transaction that reads or pushes, with no request open.
pub record Ready (c : Cache) (m : ℕ → ℕ) : Type 0 where
  pub inv : Inv c.lines m
  pub active : c.active ≡ true
  pub free : c.pending ≡ idle
  pub not_writing : c.writing ≡ false
  pub counter : c.replacement < ways
  pub slot : c.pushing ≡ true → c.pending_slot < lines_below

-- What a request for a missing line asks: an aligned line, of a slot in its set, which loses nothing.
pub record Fills (lines : ℕ → Line) (slot a : ℕ) : Type 0 where
  pub aligned : a % line_bytes ≡ 0
  pub placed : set_index a ≡ slot / ways
  pub below : slot < lines_below
  pub missing : (u : ℕ) → u < lines_below → holds (lines u) a ≡ false
  pub old : (lines slot).valid ≡ true → (lines slot).dirty ≡ false

-- What an action asks for, by what is pending.
abbrev pub Asked : Cache → Action → Type 0
Asked c (done bytes) = Unit
Asked c (read a n) =
    ((c.pending ≡ fill)
      × (a ≡ c.pending_address)
      × (n ≡ line_bytes)
      × Fills c.lines c.pending_slot a)
    ⊎ ((c.pending ≡ bypass_read) × (n ≡ c.pending_size))
Asked c (write a bytes) =
    ((c.pending ≡ evict) ⊎ (c.pending ≡ pushed))
    × (c.pending_slot < lines_below)
    × ((c.lines c.pending_slot).valid ≡ true)
    × (a ≡ (c.lines c.pending_slot).address)
    × (bytes ≡ (c.lines c.pending_slot).bytes)

invalid_from-some :
    (lines : ℕ → Line) (slot left : ℕ) {s : ℕ}
    → invalid_from lines slot left ≡ some s
    → (slot ≤ s) × (s < slot + left)
unfolding invalid_from
invalid_from-some lines slot zero e = ground arith
invalid_from-some lines slot (suc n) {s} e =
    ground (arith, invalid_from-some lines (suc slot) n {s = s})

-- The victim lies in the set.
victim-placed :
    (c : Cache) (set : ℕ)
    → c.replacement < ways
    → set < sets
    → (set ≡ victim c set / ways) × (victim c set < lines_below)
unfolding victim
victim-placed c set h k =
    let first : ℕ = (if bit 27 c.cacr then 2 else 0) in
    elim (Option-cases (invalid_from c.lines (set * ways + first) (ways - first))) [
      | inl e ↦ ground (arith, e)
      | inr (t, e) ↦
          ground (arith, e, invalid_from-some c.lines (set * ways + first) (ways - first) {s = t} e)
    ]

-- How the loop goes on after a round: further along, or with a request.
abbrev After : Cache → Cache × Option Action → Type 0
After c (c', none) = (c'.pending ≡ c.pending) × (c.offset < c'.offset) × (c'.count ≡ c.count)
After c (c', some a) = Asked c' a

-- What a round leaves as it was.
record Moved (c : Cache) (r : Cache × Option Action) : Type 0 where
  lines : r.0.lines ≡ c.lines
  active : r.0.active ≡ c.active
  writing : r.0.writing ≡ c.writing
  pushing : r.0.pushing ≡ c.pushing
  counter : r.0.replacement ≡ c.replacement
  after : After c r

fill_round :
    (c : Cache)
    → c.writing ≡ false
    → let line = line_address (c.address + c.offset) in
      let slot = victim c (set_index line) in
      find c.lines line ≡ none
      → leb 2 (mode c (c.address + c.offset)) ≡ false
      → ((c.lines slot).valid && (c.lines slot).dirty) ≡ false
      → Fills c.lines slot line
      → Moved c (next_chunk c)
unfolding next_chunk
fill_round c w e through clean fills =
    let at : ℕ = c.address + c.offset in
    let line : ℕ = line_address at in
    let asked : Cache = record c {
      pending_size = min (c.count - c.offset) (line_bytes - (at - line));
      pending_address = line;
      pending_slot = victim c (set_index line);
      pending = fill;
    } in
    let e' : next_chunk c ≡ (asked, some (read line line_bytes)) =
      ground (arith, e, through, clean, w) in
    subst (λ r. Moved c r) (sym e')
      (record {
        lines = refl;
        active = refl;
        writing = refl;
        pushing = refl;
        counter = refl;
        after = inl (refl, refl, refl, fills);
      })

next_chunk-Moved : (c : Cache) (m : ℕ → ℕ) → Ready c m → c.offset < c.count → Moved c (next_chunk c)
unfolding next_chunk
next_chunk-Moved c m v h =
    let at : ℕ = c.address + c.offset in
    let line : ℕ = line_address at in
    elim (Option-cases (find c.lines line)) [
      | inl e ↦ elim (Bool-cases (leb 2 (mode c at))) [
        | inl by ↦ ground (arith, e, by, v.not_writing)
        | inr through ↦
            let slot : ℕ = victim c (set_index line) in
            let place = victim-placed c (set_index line) v.counter (omega arith) in
            elim (Bool-cases ((c.lines slot).valid && (c.lines slot).dirty)) [
              | inl dirty ↦ ground (arith, e, through, dirty, v.not_writing, place)
              | inr clean ↦
                  let fills : Fills c.lines slot line = record {
                    aligned = (line_address_parts at).1;
                    placed = place.0;
                    below = place.1;
                    missing = none-holds c.lines m line v.inv e;
                    old = λ valid. ground (arith, valid, clean);
                  } in
                  fill_round c v.not_writing e through clean fills
            ]
      ]
      | inr (s, e) ↦ ground (arith, e, v.not_writing)
    ]

next_loop_end : (n : ℕ) (c : Cache) → ltb c.offset c.count ≡ false → next_loop n c ≡ ok (finish c)
unfolding next_loop
next_loop_end zero c e = ground (arith, e)
next_loop_end (suc n) c e = ground (arith, e)

next_loop_on :
    (n : ℕ) (c : Cache)
    → ltb c.offset c.count ≡ true
    → (next_chunk c).1 ≡ none
    → next_loop (suc n) c ≡ next_loop n (next_chunk c).0
unfolding next_loop
next_loop_on n c e o = ground (arith, e, o)

next_loop_ask :
    (n : ℕ) (c : Cache) {a : Action}
    → ltb c.offset c.count ≡ true
    → (next_chunk c).1 ≡ some a
    → next_loop (suc n) c ≡ ok ((next_chunk c).0, a)
unfolding next_loop
next_loop_ask n c {a} e o = ground (arith, e, o)

-- What next returns: the end of the transaction, or a request.
pub record Asks (c : Cache) (r : Cache × Action) : Type 0 where
  pub lines : r.0.lines ≡ c.lines
  pub writing : r.0.writing ≡ c.writing
  pub counter : r.0.replacement ≡ c.replacement
  pub pushing : r.0.pushing ≡ c.pushing
  pub asks : ((bytes : List ℕ) × (r.1 ≡ done bytes)) ⊎ ((r.0.active ≡ true) × Asked r.0 r.1)

ended-Asks : (c : Cache) → Asks c (finish c)
ended-Asks c = record {
  lines = refl;
  writing = refl;
  counter = refl;
  pushing = refl;
  asks = inl ((if c.writing then [] else c.bytes), refl);
}

moved-Ready :
    (c c' : Cache) (m : ℕ → ℕ) → Ready c m → c.pushing ≡ false → Moved c (c', none) → Ready c' m
moved-Ready c c' m v p w = record {
  inv = subst (λ l. Inv l m) (sym w.lines) v.inv;
  active = w.active ∙ v.active;
  free = w.after.0 ∙ v.free;
  not_writing = w.writing ∙ v.not_writing;
  counter = subst (λ n. n < ways) (sym w.counter) v.counter;
  slot = λ q. absurd (ground (arith, q, p, w.pushing));
}

-- The loop ends: at the end of the access, or with a request.
pub next_loop-Asks :
    (fuel : ℕ) (c : Cache) (m : ℕ → ℕ)
    → Ready c m
    → c.pushing ≡ false
    → c.count - c.offset ≤ fuel
    → (r : Cache × Action) × (next_loop fuel c ≡ ok r) × Asks c r
next_loop-Asks zero c m v p h = (finish c, next_loop_end zero c (ground (arith, h)), ended-Asks c)
next_loop-Asks (suc n) c m v p h = elim (Bool-cases (ltb c.offset c.count)) [
  | inr ended ↦ (finish c, next_loop_end (suc n) c ended, ended-Asks c)
  | inl going ↦
      let r = next_chunk c in
      let moved = next_chunk-Moved c m v (ground (arith, going)) in
      elim (Option-cases r.1) [
        | inl e ↦
            let moved' : Moved c (r.0, none) = subst (λ o. Moved c (r.0, o)) e moved in
            let (r', q, k) =
              next_loop-Asks n r.0 m (moved-Ready c r.0 m v p moved') (moved'.pushing ∙ p)
                (ground (arith, moved'.after, h, going)) in
            (
              r',
              next_loop_on n c going e ∙ q,
              record {
                lines = k.lines ∙ moved'.lines;
                writing = k.writing ∙ moved'.writing;
                counter = k.counter ∙ moved'.counter;
                pushing = k.pushing ∙ moved'.pushing;
                asks = k.asks;
              },
            )
        | inr (a, e) ↦
            let moved' : Moved c (r.0, some a) = subst (λ o. Moved c (r.0, o)) e moved in
            (
              (r.0, a),
              next_loop_ask n c {a = a} going e,
              record {
                lines = moved'.lines;
                writing = moved'.writing;
                counter = moved'.counter;
                pushing = moved'.pushing;
                asks = inr (moved'.active ∙ v.active, moved'.after);
              },
            )
      ]
]
