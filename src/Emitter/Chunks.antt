-- ===== src/Emitter/Chunks.antt =====
-- The parts that a cached access is cut into: how many there are, and that they tile the access.
use quetz.Base.{
  ℕ, zero, suc, ◌+◌, ◌-◌, ◌/◌, ◌%◌, ◌≤◌, ◌<◌, ◌^◌, min, ◌≡◌, refl, ◌∙◌, ◌&&◌, List, [], ◌∷◌, ltb,
  if◌then◌else◌, length, take, drop, replicate, add64, add32, arith, Bool-cases, inl, inr, ◌⊎◌,
  length-append, length-take, length-drop, length-replicate,
}
use native.Mathlib.Decide.{dec_le}
use quetz.Memory.{memory_chunk_size, memory_slots}
use quetz.Memory.Spans.{memory_chunk_size_bounds}
use quetz.Emitter.{
  Emitter, Access, Request, read, write, reading, writing, part, part_bytes, send_part, issue_loop,
}

abbrev start : Request → ℕ
start (read a n) = a
start (write a bytes) = a

abbrev size_of : Request → ℕ
size_of (read a n) = n
size_of (write a bytes) = length bytes

-- Requests, newest first, that lie end to end from `lo` to `hi`, none of them empty and none across
-- a line.
abbrev Tiles : ℕ → List Request → ℕ → ℕ → Type 0
Tiles line [] lo hi = lo ≡ hi
Tiles line (r ∷ rs) lo hi =
    (start r + size_of r ≡ hi)
    × (0 < size_of r)
    × (start r % line + size_of r ≤ line)
    × Tiles line rs lo (start r)

mod-line_end : (addr line : ℕ) → 0 < line → (addr + (line - addr % line)) % line ≡ 0
mod-line_end addr line h = grind arith

div-line-add : (x line : ℕ) → 0 < line → (line + x) / line ≡ 1 + x / line
div-line-add x line h = grind arith

div-small : (x line : ℕ) → x < line → x / line ≡ 0
div-small x line h = grind arith

div-le : (x line m : ℕ) → 0 < line → x < line + m → x / line ≤ m
div-le x line m h b = grind arith

mod-below : (x line : ℕ) → 0 < line → x % line < line
mod-below x line h = omega arith

memory_slots_pos :
    (addr n line : ℕ)
    → 0 < line
    → line ≤ 2 ^ 63
    → 0 < n
    → n < 2 ^ 32
    → memory_slots addr n line ≡ 1 + (addr % line + n - 1) / line
unfolding memory_slots
memory_slots_pos addr n line hl sl hn sn =
    ground (arith, mod-below addr line hl, div-le (addr % line + n - 1) line (n - 1) hl)

memory_slots_zero : (addr line : ℕ) → memory_slots addr 0 line ≡ 0
unfolding memory_slots
memory_slots_zero addr line = refl

-- One part less is one slot less.
slots-chunk :
    (addr n line : ℕ)
    → 0 < line
    → line ≤ 2 ^ 63
    → 0 < n
    → n < 2 ^ 32
    → addr + n ≤ 2 ^ 64
    → let c = memory_chunk_size addr n line n in
      memory_slots addr n line ≡ 1 + memory_slots (add64 addr c) (n - c) line
unfolding memory_chunk_size
slots-chunk addr n line hl sl hn sn h =
    let a : ℕ = addr % line in
    let m : ℕ = n - (line - a) in
    elim (dec_le n (line - a)) [
      | yes fits ↦ ground (
        arith,
        mod-below addr line hl,
        memory_slots_pos addr n line hl sl hn sn,
        memory_slots_zero (add64 addr n) line,
        div-small (a + n - 1) line,
      )
      | no over ↦ ground (
        arith,
        mod-below addr line hl,
        mod-line_end addr line hl,
        div-line-add (m - 1) line hl,
        memory_slots_pos addr n line hl sl hn sn,
        memory_slots_pos (addr + (line - a)) m line hl sl,
      )
    ]

-- The payload of a write is the 64 bytes of a command.
abbrev IsFull : Access → Type 0
IsFull reading = Unit {0}
IsFull (writing raw) = length raw ≡ 64

length-part_bytes :
    (raw : List ℕ) (offset chunk : ℕ)
    → length raw ≡ 64
    → length (part_bytes raw offset chunk) ≡ chunk
unfolding part_bytes
length-part_bytes raw offset chunk h =
    let copied : ℕ = if ltb offset 64 then min chunk (64 - offset) else 0 in
    ground (
      arith,
      length-append (take copied (drop offset raw)) (replicate (chunk - copied) 0),
      length-take copied (drop offset raw),
      length-drop offset raw,
      length-replicate {A = ℕ} (chunk - copied) 0,
    )

part_lem :
    (acc : Access) (addr offset chunk : ℕ)
    → IsFull acc
    → (size_of (part acc addr offset chunk) ≡ chunk) × (start (part acc addr offset chunk) ≡ addr)
part_lem reading addr offset chunk f = (refl, refl)
part_lem (writing raw) addr offset chunk f = (length-part_bytes raw offset chunk f, refl)

send_part_lem :
    (acc : Access) (e : Emitter) (now addr offset chunk : ℕ)
    → let e' = send_part acc e now addr offset chunk in
      (e'.cache_line_size ≡ e.cache_line_size) × (e'.sent ≡ part acc addr offset chunk ∷ e.sent)
unfolding send_part
send_part_lem acc e now addr offset chunk = (refl, refl)

-- What the loop has done when it stops, begun at `parts` with `remaining` bytes to go: it has sent
-- as many parts as the budget and the access allow, they tile the access so far, and what was sent
-- before is below them.
pub record Issued (line lo vaddr : ℕ) (e : Emitter) (offset remaining parts budget : ℕ)
    (r : Emitter × ℕ × ℕ) : Type 0 where
  pub count : r.2 ≡ min budget (parts + memory_slots (vaddr + offset) remaining line)
  pub tiles : Tiles line (take r.2 r.0.sent) lo (vaddr + r.1)
  pub within : r.1 ≤ offset + remaining
  pub complete : (r.2 < budget) → r.1 ≡ offset + remaining
  pub kept : drop r.2 r.0.sent ≡ drop parts e.sent
  pub line_kept : r.0.cache_line_size ≡ line

stopped-Issued :
    (line lo vaddr : ℕ) (e : Emitter) (offset remaining parts budget : ℕ)
    → e.cache_line_size ≡ line
    → (remaining ≡ 0) ⊎ (parts ≡ budget)
    → parts ≤ budget
    → Tiles line (take parts e.sent) lo (vaddr + offset)
    → Issued line lo vaddr e offset remaining parts budget (e, offset, parts)
stopped-Issued line lo vaddr e offset remaining parts budget el s hp t = record {
  count = ground (arith, memory_slots_zero (vaddr + offset) line);
  tiles = t;
  within = omega arith;
  complete = ground arith;
  kept = refl;
  line_kept = el;
}

next-slots :
    (vaddr offset remaining line c : ℕ)
    → 0 < line
    → line ≤ 2 ^ 63
    → 0 < remaining
    → remaining < 2 ^ 32
    → vaddr + offset + remaining ≤ 2 ^ 64
    → c ≡ memory_chunk_size (vaddr + offset) remaining line remaining
    → memory_slots (vaddr + offset) remaining line
      ≡ 1 + memory_slots (vaddr + (offset + c)) (remaining - c) line
next-slots vaddr offset remaining line c hl sl hr sr sa e =
    let addr : ℕ = vaddr + offset in
    let b = memory_chunk_size_bounds addr remaining line remaining hr hr in
    let s = slots-chunk addr remaining line hl sl hr sr sa in
    elim (dec_le remaining c) [
      | yes last ↦ ground (
        arith,
        s,
        b,
        memory_slots_zero (add64 addr c) line,
        memory_slots_zero (vaddr + (offset + c)) line,
      )
      | no more ↦
          let t : add64 addr c ≡ vaddr + (offset + c) = omega arith in ground (arith, s, t, e)
    ]

-- From the end of a round to its beginning.
widen-Issued :
    (line lo vaddr : ℕ) (e e' : Emitter) (offset remaining parts budget c : ℕ) (r : Emitter × ℕ × ℕ)
    → drop (suc parts) e'.sent ≡ drop parts e.sent
    → c ≤ remaining
    → memory_slots (vaddr + offset) remaining line
      ≡ 1 + memory_slots (vaddr + (offset + c)) (remaining - c) line
    → Issued line lo vaddr e' (offset + c) (remaining - c) (suc parts) budget r
    → Issued line lo vaddr e offset remaining parts budget r
widen-Issued line lo vaddr e e' offset remaining parts budget c r k hc hs v = record {
  count = ground arith;
  tiles = v.tiles;
  within = omega arith;
  complete = λ h. omega (arith, v.complete h);
  kept = v.kept ∙ k;
  line_kept = v.line_kept;
}

pub issue_loop-Issued :
    (fuel : ℕ) (acc : Access) (e : Emitter) (now vaddr offset remaining parts budget line lo : ℕ)
    → e.cache_line_size ≡ line
    → 0 < line
    → line ≤ 2 ^ 63
    → IsFull acc
    → remaining ≤ fuel
    → vaddr + offset + remaining ≤ 2 ^ 64
    → offset + remaining < 2 ^ 32
    → parts ≤ budget
    → Tiles line (take parts e.sent) lo (vaddr + offset)
    → Issued line lo vaddr e offset remaining parts budget
        (issue_loop fuel acc e now (add64 vaddr offset) offset remaining parts budget)
unfolding issue_loop
issue_loop-Issued zero acc e now vaddr offset remaining parts budget line lo el hl sl f hf sa so hp
      t =
    stopped-Issued line lo vaddr e offset remaining parts budget el (inl (omega arith)) hp t
issue_loop-Issued (suc k) acc e now vaddr offset remaining parts budget line lo el hl sl f hf sa so
      hp t =
    elim (Bool-cases (ltb 0 remaining && ltb parts budget)) [
      | inr stop ↦
          rw stop
            (stopped-Issued line lo vaddr e offset remaining parts budget el (ground arith) hp t)
      | inl going ↦
          let g : (0 < remaining) × (parts < budget) = ground arith in
          let addr : ℕ = add64 vaddr offset in
          let a : add64 vaddr offset ≡ vaddr + offset = omega arith in
          let c : ℕ = memory_chunk_size addr remaining e.cache_line_size remaining in
          let e' : Emitter = send_part acc e now addr offset c in
          let b : (0 < c) × (c ≤ remaining) × (addr % line + c ≤ line) =
            ground (arith, memory_chunk_size_bounds addr remaining e.cache_line_size remaining) in
          let e1 : add64 addr c ≡ add64 vaddr (offset + c) = omega arith in
          let e2 : add32 offset c ≡ offset + c = omega arith in
          let e3 : parts + 1 ≡ suc parts = omega arith in
          let s = send_part_lem acc e now addr offset c in
          let p = part_lem acc addr offset c f in
          rw (going, e1, e2, e3)
            (widen-Issued line lo vaddr e e' offset remaining parts budget c _ (ground (arith, s))
              b.1
              (next-slots vaddr offset remaining line c hl sl g.0 (omega arith) sa (ground arith))
              (issue_loop-Issued k acc e' now vaddr (offset + c) (remaining - c) (suc parts) budget
                line lo (s.0 ∙ el) hl sl f (omega arith) (omega arith) (omega arith) g.1
                (ground (arith, s, p, b, a))))
    ]
