-- ===== src/WindowCache/Transact.antt =====
-- The operations of WindowDataCache. They fail with the exceptions of the source.
use quetz.Base.{
  ℕ, zero, suc, ◌+◌, ◌-◌, ◌*◌, ◌/◌, ◌%◌, ◌^◌, min, Bool, true, false, not, ◌&&◌, ◌||◌, Option, none,
  some, List, [], ◌∷◌, ◌++◌, ltb, leb, ◌==◌, if◌then◌else◌, bit_and, set, take, drop, length,
  replicate, copy_at, Outcome, ok, err, ◌>>=◌, logic_error, invalid_argument, runtime_error,
  out_of_fuel,
}
use quetz.WindowCache.State.{
  Region, Line, idle, fill, bypass_read, bypass_write, write_through, pushed, evict, Action, done,
  read, write, Cache, line_bytes, ways, bit, region_for, set_index, line_address, find, victim,
  mode,
}

abbrev pub put : (ℕ → Line) → ℕ → Line → ℕ → Line
put lines slot line = λ s. if s == slot then line else lines s

-- addRegion
abbrev overlaps : Region → ℕ → ℕ → Bool
overlaps r base size = ltb base (r.base + r.size) && ltb r.base (base + size)

unfoldable pub overlap_some : List Region → ℕ → ℕ → Bool
overlap_some [] base size = false
overlap_some (r ∷ rs) base size = overlaps r base size || overlap_some rs base size

unfoldable pub add_region : Cache → ℕ → ℕ → Outcome Cache
add_region c base size =
    if c.active
    then err logic_error
    else if (size == 0)
        || ltb (1024 * 1024) size
        || leb (2 ^ 32) base
        || ltb (2 ^ 32 - 1 - base) (size - 1)
        || not (base % line_bytes == 0)
        || not (size % line_bytes == 0)
    then err invalid_argument
    else if overlap_some c.regions base size
    then err invalid_argument
    else ok (record c { regions = c.regions ++ (record { base = base; size = size } ∷ []) })

-- configure
unfoldable pub configure : Cache → ℕ → ℕ → Outcome Cache
configure c base size =
    if c.active || not (length c.regions == 0) then err logic_error else add_region c base size

-- reset
unfoldable pub reset : Cache → Outcome Cache
reset c = if c.active then err logic_error else ok (record c { cacr = 0; acr = replicate 4 0 })

-- start
unfoldable pub start : Cache → Outcome Cache
start c =
    if c.active
    then err logic_error
    else ok (record c {
      active = true;
      pending = idle;
      pushing = false;
      count = 0;
      offset = 0;
      bytes = [];
      writing = false;
    })

-- access: a read of `size` bytes, or a write of the bytes given.
unfoldable pub access : Cache → ℕ → ℕ → Bool → List ℕ → Outcome Cache
access c address size writing bytes = elim (region_for c.regions address) [
  | none ↦ err invalid_argument
  | some r ↦
      if (size == 0)
        || ltb 8 size
        || ltb (r.size - (address - r.base)) size
        || (writing && not (length bytes == size))
      then err invalid_argument
      else start c >>= (λ c'. ok (record c' {
        address = address;
        count = size;
        offset = 0;
        writing = writing;
        bytes = (if writing then bytes else replicate size 0);
      }))
]

abbrev pub lines_below : ℕ
lines_below = 2048

-- The lines below a slot whose dirty bytes an invalidation discards.
unfoldable pub count_dirty : (ℕ → Line) → ℕ → ℕ
count_dirty lines zero = 0
count_dirty lines (suc n) =
    count_dirty lines n + (if (lines n).valid && (lines n).dirty then 1 else 0)

-- movec, the write of a cache control register.
unfoldable pub movec : Cache → ℕ → ℕ → Outcome Cache
movec c reg value =
    if not (reg == 2) && not (leb 4 reg && leb reg 7)
    then err invalid_argument
    else if (reg == 2) && not (value / 2 ^ 29 % 4 == 0)
    then err invalid_argument
    else if (reg == 4 || reg == 5) && bit 2 value
    then err invalid_argument
    else start c >>= (λ c'.
      if reg == 2
      then (let kept = bit_and value (2 ^ 32 - 1 - 0x01040100) in
          if bit 24 value
          then ok (record c' {
            cacr = kept;
            dirty_discards = c'.dirty_discards + count_dirty c'.lines lines_below;
            lines = λ s. record (c'.lines s) { valid = false; dirty = false };
          })
          else ok (record c' { cacr = kept }))
      else ok (record c' { acr = set c'.acr (reg - 4) value }))

-- push, the CPUSHL instruction.
unfoldable pub push : Cache → ℕ → ℕ → Outcome Cache
push c instruction operand =
    if not (bit_and instruction 0xff38 == 0xf428) || (bit_and instruction 0xc0 == 0)
    then err invalid_argument
    else start c >>= (λ c'.
      if not (bit 6 instruction)
      then ok c'
      else ok (record c' {
        pushing = true;
        invalidate_push = not (bit 28 c'.cacr);
        pending_slot = set_index operand * ways + operand % ways;
      }))

-- One round of next's loop: the action that it returns, or none where the round is a hit.
unfoldable pub next_chunk : Cache → Cache × Option Action
next_chunk c0 = elim (find c0.lines line) [
  | none ↦
      if leb 2 m || (c0.writing && (m == 0))
      then bypass
      else (let slot = victim c0 (set_index line) in
          let old = c0.lines slot in
          if old.valid && old.dirty
          then (
            record c { pending_slot = slot; pending = evict },
            some (write old.address old.bytes),
          )
          else (record c { pending_slot = slot; pending = fill }, some (read line line_bytes)))
  | some slot ↦
      if leb 2 m
      then bypass
      else if c0.writing
      then (let l = c0.lines slot in
          let stored = record l { bytes = copy_at l.bytes in_line part } in
          if m == 0
          then (
            record c {
              lines = put c0.lines slot stored;
              pending = write_through;
              pending_slot = slot;
            },
            some (write at part),
          )
          else (
            record c {
              lines = put c0.lines slot (record stored { dirty = true });
              offset = c0.offset + n;
            },
            none,
          ))
      else (
        record c {
          bytes = copy_at c0.bytes c0.offset (take n (drop in_line (c0.lines slot).bytes));
          offset = c0.offset + n;
        },
        none,
      )
]
  where
    at : ℕ
    at = c0.address + c0.offset

    line : ℕ
    line = line_address at

    in_line : ℕ
    in_line = at - line

    n : ℕ
    n = min (c0.count - c0.offset) (line_bytes - in_line)

    m : ℕ
    m = mode c0 at

    part : List ℕ
    part = take n (drop c0.offset c0.bytes)

    c : Cache
    c = record c0 { pending_size = n; pending_address = line }

    bypass : Cache × Option Action
    bypass =
        if c0.writing
        then (record c { pending = bypass_write }, some (write at part))
        else (record c { pending = bypass_read }, some (read at n))

abbrev pub finish : Cache → Cache × Action
finish c = (record c { active = false }, done (if c.writing then [] else c.bytes))

-- The loop `while (offset_ < count_)`. A hit moves on by a byte at least.
unfoldable pub next_loop : ℕ → Cache → Outcome (Cache × Action)
next_loop zero c = if ltb c.offset c.count then err out_of_fuel else ok (finish c)
next_loop (suc fuel) c =
    let r = next_chunk c in
    let rest = next_loop fuel r.0 in
    if ltb c.offset c.count
    then elim (r.1) [ some a ↦ ok (r.0, a) | none ↦ rest ]
    else ok (finish c)

-- next
unfoldable pub next : Cache → Outcome (Cache × Action)
next c =
    if not c.active || not (elim (c.pending) [ idle ↦ true | _ ↦ false ])
    then err logic_error
    else if c.pushing
    then (let l = c.lines c.pending_slot in
        if l.valid && l.dirty
        then ok (record c { pending = pushed }, write l.address l.bytes)
        else ok (
            finish (record c {
              lines =
                  (if c.invalidate_push
                    then put c.lines c.pending_slot (record l { valid = false })
                    else c.lines);
              pushing = false;
            })))
    else next_loop (c.count - c.offset) c

-- complete
unfoldable pub complete : Cache → List ℕ → Outcome Cache
complete c response = if not c.active then err logic_error else elim (c.pending) [
  | idle ↦ err logic_error
  | fill ↦
      if not (length response == line_bytes)
      then err runtime_error
      else ok (record c {
        lines =
            put c.lines c.pending_slot (record {
              bytes = response;
              address = c.pending_address;
              valid = true;
              dirty = false;
            });
        replacement = (c.replacement + 1) % ways;
        pending = idle;
      })
  | bypass_read ↦
      if not (length response == c.pending_size)
      then err runtime_error
      else ok (record c {
        bytes = copy_at c.bytes c.offset response;
        offset = c.offset + c.pending_size;
        pending = idle;
      })
  | pushed ↦
      let l = c.lines c.pending_slot in
      ok (record c {
        lines =
            put c.lines c.pending_slot
              (record l { dirty = false; valid = (if c.invalidate_push then false else l.valid) });
        pushing = false;
        pending = idle;
      })
  | evict ↦ ok (record c {
    lines =
        put c.lines c.pending_slot
          (record (c.lines c.pending_slot) { valid = false; dirty = false });
    pending = idle;
  })
  | write_through ↦ ok (record c {
    lines = put c.lines c.pending_slot (record (c.lines c.pending_slot) { dirty = false });
    offset = c.offset + c.pending_size;
    pending = idle;
  })
  | bypass_write ↦ ok (record c { offset = c.offset + c.pending_size; pending = idle })
]
