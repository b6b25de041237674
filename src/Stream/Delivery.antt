-- ===== src/Stream/Delivery.antt =====
-- What a read of REG_DATA hands to the guest.
use quetz.Base.{
  ℕ, zero, suc, ◌+◌, ◌-◌, ◌≤◌, ◌<◌, ◌^◌, ◌≡◌, refl, List, [], ◌∷◌, ◌++◌, length, get_or, take, drop,
  replicate, arith, ◌⊎◌, u64_to_data,
}
use quetz.Stream.{Stream, handle_read, pop_loop, want, reg_data}
use quetz.Stream.Irq.{Inv}

abbrev pub AllBytes : List ℕ → Type 0
AllBytes [] = Unit {0}
AllBytes (b ∷ bs) = (b < 256) × AllBytes bs

byte_at : (l : List ℕ) (i : ℕ) → AllBytes l → get_or l i 0 < 256
byte_at [] i a = omega arith
byte_at (b ∷ bs) zero a = a.0
byte_at (b ∷ bs) (suc i) a = byte_at bs i a.1

-- The next `n` bytes from index `i` on, and then zeros up to four.
abbrev pub padded : List ℕ → ℕ → ℕ → List ℕ
padded l i n = take n (drop i l) ++ replicate (4 - n) 0

take-drop-suc :
    (l : List ℕ) (i n : ℕ)
    → i < length l
    → take (suc n) (drop i l) ≡ get_or l i 0 ∷ take n (drop (i + 1) l)
take-drop-suc [] i n h = absurd (omega arith)
take-drop-suc (b ∷ bs) zero n h = refl
take-drop-suc (b ∷ bs) (suc i) n h =
    let e : suc i + 1 ≡ suc (i + 1) = omega arith in rw e (take-drop-suc bs i n (omega arith))

-- A pop of n bytes, read as a payload of four, is the bytes themselves.
pop_loop-padded :
    (l : List ℕ) (i n : ℕ)
    → AllBytes l
    → n ≤ 4
    → i + n ≤ length l
    → u64_to_data (pop_loop l n 0 i 0) 4 ≡ padded l i n
unfolding pop_loop u64_to_data
pop_loop-padded l i zero a h r = refl
pop_loop-padded l i (suc zero) a h r = ground (arith, byte_at l i a, take-drop-suc l i 0)
pop_loop-padded l i (suc (suc zero)) a h r =
    ground
      (arith, byte_at l i a, byte_at l (i + 1) a, take-drop-suc l i 1, take-drop-suc l (i + 1) 0)
pop_loop-padded l i (suc (suc (suc zero))) a h r = ground (
  arith,
  byte_at l i a,
  byte_at l (i + 1) a,
  byte_at l (i + 1 + 1) a,
  take-drop-suc l i 2,
  take-drop-suc l (i + 1) 1,
  take-drop-suc l (i + 1 + 1) 0,
)
pop_loop-padded l i (suc (suc (suc (suc zero)))) a h r = ground (
  arith,
  byte_at l i a,
  byte_at l (i + 1) a,
  byte_at l (i + 1 + 1) a,
  byte_at l (i + 1 + 1 + 1) a,
  take-drop-suc l i 3,
  take-drop-suc l (i + 1) 2,
  take-drop-suc l (i + 1 + 1) 1,
  take-drop-suc l (i + 1 + 1 + 1) 0,
)
pop_loop-padded l i (suc (suc (suc (suc (suc n))))) a h r = absurd (omega arith)

-- A 32-bit read of REG_DATA in a device whose invariant holds and whose stream is bytes: where all
-- bytes of the next pop are available, its payload is those bytes in stream order, padded with
-- zeros at the stream's tail, and the cursor moves past them; where they are not, the payload is
-- zero and neither cursor nor availability changes.
pub read_data_lem :
    (d : Stream) (addr : ℕ)
    → Inv d
    → AllBytes d.stream
    → addr ≡ d.base_addr + reg_data
    → addr < 2 ^ 64
    → let (d', payload) = handle_read d addr 4 in
      let n = want d in
      ((0 < n)
        × (n ≤ d.avail)
        × (payload ≡ padded d.stream d.pos n)
        × (d'.pos ≡ d.pos + n)
        × (d'.avail + n ≡ d.avail))
      ⊎ (((n ≡ 0) ⊎ (d.avail < n))
          × (payload ≡ 0 ∷ 0 ∷ 0 ∷ 0 ∷ [])
          × (d'.pos ≡ d.pos)
          × (d'.avail ≡ d.avail))
unfolding handle_read
read_data_lem d addr v a e s = ground (arith, pop_loop-padded d.stream d.pos (want d) a)
