-- ===== src/Sink/Capture.antt =====
-- The sink's invariant: its counter, its cap, and the file as a prefix of the capture.
use quetz.Base.{
  ℕ, ◌+◌, ◌-◌, ◌≤◌, ◌≡◌, refl, Bool, true, false, List, [], ◌∷◌, ◌++◌, ◌==◌, if◌then◌else◌, length,
  take, drop, length-append, length-drop, take-append-drop, ok, Ensures, Ensures-bind, Ensures-ok,
  data_to_u64, append-nil, append_assoc, take_all, take_append, take_cons, take_nil, arith,
  Bool-cases, inl, inr, ◌⊎◌,
}
use quetz.Device.{Write}
use quetz.Sink.{
  Sink, FileSystem, Event, reads, writes, init, write_file, push_byte, push, handle_read, control,
  handle_write, finish, step, run,
}

pub record Inv (d : Sink) : Type 0 where
  pub counted : d.accepted ≡ length d.captured
  pub within_cap : (d.max_bytes ≡ 0) ⊎ (length d.captured ≤ d.max_bytes)
  pub cursor : d.flushed_bytes ≤ length d.captured
  pub flushed : d.file ≡ take d.flushed_bytes d.captured

-- What lies behind a prefix, appended to it, gives the whole.
flush_all {ℓ} :
    {A : Type ℓ} (n : ℕ) (xs : List A) → take n xs ++ take (length xs - n) (drop n xs) ≡ xs
flush_all n xs =
    rw (take_all (length xs - n) (drop n xs) (omega (arith, length-drop n xs)))
      (take-append-drop n xs)

push_byte-Inv : (d : Sink) (b : ℕ) → Inv d → Inv (push_byte d b)
unfolding push_byte
push_byte-Inv d b v =
    ground
      (arith, length-append d.captured (b ∷ []), take_append d.flushed_bytes d.captured (b ∷ []))

push-Inv : (d : Sink) (bs : List ℕ) → Inv d → Inv (push d bs)
unfolding push
push-Inv d [] v = v
push-Inv d (b ∷ bs) v = push-Inv (push_byte d b) bs (push_byte-Inv d b v)

write_file-Inv :
    (fs : FileSystem) (d : Sink) (truncate : Bool)
    → Inv d
    → Ensures Inv
        (write_file fs (if truncate then record d { captured = []; accepted = 0 } else d) truncate)
unfolding write_file
write_file-Inv fs d true v = ground arith
write_file-Inv fs d false v = ground (
  arith,
  flush_all d.flushed_bytes d.captured,
  take_all (length d.captured) d.captured,
  take_all d.flushed_bytes d.captured,
)

control-Inv : (fs : FileSystem) (d : Sink) (value : ℕ) → Inv d → Ensures Inv (control fs d value)
unfolding control
control-Inv fs d value v = elim (Bool-cases (value == 1)) [
  | inl flush ↦
      rw flush (Ensures-bind Inv Inv _ _ (write_file-Inv fs d false v) (λ d' v'. ground arith))
  | inr other ↦ rw other (elim (Bool-cases (value == 2)) [
    | inl restart ↦
        rw restart (Ensures-bind Inv Inv _ _ (write_file-Inv fs d true v) (λ d' v'. ground arith))
    | inr ignored ↦ rw ignored v
  ])
]

handle_write-Inv :
    (fs : FileSystem) (d : Sink) (w : Write) → Inv d → Ensures (λ r. Inv r.0) (handle_write fs d w)
unfolding handle_write
handle_write-Inv fs d w v =
    ground (arith, push-Inv d w.payload v, control-Inv fs d (data_to_u64 w.payload) v)

handle_read-Inv : (d : Sink) (addr size : ℕ) → Inv d → Inv (handle_read d addr size).0
unfolding handle_read
handle_read-Inv d addr size v = ground arith

step-Inv : (d : Sink) (e : Event) → Inv d → Ensures Inv (step d e)
unfolding step
step-Inv d (reads addr size) v = handle_read-Inv d addr size v
step-Inv d (writes fs w) v =
    Ensures-bind (λ r. Inv r.0) Inv _ _ (handle_write-Inv fs d w v) (λ r v'. v')

run-Inv : (d : Sink) (es : List Event) → Inv d → Ensures Inv (run d es)
unfolding run
run-Inv d [] v = v
run-Inv d (e ∷ es) v = Ensures-bind Inv Inv _ _ (step-Inv d e v) (λ d' v'. run-Inv d' es v')

init-Inv : (base max_bytes : ℕ) → Inv (init base max_bytes)
unfolding init
init-Inv base max_bytes = ground arith

finish_all :
    (fs : FileSystem) (d : Sink)
    → Inv d
    → fs.opens ≡ true
    → fs.writes ≡ true
    → finish fs d ≡ ok (record d { file = d.captured; flushed_bytes = length d.captured })
unfolding finish
finish_all fs d v o w =
    ground (arith, flush_all d.flushed_bytes d.captured, take_all d.flushed_bytes d.captured)

-- After any history of accesses from the start, a finish whose file opens and can be written of
-- the device that the history ends in succeeds and leaves the file equal to the capture, which is
-- within the cap and as long as the counter says.
pub finish-run :
    (base max_bytes : ℕ) (es : List Event) (fs : FileSystem) {d : Sink}
    → run (init base max_bytes) es ≡ ok d
    → fs.opens ≡ true
    → fs.writes ≡ true
    → (d' : Sink) × (finish fs d ≡ ok d')
      × (d'.file ≡ d.captured)
      × (d'.captured ≡ d.captured)
      × (d.accepted ≡ length d.captured)
      × ((d.max_bytes ≡ 0) ⊎ (length d.captured ≤ d.max_bytes))
finish-run base max_bytes es fs {d} h o w =
    let v = Ensures-ok Inv _ (run-Inv (init base max_bytes) es (init-Inv base max_bytes)) h in
    (
      record d { file = d.captured; flushed_bytes = length d.captured },
      finish_all fs d v o w,
      refl,
      refl,
      v.counted,
      v.within_cap,
    )

-- The capture after a write of REG_DATA: as many of the bytes as fit under the cap, in order; the
-- rest are counted as dropped.
pub push-captured :
    (bs : List ℕ) (d : Sink)
    → let fit = (if d.max_bytes == 0 then length bs else d.max_bytes - length d.captured) in
      ((push d bs).captured ≡ d.captured ++ take fit bs)
      × ((push d bs).dropped ≡ d.dropped + (length bs - fit))
unfolding push push_byte
push-captured [] d =
    ground (arith, append-nil d.captured, take_nil {A = ℕ} (d.max_bytes - length d.captured))
push-captured (b ∷ bs) d = ground (
  arith,
  push-captured bs (push_byte d b),
  take_cons (d.max_bytes - length d.captured) b bs,
  take_all (length bs) bs,
  length-append d.captured (b ∷ []),
  append_assoc d.captured (b ∷ []) (take (d.max_bytes - length d.captured - 1) bs),
  append_assoc d.captured (b ∷ []) (take (length bs) bs),
)
