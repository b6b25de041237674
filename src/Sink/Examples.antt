-- ===== src/Sink/Examples.antt =====
-- A sink with a cap of three bytes, as the theorems' witnesses run it.
use quetz.Base.{
  ◌+◌, ◌-◌, ◌≤◌, ◌≡◌, refl, true, false, List, [], ◌∷◌, ◌++◌, ◌⊎◌, length, take, ok, err, fatal,
  data_to_u64,
}
use quetz.Sink.{
  Sink, Event, FileSystem, writes, init, run, finish, push, push_byte, write_file, step,
  handle_write, control,
}
use quetz.Sink.Capture.{finish-run, push-captured}

abbrev disk : FileSystem
disk = record { opens = true; writes = true }

abbrev history : List Event
history =
    writes disk (record { addr = 8200; payload = 7 ∷ 8 ∷ []; posted = false })
    ∷ writes disk (record { addr = 8216; payload = 1 ∷ []; posted = true })
    ∷ writes disk (record { addr = 8200; payload = 9 ∷ 10 ∷ []; posted = false })
    ∷ []

abbrev after : Sink
after = record {
  base_addr = 8192;
  max_bytes = 3;
  captured = 7 ∷ 8 ∷ 9 ∷ [];
  flushed_bytes = 2;
  accepted = 3;
  dropped = 1;
  file = 7 ∷ 8 ∷ [];
  stats = record {
    bytes_accepted = 3;
    flushes = 1;
    truncates = 0;
    dropped_bytes = 1;
    wrong_direction_accesses = 0;
    bad_offset_accesses = 0;
  };
}

history-after : run (init 8192 3) history ≡ ok after
unfolding run step handle_write init push push_byte control write_file data_to_u64
history-after = refl

finish-run_example :
    (d' : Sink) × (finish disk after ≡ ok d')
    × (d'.file ≡ after.captured)
    × (d'.captured ≡ after.captured)
    × (after.accepted ≡ length after.captured)
    × ((after.max_bytes ≡ 0) ⊎ (length after.captured ≤ after.max_bytes))
finish-run_example = finish-run 8192 3 history disk {d = after} history-after refl refl

push-captured_example :
    ((push after (5 ∷ [])).captured ≡ after.captured ++ take 0 (5 ∷ []))
    × ((push after (5 ∷ [])).dropped ≡ 1 + (1 - 0))
push-captured_example = push-captured (5 ∷ []) after

-- A sink whose file does not open stops the simulation.
finish_fails : finish (record { opens = false; writes = true }) after ≡ err fatal
unfolding finish
finish_fails = refl
