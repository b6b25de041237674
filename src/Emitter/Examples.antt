-- ===== src/Emitter/Examples.antt =====
-- An emitter with 64-byte lines that issues an access of 100 bytes across a line boundary.
use quetz.Base.{
  ℕ, ◌+◌, ◌-◌, ◌≡◌, ◌≢◌, ◌⊎◌, min, refl, true, false, none, some, [], ◌∷◌, replicate, arith, ok,
  ◌==◌, if◌then◌else◌, Meets,
}
use quetz.Emitter.{
  issue_loop, reading, Emitter, PendingReq, cached, issue_read_window, issue_write_window,
  find_pending, handle_response,
}
use quetz.Emitter.Chunks.{Issued}
use quetz.Emitter.Windows.{issue_read_window-Issued, issue_write_window-Issued}
use quetz.Emitter.Flight.{issue_loop-Inv, Inv, handle_response_once}
use quetz.Emitter.Budget.{WithinBudget, issue_read_window-WithinBudget}

abbrev emitter : Emitter
emitter = record {
  mem_link = true;
  mmio_link = false;
  cache_line_size = 64;
  pending_txns = [];
  pending_count = 0;
  next_id = 1;
  sent = [];
  stats = [];
}

issue_read_window-Issued_example :
    (r : Emitter × ℕ × ℕ) × (issue_read_window emitter 5 4130 100 cached 0 2 ≡ ok r)
    × Issued 64 (4130 + 0) 4130 emitter 0 (100 - 0) 0 2 r
issue_read_window-Issued_example =
    issue_read_window-Issued emitter 5 4130 100 0 2 refl (omega arith) (omega arith) (omega arith)
      (omega arith) (omega arith) (omega arith) (omega arith)

issue_write_window-Issued_example :
    (r : Emitter × ℕ × ℕ) × (issue_write_window emitter 5 4130 100 (replicate 64 7) cached 0 8
      ≡ ok (r.0, (if r.1 == min 100 64 then 100 else r.1), r.2))
    × Issued 64 (4130 + 0) 4130 emitter 0 (min 100 64 - 0) 0 8 r
issue_write_window-Issued_example =
    issue_write_window-Issued emitter 5 4130 100 (replicate 64 7) 0 8 refl (omega arith)
      (omega arith) refl (omega arith) (omega arith) (omega arith) (omega arith)

issue_read_window-WithinBudget_example :
    Meets (WithinBudget emitter 2) (issue_read_window emitter 5 4130 100 cached 0 2)
issue_read_window-WithinBudget_example =
    issue_read_window-WithinBudget emitter 5 4130 100 cached 0 2 (omega arith)

-- Two requests in flight.
abbrev busy : Emitter
busy = record emitter {
  pending_txns =
      record { id = 2; issue_cycle = 6; is_mmio = false }
      ∷ record { id = 1; issue_cycle = 5; is_mmio = false }
      ∷ [];
  pending_count = 2;
  next_id = 3;
}

busy-Inv : Inv busy
busy-Inv = record { ids = (omega arith, (omega arith, tt)); counted = refl }

handle_response_once_example :
    Inv (handle_response busy 9 1 true).0
    × ((j : ℕ)
        → j ≢ 1
        → find_pending j (handle_response busy 9 1 true).0.pending_txns
          ≡ find_pending j busy.pending_txns)
    × (((find_pending 1 busy.pending_txns ≡ none)
          × ((handle_response busy 9 1 true).1 ≡ none)
          × ((handle_response busy 9 1 true).0 ≡ busy))
        ⊎ ((p : PendingReq) × (find_pending 1 busy.pending_txns ≡ some p)
            × ((handle_response busy 9 1 true).1
                ≡ some
                    (record { latency = 9 - p.issue_cycle; was_read = true; was_mmio = p.is_mmio }))
            × ((handle_response busy 9 1 true).0.pending_count + 1 ≡ busy.pending_count)
            × (find_pending 1 (handle_response busy 9 1 true).0.pending_txns ≡ none)))
handle_response_once_example = handle_response_once busy 9 1 true busy-Inv (omega arith)

issue_loop-Inv_example :
    Inv (issue_loop 100 reading busy 7 4130 0 100 0 4).0
    × ((issue_loop 100 reading busy 7 4130 0 100 0 4).0.pending_count + 0
        ≡ busy.pending_count + (issue_loop 100 reading busy 7 4130 0 100 0 4).2)
issue_loop-Inv_example =
    issue_loop-Inv 100 reading busy 7 4130 0 100 0 4 busy-Inv (omega arith) (omega arith)
