-- ===== src/Gpu/Op.antt =====
-- The DMA state machine of a kernel operation: read the input, compute, wait, write the output.
use quetz.Base.{
  ℕ, zero, suc, ◌+◌, ◌-◌, true, false, not, ◌&&◌, Option, none, some, List, [], ◌∷◌, ltb, ◌==◌,
  if◌then◌else◌, length, take, drop, replicate, set, add64, Outcome, ok, err, fatal,
}
use quetz.Memory.{memory_chunk_size}
use quetz.Gpu.State.{
  Gpu, Kernel, idle, reading, writing, completed, rejected, dma_read, dma_write, write_resp, emit,
  emit_op_event, update_primary_hold, raise_irq_on_retire, dma_range_ok,
}

-- kOpDmaChunk and kMaxOpDmaOutstanding
abbrev op_dma_chunk : ℕ
op_dma_chunk = 64

abbrev pub max_op_dma_outstanding : ℕ
max_op_dma_outstanding = 64

-- Releases the response that a blocking doorbell holds.
unfoldable pub release_doorbell : Gpu → Gpu
release_doorbell d =
    if d.op_doorbell_resp then record (emit d write_resp) { op_doorbell_resp = false } else d

-- opReject
unfoldable pub op_reject : Gpu → Gpu
op_reject d =
    let told = emit_op_event d (rejected d.submit_id) in
    let freed = release_doorbell (record told {
      stats = record (told.stats) { ops_rejected = told.stats.ops_rejected + 1 };
      op_phase = idle;
      busy_until_clk = 0;
    }) in
    update_primary_hold freed true

-- The length of the next part of a DMA transfer of `total` bytes at `addr`.
abbrev next_part : Gpu → ℕ → ℕ → ℕ
next_part d addr total =
    memory_chunk_size (add64 addr d.op_next_dma_off) (total - d.op_next_dma_off) d.line_size
      op_dma_chunk

-- One round of opIssueReadWindow's loop.
unfoldable pub issue_read : Gpu → Gpu
issue_read d =
    let n = next_part d d.op_args.src_addr d.op_in_bytes in
    record (emit d (dma_read d.next_id (add64 d.op_args.src_addr d.op_next_dma_off) n)) {
      op_req_off = (d.next_id, d.op_next_dma_off) ∷ d.op_req_off;
      op_next_dma_off = d.op_next_dma_off + n;
      op_dma_outstanding = d.op_dma_outstanding + 1;
      next_id = d.next_id + 1;
    }

-- opIssueReadWindow, over the free places of the window: each round takes one.
unfoldable pub issue_read_loop : ℕ → Gpu → Gpu
issue_read_loop zero d = d
issue_read_loop (suc places) d =
    let rest = issue_read_loop places (issue_read d) in
    if ltb d.op_next_dma_off d.op_in_bytes && ltb d.op_dma_outstanding max_op_dma_outstanding
    then rest
    else d

abbrev pub op_issue_read_window : Gpu → Gpu
op_issue_read_window d = issue_read_loop max_op_dma_outstanding d

-- One round of opIssueWriteWindow's loop.
unfoldable pub issue_write : Gpu → Gpu
issue_write d =
    let n = next_part d d.op_args.dst_addr (length d.op_out) in
    record (emit d (
      dma_write (add64 d.op_args.dst_addr d.op_next_dma_off)
        (take n (drop d.op_next_dma_off d.op_out)))) {
          op_next_dma_off = d.op_next_dma_off + n;
          op_dma_outstanding = d.op_dma_outstanding + 1;
          next_id = d.next_id + 1;
        }

unfoldable pub issue_write_loop : ℕ → Gpu → Gpu
issue_write_loop zero d = d
issue_write_loop (suc places) d =
    let rest = issue_write_loop places (issue_write d) in
    if ltb d.op_next_dma_off (length d.op_out) && ltb d.op_dma_outstanding max_op_dma_outstanding
    then rest
    else d

abbrev op_issue_write_window : Gpu → Gpu
op_issue_write_window d = issue_write_loop max_op_dma_outstanding d

-- opBeginWriteback
unfoldable pub op_begin_writeback : Gpu → Gpu
op_begin_writeback d =
    if not (dma_range_ok d d.op_args.dst_addr (length d.op_out))
    then op_reject d
    else update_primary_hold
        (op_issue_write_window
          (record d { op_phase = writing; op_dma_outstanding = 0; op_next_dma_off = 0 }))
        false

-- opFinish
unfoldable pub op_finish : Gpu → Gpu
op_finish d =
    let told = emit_op_event d (completed d.submit_id) in
    let freed =
      release_doorbell (record told { op_phase = idle; kernel_id = add64 told.kernel_id 1 }) in
    update_primary_hold (raise_irq_on_retire freed) true

-- opComputeAndStartBusy, for the kernel in the slot.
unfoldable pub op_compute_and_start_busy : Gpu → Kernel → Outcome Gpu
op_compute_and_start_busy d k =
    let (output, opinion) = k.compute d.op_args d.op_in in
    let latency =
      (if not (d.latency_override == 0)
        then d.latency_override
        else if not (opinion == 0)
        then opinion
        else d.kernel_latency) in
    let launched = record d {
      op_out = output;
      latency_override = 0;
      stats = record (d.stats) { kernels_launched = d.stats.kernels_launched + 1 };
    } in
    if length output == 0
    then err fatal
    else if latency == 0
    then ok (op_begin_writeback launched)
    else ok
        (update_primary_hold (record launched { busy_until_clk = add64 d.gpu_clk latency }) false)

-- opStartDma, for the kernel in the slot.
unfoldable pub op_start_dma : Gpu → Kernel → Gpu
op_start_dma d k =
    let n = k.input_bytes d.op_args in
    let sized = record d { op_in_bytes = n } in
    if n == 0
    then op_reject sized
    else if not (dma_range_ok d d.op_args.src_addr n)
    then op_reject sized
    else if not (dma_range_ok d d.op_args.dst_addr 1)
    then op_reject sized
    else update_primary_hold
        (op_issue_read_window (record sized {
          op_in = replicate n 0;
          op_req_off = [];
          op_dma_outstanding = 0;
          op_next_dma_off = 0;
          op_phase = reading;
        }))
        false

-- The offset of a read in flight, and the other reads.
unfoldable pub find_off : ℕ → List (ℕ × ℕ) → Option ℕ
find_off id [] = none
find_off id ((i, off) ∷ rs) = if i == id then some off else find_off id rs

unfoldable pub erase_off : ℕ → List (ℕ × ℕ) → List (ℕ × ℕ)
erase_off id [] = []
erase_off id ((i, off) ∷ rs) = if i == id then rs else (i, off) ∷ erase_off id rs

-- `for (i = 0; i < data.size() && off + i < op_in_bytes_; i++) op_in_[off + i] = data[i]`
unfoldable pub store : ℕ → List ℕ → ℕ → List ℕ → List ℕ
store total op_in off [] = op_in
store total op_in off (b ∷ bs) =
    let rest = store total (set op_in off b) (off + 1) bs in if ltb off total then rest else op_in

-- opOnReadResp, for the kernel in the slot.
unfoldable pub op_on_read_resp : Gpu → Kernel → ℕ → List ℕ → Outcome Gpu
op_on_read_resp d k id bytes = elim (find_off id d.op_req_off) [
  | none ↦ err fatal
  | some off ↦
      let d' = op_issue_read_window (record d {
        op_req_off = erase_off id d.op_req_off;
        op_in = store d.op_in_bytes d.op_in off bytes;
        op_dma_outstanding = d.op_dma_outstanding - 1;
      }) in
      if (d'.op_dma_outstanding == 0) && (d'.op_next_dma_off == d'.op_in_bytes)
      then op_compute_and_start_busy d' k
      else ok d'
]

-- opOnWriteResp
unfoldable pub op_on_write_resp : Gpu → Gpu
op_on_write_resp d =
    if d.op_dma_outstanding == 0
    then d
    else (let d' =
          op_issue_write_window (record d { op_dma_outstanding = d.op_dma_outstanding - 1 }) in
        if (d'.op_dma_outstanding == 0) && (d'.op_next_dma_off == length d'.op_out)
        then op_finish d'
        else d')
