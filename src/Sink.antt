-- ===== src/Sink.antt =====
-- src/quetz_sink_device.cc and .h: QuetzSinkDevice, which captures the bytes that the guest pushes
-- through REG_DATA and appends them to a file. The file system is a parameter: whether the file
-- opens and whether the write succeeds, given anew for each access.
pub mod Capture
mod Examples
use quetz.Base.{
  ℕ, ◌+◌, ◌-◌, Bool, true, false, not, ◌&&◌, ◌||◌, List, [], ◌∷◌, ◌++◌, ltb, leb, ◌==◌,
  if◌then◌else◌, length, take, drop, sub64, u64_to_data, data_to_u64, Outcome, ok, err, fatal,
  ◌>>=◌,
}
use quetz.Device.{Write}

abbrev reg_status : ℕ
reg_status = 0x00

abbrev reg_data : ℕ
reg_data = 0x08

abbrev reg_seq : ℕ
reg_seq = 0x10

abbrev reg_ctrl : ℕ
reg_ctrl = 0x18

pub record Stats : Type 0 where
  pub bytes_accepted : ℕ
  pub flushes : ℕ
  pub truncates : ℕ
  pub dropped_bytes : ℕ
  pub wrong_direction_accesses : ℕ
  pub bad_offset_accesses : ℕ

-- `file` is the content of `sink_file_`.
pub record Sink : Type 0 where
  pub base_addr : ℕ
  pub max_bytes : ℕ
  pub captured : List ℕ
  pub flushed_bytes : ℕ
  pub accepted : ℕ
  pub dropped : ℕ
  pub file : List ℕ
  pub stats : Stats

-- Whether the file opens, and whether the write to it succeeds.
pub record FileSystem : Type 0 where
  pub opens : Bool
  pub writes : Bool

-- The constructor, past its checks: an empty capture and a truncated file.
pub init : ℕ → ℕ → Sink
init base max_bytes = record {
  base_addr = base;
  max_bytes = max_bytes;
  captured = [];
  flushed_bytes = 0;
  accepted = 0;
  dropped = 0;
  file = [];
  stats = record {
    bytes_accepted = 0;
    flushes = 0;
    truncates = 0;
    dropped_bytes = 0;
    wrong_direction_accesses = 0;
    bad_offset_accesses = 0;
  };
}

-- writeFile
pub write_file : FileSystem → Sink → Bool → Outcome Sink
write_file fs d truncate_only =
    if not fs.opens
    then err fatal
    else if truncate_only
    then ok (record d { flushed_bytes = 0; file = [] })
    else if ltb (length d.captured) d.flushed_bytes
    then err fatal
    else if pending == 0
    then ok d
    else if not fs.writes
    then err fatal
    else ok (record d {
      file = d.file ++ take pending (drop d.flushed_bytes d.captured);
      flushed_bytes = length d.captured;
    })
  where
    pending : ℕ
    pending = length d.captured - d.flushed_bytes

-- One round of the loop of the REG_DATA branch: a byte is captured, or dropped at the cap.
pub push_byte : Sink → ℕ → Sink
push_byte d b =
    if not (d.max_bytes == 0) && leb d.max_bytes (length d.captured)
    then record d {
      dropped = d.dropped + 1;
      stats = record (d.stats) { dropped_bytes = d.stats.dropped_bytes + 1 };
    }
    else record d {
      captured = d.captured ++ (b ∷ []);
      accepted = d.accepted + 1;
      stats = record (d.stats) { bytes_accepted = d.stats.bytes_accepted + 1 };
    }

pub push : Sink → List ℕ → Sink
push d [] = d
push d (b ∷ bs) = push (push_byte d b) bs

-- mmioHandlers::handle(Read)
pub handle_read : Sink → ℕ → ℕ → Sink × List ℕ
unfolding u64_to_data
handle_read d addr size =
    if offset == reg_status || offset == reg_seq
    then (d, u64_to_data d.accepted size)
    else if offset == reg_data || offset == reg_ctrl
    then (
      record d {
        stats = record stats { wrong_direction_accesses = stats.wrong_direction_accesses + 1 };
      },
      u64_to_data 0 size,
    )
    else (
      record d { stats = record stats { bad_offset_accesses = stats.bad_offset_accesses + 1 } },
      u64_to_data 0 size,
    )
  where
    open d use {stats}

    offset : ℕ
    offset = sub64 addr d.base_addr

-- The REG_CTRL branch: 1 flushes the capture to the file, 2 restarts both.
pub control : FileSystem → Sink → ℕ → Outcome Sink
unfolding write_file
control fs d value =
    if value == 1
    then write_file fs d false
      >>= (λ d'. ok (record d' { stats = record (d'.stats) { flushes = d'.stats.flushes + 1 } }))
    else if value == 2
    then write_file fs (record d { captured = []; accepted = 0 }) true >>= (λ d'.
      ok (record d' { stats = record (d'.stats) { truncates = d'.stats.truncates + 1 } }))
    else ok d

-- mmioHandlers::handle(Write); a response is sent if the write is not posted.
pub handle_write : FileSystem → Sink → Write → Outcome (Sink × Bool)
handle_write fs d w =
    if offset == reg_data
    then ok (push d w.payload, not w.posted)
    else if offset == reg_ctrl
    then control fs d (data_to_u64 w.payload) >>= (λ d'. ok (d', not w.posted))
    else if offset == reg_status || offset == reg_seq
    then ok (
      record d {
        stats = record stats { wrong_direction_accesses = stats.wrong_direction_accesses + 1 };
      },
      not w.posted,
    )
    else ok (
      record d { stats = record stats { bad_offset_accesses = stats.bad_offset_accesses + 1 } },
      not w.posted,
    )
  where
    open d use {stats}

    offset : ℕ
    offset = sub64 w.addr d.base_addr

-- finish
pub finish : FileSystem → Sink → Outcome Sink
unfolding write_file
finish fs d = write_file fs d false

pub data Event : Type 0 where
  reads : ℕ → ℕ → Event
  writes : FileSystem → Write → Event

pub step : Sink → Event → Outcome Sink
step d (reads addr size) = ok (handle_read d addr size).0
step d (writes fs w) = handle_write fs d w >>= (λ r. ok r.0)

pub run : Sink → List Event → Outcome Sink
run d [] = ok d
run d (e ∷ es) = step d e >>= (λ d'. run d' es)
