-- ===== src/WindowCache/Examples.antt =====
-- A read of four bytes in an empty copyback cache, and tests of the cache's operations.
use quetz.Base.{
  ℕ, ◌%◌, ◌≡◌, refl, true, false, Option, List, [], ◌∷◌, replicate, arith, ok, err,
  invalid_argument, logic_error,
}
use quetz.WindowCache.State.{Line, Cache, idle, region_for, mode, acr_mode}
use quetz.WindowCache.Transact.{start, access, add_region, overlap_some}
use quetz.WindowCache.Service.{serve_one}
use quetz.WindowCache.View.{Inv}
use quetz.WindowCache.Rounds.{Ready}
use quetz.WindowCache.Kept.{Kept}
use quetz.WindowCache.Transparent.{serve_one-Kept}

abbrev memory : ℕ → ℕ
memory = λ a. a % 251

abbrev empty_line : Line
empty_line = record { bytes = replicate 16 0; address = 0; valid = false; dirty = false }

abbrev cache : Cache
cache = record {
  regions = record { base = 4096; size = 4096 } ∷ [];
  cacr = 0x82000000;
  acr = replicate 4 0;
  lines = λ s. empty_line;
  replacement = 0;
  pending_slot = 0;
  dirty_discards = 0;
  active = false;
  pushing = false;
  invalidate_push = false;
  writing = false;
  pending = idle;
  address = 0;
  pending_address = 0;
  count = 0;
  offset = 0;
  pending_size = 0;
  bytes = [];
}

-- The cache in the transaction that reads four bytes across a line's end.
abbrev reading : Cache
reading = record cache { active = true; address = 4110; count = 4; bytes = replicate 4 0 }

reading-access : access cache 4110 4 false [] ≡ ok reading
unfolding access region_for start
reading-access = refl

cache-Inv : Inv (λ s. empty_line) memory
cache-Inv = record {
  aligned = λ s b h. absurd (ground (arith, h));
  placed = λ s b h. absurd (ground (arith, h));
  full = λ s b h. absurd (ground (arith, h));
  unique = λ s t b c h k e. absurd (ground (arith, h));
  clean = λ s k b c h d. absurd (ground (arith, h));
}

reading-Ready : Ready reading memory
reading-Ready = record {
  inv = cache-Inv;
  active = refl;
  free = refl;
  not_writing = refl;
  counter = omega arith;
  slot = λ q. absurd (ground (arith, q));
}

serve_one-Kept_example :
    (q : Cache × (ℕ → ℕ) × Option (List ℕ)) × (serve_one reading memory ≡ ok q)
    × Kept reading memory q
serve_one-Kept_example = serve_one-Kept reading memory reading-Ready

-- An access past the window's end is refused, and so is a second one while the first is open.
past_end : access cache 8190 4 false [] ≡ err invalid_argument
unfolding access region_for
past_end = refl

overlapping : access reading 4096 4 false [] ≡ err logic_error
unfolding access region_for start
overlapping = refl

-- The cache's mode is copyback while it is enabled, and it is bypassed while it is not.
copyback : mode cache 4096 ≡ 1
unfolding mode acr_mode
copyback = refl

disabled : mode (record cache { cacr = 0 }) 4096 ≡ 2
unfolding mode
disabled = refl

-- A region that overlaps another is refused.
overlapping_region : add_region cache 8176 32 ≡ err invalid_argument
unfolding add_region overlap_some
overlapping_region = refl
