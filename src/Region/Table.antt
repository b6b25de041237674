-- ===== src/Region/Table.antt =====
-- Which handler decides an access, and what it may decide.
use quetz.Base.{
  ℕ, zero, suc, ◌≡◌, ◌≢◌, refl, true, false, Option, none, some, List, [], ◌∷◌, get_or, set, sub64,
  subst, if◌then◌else◌, arith, inl, inr, ◌⊎◌, Option-cases, Bool-cases,
}
use quetz.Ipc.{Command}
use quetz.CoreStats.{CoreStats}
use quetz.Region.{
  Handler, Kind, forwards, test_finisher, TestFinisher, forward, consume, end_sim, Policy, owns,
  find_handler, kind_read, kind_write, dispatch, is_read_cmd, is_write_cmd, handle_memory_access,
}

-- No handler of the table owns the address.
abbrev pub Unowned : List (Option Handler) → ℕ → Type 0
Unowned [] addr = Unit {0}
Unowned (none ∷ hs) addr = Unowned hs addr
Unowned (some h ∷ hs) addr = (owns h addr ≡ false) × Unowned hs addr

-- The handler at an index owns the address, and none before it does.
abbrev pub FirstOwner : List (Option Handler) → ℕ → ℕ → Handler → Type 0
FirstOwner [] addr i h = ⊥
FirstOwner (g ∷ hs) addr zero h = (g ≡ some h) × (owns h addr ≡ true)
FirstOwner (none ∷ hs) addr (suc i) h = FirstOwner hs addr i h
FirstOwner (some g ∷ hs) addr (suc i) h = (owns g addr ≡ false) × FirstOwner hs addr i h

-- What findHandler's result says of the table.
abbrev FindResult : List (Option Handler) → ℕ → Option ℕ → Type 0
FindResult hs addr none = Unowned hs addr
FindResult hs addr (some i) = (h : Handler) × FirstOwner hs addr i h

find_handler-FindResult :
    (hs : List (Option Handler)) (addr : ℕ) → FindResult hs addr (find_handler hs addr)
unfolding find_handler
find_handler-FindResult [] addr = tt
find_handler-FindResult (none ∷ hs) addr =
    go (find_handler hs addr) (find_handler-FindResult hs addr)
  where
    go :
        (r : Option ℕ)
        → FindResult hs addr r
        → FindResult (none ∷ hs) addr (elim r [ none ↦ none | some i ↦ some (suc i) ])
    go none u = u
    go (some i) o = o
find_handler-FindResult (some h ∷ hs) addr = elim (Bool-cases (owns h addr)) [
  | inl yes_owner ↦ rw yes_owner (h, (refl, yes_owner))
  | inr no_owner ↦
      rw no_owner (go no_owner (find_handler hs addr) (find_handler-FindResult hs addr))
]
  where
    go :
        owns h addr ≡ false
        → (r : Option ℕ) → FindResult hs addr r
        → FindResult (some h ∷ hs) addr (elim r [ none ↦ none | some i ↦ some (suc i) ])
    go e none u = (e, u)
    go e (some i) o = (o.0, (e, o.1))

get_or-FirstOwner :
    (hs : List (Option Handler)) (addr i : ℕ) (h : Handler)
    → FirstOwner hs addr i h
    → (get_or hs i none ≡ some h) × (owns h addr ≡ true)
get_or-FirstOwner [] addr i h o = absurd o
get_or-FirstOwner (g ∷ hs) addr zero h o = o
get_or-FirstOwner (none ∷ hs) addr (suc i) h o = get_or-FirstOwner hs addr i h o
get_or-FirstOwner (some g ∷ hs) addr (suc i) h o = get_or-FirstOwner hs addr i h o.1

-- A command that reads or writes. One whose address no handler owns leaves the table as it is, and
-- is consumed if the core filters unmatched addresses, and forwarded to the cache if not. Any
-- other is decided by the first handler that owns the address, which alone may change.
pub handle_memory_access_owner :
    (p : Policy) (cmd : Command) (stats : CoreStats)
    → (is_read_cmd cmd.cmd ≡ true) ⊎ (is_write_cmd cmd.cmd ≡ true)
    → let (p', stats', a) = handle_memory_access p cmd stats in
      (Unowned p.handlers cmd.addr
        × (p' ≡ p)
        × (a ≡ (if p.filter_unmatched then consume else forward)))
      ⊎ ((i : ℕ) × (h : Handler) × FirstOwner p.handlers cmd.addr i h
          × (a ≡ (dispatch h cmd stats).2)
          × (stats' ≡ (dispatch h cmd stats).1)
          × (p'.handlers ≡ set p.handlers i (some (dispatch h cmd stats).0))
          × (p'.filter_unmatched ≡ p.filter_unmatched))
unfolding handle_memory_access
handle_memory_access_owner p cmd stats rw_cmd =
    elim (Option-cases (find_handler p.handlers cmd.addr)) [
      | inl missing ↦
          let u : Unowned p.handlers cmd.addr =
            subst (FindResult p.handlers cmd.addr) missing
              (find_handler-FindResult p.handlers cmd.addr) in
          inl (u, ground arith, ground arith)
      | inr (i, found) ↦
          let r : FindResult p.handlers cmd.addr (some i) =
            subst (FindResult p.handlers cmd.addr) found
              (find_handler-FindResult p.handlers cmd.addr) in
          let g = get_or-FirstOwner p.handlers cmd.addr i r.0 r.1 in
          inr (
            i,
            r.0,
            r.1,
            ground (arith, g),
            ground (arith, g),
            ground (arith, g),
            ground (arith, g),
          )
    ]

kind_read-ne-end_sim :
    (k : Kind) (offset : ℕ) (stats : CoreStats) → (kind_read k offset stats).2 ≢ end_sim
unfolding kind_read
kind_read-ne-end_sim forwards offset stats = ground arith
kind_read-ne-end_sim _ offset stats = ground arith

kind_write_end_sim :
    (k : Kind) (offset : ℕ) (cmd : Command) (stats : CoreStats)
    → (kind_write k offset cmd stats).2 ≡ end_sim
    → (t : TestFinisher) × (k ≡ test_finisher t)
unfolding kind_write
kind_write_end_sim (test_finisher t) offset cmd stats e = (t, refl)
kind_write_end_sim forwards offset cmd stats e = absurd (ground arith)
kind_write_end_sim _ offset cmd stats e = absurd (ground arith)

-- Only a handler that is a test finisher answers an access, which is no read, with end_sim.
pub end_sim_cause :
    (h : Handler) (cmd : Command) (stats : CoreStats)
    → (dispatch h cmd stats).2 ≡ end_sim
    → (is_read_cmd cmd.cmd ≡ false) × ((t : TestFinisher) × (h.kind ≡ test_finisher t))
unfolding dispatch
end_sim_cause h cmd stats e = elim (Bool-cases (is_read_cmd cmd.cmd)) [
  | inl reading ↦ absurd (kind_read-ne-end_sim h.kind (sub64 cmd.addr h.start) stats (ground arith))
  | inr writing ↦
      (writing, kind_write_end_sim h.kind (sub64 cmd.addr h.start) cmd stats (ground arith))
]
