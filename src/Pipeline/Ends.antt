-- ===== src/Pipeline/Ends.antt =====
-- What halts a core (src/quetz_pipeline.cc): the end of the guest, the limit of instructions, or a
-- write to a test finisher.
use quetz.Base.{
  ℕ, ◌+◌, ◌≡◌, ◌≤◌, ◌<◌, ◌⊎◌, inl, inr, Bool, true, false, not, ◌&&◌, ◌||◌, Option, none, some,
  List, [], ◌∷◌, ◌==◌, if◌then◌else◌, refl, sym, subst, arith, Bool-cases, Option-cases, ok, fatal,
  ◌∙◌, Ensures, Ensures-ok, Ensures-bind, Ensures-bind_eq, Ensures-guard_false, Ensures-if, ltb,
}
use quetz.Ipc.{Command}
use quetz.Region.{
  Handler, TestFinisher, test_finisher, Action, end_sim, forward, Policy, is_read_cmd, is_write_cmd,
  handle_memory_access,
}
use quetz.Region.Table.{FirstOwner, handle_memory_access_owner, end_sim_cause}
use quetz.Emitter.{cached, mmio, issue_read_window, issue_write_window}
use quetz.CoreStats.{CoreStats, add_data, insn_count}
use quetz.Pipeline.Budget.{round_head, round_pending, round_empty}
use quetz.Pipeline.{
  issue_budget, stat, unless_halted, Event, MemOp, Pipeline, Round, is_exit, is_access, ends_sim,
  process, issue_available, issue_mem_op, finish_issue, check_max_insts, filter_handle,
  transform_head, process_head, round,
}

-- The limit of instructions is set and reached.
abbrev pub AtLimit : Pipeline → Type 0
AtLimit p = (0 < p.ctx.max_insts) × (p.ctx.max_insts ≤ p.inst_count)

-- A write whose address a test finisher is the first of the regions to own.
abbrev pub WritesFinisher : Option Policy → Command → Type 0
WritesFinisher none cmd = ⊥
WritesFinisher (some policy) cmd =
    (is_write_cmd cmd.cmd ≡ true)
    × ((i : ℕ) × (h : Handler) × FirstOwner policy.handlers cmd.addr i h
        × ((t : TestFinisher) × (h.kind ≡ test_finisher t)))

-- Why a core has halted that began a round as `p`: the event at the head of its queue ends the guest
-- or is a write to a test finisher, or the limit is reached.
abbrev pub Cause : Pipeline → Pipeline → Type 0
Cause p q =
    AtLimit q
    ⊎ ((ev : Event) × (rest : List Event) × (p.core_q ≡ ev ∷ rest)
        × ((is_exit ev.cmd.cmd ≡ true) ⊎ WritesFinisher p.policy ev.cmd))

limit-AtLimit :
    (p : Pipeline)
    → p.halted ≡ false
    → (check_max_insts p).halted ≡ true
    → AtLimit (check_max_insts p)
unfolding check_max_insts
limit-AtLimit p r h = ground (arith, r, h)

finish_issue-AtLimit :
    (p : Pipeline) (issued count : ℕ) (complete : Bool)
    → p.halted ≡ false
    → (finish_issue p issued count complete).0.halted ≡ true
    → AtLimit (finish_issue p issued count complete).0
unfolding finish_issue check_max_insts
finish_issue-AtLimit p issued count complete r h = ground (arith, r, h)

issue_available_halted :
    (p : Pipeline) (now : ℕ) (op : MemOp) (budget : ℕ)
    → Ensures (λ r. r.0.halted ≡ p.halted) (issue_available p now op budget)
unfolding issue_available
issue_available_halted p now op budget =
    let path = (if op.is_mmio then mmio else cached) in
    Ensures-bind_eq (λ (r : Pipeline × ℕ × Bool). r.0.halted ≡ p.halted)
      (if op.is_read
        then issue_read_window p.emitter now op.addr op.size path p.offset budget
        else issue_write_window p.emitter now op.addr op.size op.payload path p.offset budget)
      _ (λ a e. refl)

issue_mem_op-AtLimit :
    (p : Pipeline) (now : ℕ) (op : MemOp) (issued : ℕ)
    → p.halted ≡ false
    → Ensures (λ r. r.0.halted ≡ true → AtLimit r.0) (issue_mem_op p now op issued)
unfolding issue_mem_op
issue_mem_op-AtLimit p now op issued r =
    let Q : Pipeline × ℕ × Bool → Type 0 = λ x. x.0.halted ≡ true → AtLimit x.0 in
    let budget : ℕ = issue_budget p issued in
    Ensures-if Q (budget == 0) (ok (p, issued, false)) _ (λ h. absurd (ground (arith, r, h)))
      (Ensures-bind_eq Q (issue_available p now op budget) _ (λ a e.
        let kept : a.0.halted ≡ p.halted =
          Ensures-ok (λ x. x.0.halted ≡ p.halted) (issue_available p now op budget)
            (issue_available_halted p now op budget) e in
        Ensures-guard_false Q (ltb budget a.1) fatal _ (λ b.
          Ensures-guard_false Q
            (not a.2 && (a.1 == 0) && (issued == 0) && (p.emitter.pending_count == 0)) fatal _
            (λ c. finish_issue-AtLimit a.0 issued a.1 a.2 (kept ∙ r)))))

access-cases :
    (cmd : Command)
    → is_access cmd.cmd ≡ true
    → (is_read_cmd cmd.cmd ≡ true) ⊎ (is_write_cmd cmd.cmd ≡ true)
access-cases cmd h = elim (Bool-cases (is_read_cmd cmd.cmd)) [
  | inl c ↦ inl c
  | inr c ↦ inr (ground (arith, h, c))
]

memory_access-WritesFinisher :
    (p : Policy) (cmd : Command) (stats : CoreStats)
    → is_access cmd.cmd ≡ true
    → (handle_memory_access p cmd stats).2 ≡ end_sim
    → WritesFinisher (some p) cmd
memory_access-WritesFinisher p cmd stats h e =
    elim (handle_memory_access_owner p cmd stats (access-cases cmd h)) [
      | inl u ↦ absurd (ground (arith, e, u.2))
      | inr (i, g, o, a, b, d, f) ↦
          let c = end_sim_cause g cmd stats (sym a ∙ e) in (ground (arith, h, c.0), (i, g, o, c.1))
    ]

-- The filter keeps what the halting looks at, and says that the simulation ends only for a write to
-- a test finisher.
filter_handle_ends :
    (p : Pipeline) (cmd : Command)
    → is_access cmd.cmd ≡ true
    → ((filter_handle p cmd).0.halted ≡ p.halted)
      × ((filter_handle p cmd).1 ≡ end_sim → WritesFinisher p.policy cmd)
unfolding filter_handle
filter_handle_ends p cmd h = elim (Option-cases p.policy) [
  | inl n ↦ ground (arith, n)
  | inr (x, e) ↦ (
    ground (arith, e),
    λ k.
        subst (λ o. WritesFinisher o cmd) (sym e)
          (memory_access-WritesFinisher x cmd p.emitter.stats h (ground (arith, k, e))),
  )
]

ends_sim-eq : (a : Action) → ends_sim a ≡ true → a ≡ end_sim
ends_sim-eq end_sim h = refl
ends_sim-eq forward h = absurd (cc)
ends_sim-eq _ h = absurd (cc)

transform_head_halts :
    (p : Pipeline) (ev : Event) (rest : List Event) (action : Action)
    → p.halted ≡ false
    → (transform_head p ev rest action).0.halted ≡ true
    → AtLimit (transform_head p ev rest action).0
      ⊎ ((is_exit ev.cmd.cmd ≡ true) ⊎ (action ≡ end_sim))
unfolding transform_head process check_max_insts
transform_head_halts p ev rest action r h =
    elim (Bool-cases (is_exit ev.cmd.cmd || ends_sim action)) [
      | inl e ↦ elim (Bool-cases (is_exit ev.cmd.cmd)) [
        | inl x ↦ inr (inl x)
        | inr x ↦ inr (inr (ends_sim-eq action (ground (arith, e, x))))
      ]
      | inr e ↦ inl (ground (arith, r, h, e))
    ]

-- The head of the queue, where it may halt the core.
abbrev HeadCause : Pipeline → Event → Pipeline → Type 0
HeadCause p ev q = AtLimit q ⊎ ((is_exit ev.cmd.cmd ≡ true) ⊎ WritesFinisher p.policy ev.cmd)

-- What follows the filter.
after_filter_halts :
    (p : Pipeline) (ev : Event) (rest : List Event) (f : Pipeline × Action × Bool)
    → f.0.halted ≡ false
    → (f.1 ≡ end_sim → WritesFinisher p.policy ev.cmd)
    → let r =
        (if f.2
          then unless_halted (
              check_max_insts (record (stat f.0 (add_data insn_count 1 f.0.emitter.stats)) {
                core_q = rest;
                inst_count = f.0.inst_count + 1;
              }))
          else transform_head f.0 ev rest f.1) in
      r.0.halted ≡ true → HeadCause p ev r.0
after_filter_halts p ev rest (g, a, true) r k h = inl (limit-AtLimit _ r h)
after_filter_halts p ev rest (g, a, false) r k h = elim (transform_head_halts g ev rest a r h) [
  | inl l ↦ inl l
  | inr (inl x) ↦ inr (inl x)
  | inr (inr x) ↦ inr (inr (k x))
]

process_head_halts :
    (p : Pipeline) (ev : Event) (rest : List Event)
    → p.halted ≡ false
    → (process_head p ev rest).0.halted ≡ true
    → HeadCause p ev (process_head p ev rest).0
unfolding process_head
process_head_halts p ev rest r h = by (is_access ev.cmd.cmd) refl h
  where
    by :
        (b : Bool)
        → is_access ev.cmd.cmd ≡ b
        → let f = (if b then filter_handle p ev.cmd else (p, forward, false)) in
          let q =
            (if f.2
              then unless_halted (
                  check_max_insts (record (stat f.0 (add_data insn_count 1 f.0.emitter.stats)) {
                    core_q = rest;
                    inst_count = f.0.inst_count + 1;
                  }))
              else transform_head f.0 ev rest f.1) in
          q.0.halted ≡ true → HeadCause p ev q.0
    by true e k =
        let f = filter_handle_ends p ev.cmd e in
        after_filter_halts p ev rest (filter_handle p ev.cmd) (f.0 ∙ r) f.1 k
    by false e k = after_filter_halts p ev rest (p, forward, false) r (λ x. absurd (cc)) k

-- A round of tick's loop, at a core that has not halted, halts it only for one of these: the limit
-- of instructions is set and reached after the round; the event at the head of the queue is the
-- end of the guest; or it is a write, and a test finisher is the first region to own its address.
pub round-Cause :
    (p : Pipeline) (now issued : ℕ) {q : Pipeline × ℕ × Round}
    → p.halted ≡ false
    → round p now issued ≡ ok q
    → q.0.halted ≡ true
    → Cause p q.0
round-Cause p now issued {q} r e h = by_queue p.core_q refl
  where
    by_op :
        (ev : Event) (rest : List Event)
        → p.core_q ≡ ev ∷ rest
        → (o : Option MemOp) → p.pending_op ≡ o
        → Cause p q.0
    by_op ev rest hq none hp =
        let f : ((process_head p ev rest).0, issued, (process_head p ev rest).1) ≡ q =
          ground (arith, e, round_head p now issued ev rest hq hp) in
        elim (subst (λ x. HeadCause p ev x.0) f
          (process_head_halts p ev rest r (ground (arith, f, h)))) [
            | inl l ↦ inl l
            | inr c ↦ inr (ev, rest, hq, c)
          ]
    by_op ev rest hq (some op) hp =
        let all : Ensures (λ x. x.0.halted ≡ true → AtLimit x.0) (round p now issued) =
          subst (Ensures (λ (x : Pipeline × ℕ × Round). x.0.halted ≡ true → AtLimit x.0))
            (sym (round_pending p now issued ev rest op hq hp))
            (Ensures-bind (λ x. x.0.halted ≡ true → AtLimit x.0)
              (λ x. x.0.halted ≡ true → AtLimit x.0) (issue_mem_op p now op issued) _
              (issue_mem_op-AtLimit p now op issued r) (λ x k. k)) in
        inl (Ensures-ok (λ x. x.0.halted ≡ true → AtLimit x.0) (round p now issued) all e h)

    by_queue : (l : List Event) → p.core_q ≡ l → Cause p q.0
    by_queue [] hq = absurd (ground (arith, e, round_empty p now issued hq, r, h))
    by_queue (ev ∷ rest) hq = by_op ev rest hq p.pending_op refl
