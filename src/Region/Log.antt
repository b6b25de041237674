-- ===== src/Region/Log.antt =====
-- The log of recent doorbell payloads.
use quetz.Base.{
  ℕ, ◌-◌, ◌≤◌, ◌≡◌, sym, ap, List, [], ◌∷◌, ◌++◌, append-nil, append_assoc, length, drop,
  length-append, length-drop, drop-append_le, drop-drop, arith,
}
use quetz.Region.{GpuTrace, record_doorbell_payload}

-- The payloads of a sequence of doorbells, recorded in order.
pub record_all : GpuTrace → List ℕ → GpuTrace
record_all g [] = g
record_all g (p ∷ ps) = record_all (record_doorbell_payload g p) ps

-- The last n elements.
abbrev pub last_of : ℕ → List ℕ → List ℕ
last_of n xs = drop (length xs - n) xs

record_one :
    (g : GpuTrace) (p : ℕ)
    → length g.recent ≤ g.max_payload_log
    → let g' = record_doorbell_payload g p in
      (g'.recent ≡ last_of g.max_payload_log (g.recent ++ (p ∷ [])))
      × (length g'.recent ≤ g.max_payload_log)
      × (g'.max_payload_log ≡ g.max_payload_log)
unfolding record_doorbell_payload
record_one g p h =
    let k : ℕ = length (g.recent ++ (p ∷ [])) - g.max_payload_log in
    ground (arith, length-append g.recent (p ∷ []), length-drop 1 (g.recent ++ (p ∷ [])))

-- However many doorbells ring, the log, which is within its limit at first, holds the most recent
-- payloads in order, as many as it may.
pub record_all-last_of :
    (ps : List ℕ) (g : GpuTrace)
    → length g.recent ≤ g.max_payload_log
    → (record_all g ps).recent ≡ last_of g.max_payload_log (g.recent ++ ps)
unfolding record_all
record_all-last_of [] g h =
    let e : length (g.recent ++ []) - g.max_payload_log ≡ 0 =
      omega (arith, ap (λ (l : List ℕ). length l) (append-nil g.recent)) in
    rw e (sym (append-nil g.recent))
record_all-last_of (p ∷ ps) g h =
    let r = record_one g p h in
    let all : List ℕ = g.recent ++ (p ∷ []) in
    let j : ℕ = length all - g.max_payload_log in
    ground (
      arith,
      r,
      record_all-last_of ps (record_doorbell_payload g p) (omega (arith, r)),
      drop-append_le j all ps (omega arith),
      length-append all ps,
      length-drop j all,
      length-append (drop j all) ps,
      append_assoc g.recent (p ∷ []) ps,
      drop-drop (length (drop j all ++ ps) - g.max_payload_log) j (all ++ ps),
      length-append g.recent (p ∷ []),
      length-append g.recent (p ∷ ps),
    )
