-- ===== src/Platform/Scan.antt =====
-- The loop of coldFireLaunchError of src/quetz_platform_contract.h, over the options that it reads.
use quetz.Base.{
  ℕ, ◌+◌, ◌≡◌, ◌≤◌, true, List, [], ◌∷◌, if◌then◌else◌, ◌⊎◌, inl, inr, refl, arith, Option-cases,
}
use quetz.Platform.Launch.{
  LaunchError, Checked, machine, cpu, smp, accel, Seen, one_dash, up_to, Argument, ignored,
  forbidden, checked, argument_of, own_value, admits, check_option, and_then, scan,
}
use quetz.Platform.Options.{Item, refused, gives, items, all_admitted, alike, times}

unfoldable pub seen_of : Checked → Seen → ℕ
seen_of machine s = if s.machine_seen then 1 else 0
seen_of cpu s = if s.cpu_seen then 1 else 0
seen_of smp s = if s.smp_seen then 1 else 0
seen_of accel s = if s.accel_seen then 1 else 0

unfoldable mark : Checked → Seen → Seen
mark machine s = record s { machine_seen = true }
mark cpu s = record s { cpu_seen = true }
mark smp s = record s { smp_seen = true }
mark accel s = record s { accel_seen = true }

-- The loop, over the options of the command line.
unfoldable pub run : List ℕ → ℕ → Seen → List Item → LaunchError ⊎ Seen
run name vcpus s [] = inr s
run name vcpus s (refused e ∷ is) = inl e
run name vcpus s (gives k value ∷ is) =
    and_then (check_option name vcpus k value s) (λ t. run name vcpus t is)

and_then-inr : (r : LaunchError ⊎ Seen) → r ≡ and_then r (λ t. inr t)
and_then-inr (inl e) = refl
and_then-inr (inr s) = refl

passed :
    (r : LaunchError ⊎ Seen) (f : Seen → LaunchError ⊎ Seen) {t : Seen}
    → and_then r f ≡ inr t
    → (u : Seen) × (r ≡ inr u) × (f u ≡ inr t)
passed (inl e) f h = absurd (cc)
passed (inr u) f h = (u, refl, h)

and_then-eq :
    (r : LaunchError ⊎ Seen) (f g : Seen → LaunchError ⊎ Seen)
    → ((t : Seen) → f t ≡ g t)
    → and_then r f ≡ and_then r g
and_then-eq (inl e) f g h = refl
and_then-eq (inr s) f g h = h s

Argument-cases :
    (a : Argument) → (a ≡ ignored) ⊎ ((a ≡ forbidden) ⊎ ((k : Checked) × (a ≡ checked k)))
Argument-cases ignored = inl refl
Argument-cases forbidden = inr (inl refl)
Argument-cases (checked k) = inr (inr (k, refl))

pub scan-items :
    (name : List ℕ) (vcpus : ℕ) (s : Seen) (args : List (List ℕ))
    → scan name vcpus s args ≡ run name vcpus s (items args)
unfolding scan items run
scan-items name vcpus s [] = refl
scan-items name vcpus s (arg ∷ []) =
    elim (Argument-cases (argument_of (up_to b'=' (one_dash arg)))) [
      | inl a ↦ ground (arith, a)
      | inr (inl a) ↦ ground (arith, a)
      | inr (inr (k, a)) ↦ elim (Option-cases (own_value (one_dash arg))) [
        | inl o ↦ ground (arith, a, o)
        | inr (value, o) ↦ ground (arith, a, o, and_then-inr (check_option name vcpus k value s))
      ]
    ]
scan-items name vcpus s (arg ∷ next ∷ args) =
    elim (Argument-cases (argument_of (up_to b'=' (one_dash arg)))) [
      | inl a ↦ ground (arith, a, scan-items name vcpus s (next ∷ args))
      | inr (inl a) ↦ ground (arith, a)
      | inr (inr (k, a)) ↦ elim (Option-cases (own_value (one_dash arg))) [
        | inl o ↦ ground (
          arith,
          a,
          o,
          and_then-eq (check_option name vcpus k next s) (λ t. scan name vcpus t args)
              (λ t. run name vcpus t (items args)) (λ t. scan-items name vcpus t args),
        )
        | inr (value, o) ↦ ground (
          arith,
          a,
          o,
          and_then-eq (check_option name vcpus k value s) (λ t. scan name vcpus t (next ∷ args))
              (λ t. run name vcpus t (items (next ∷ args)))
              (λ t. scan-items name vcpus t (next ∷ args)),
        )
      ]
    ]

alike-same : (k : Checked) → alike k k ≡ true
unfolding alike
alike-same machine = refl
alike-same cpu = refl
alike-same smp = refl
alike-same accel = refl

seen_of-mark :
    (j k : Checked) (s : Seen)
    → seen_of k s ≡ 0
    → seen_of j (mark k s) ≡ (if alike j k then 1 else 0) + seen_of j s
unfolding seen_of mark alike
seen_of-mark machine machine s h = ground (arith, h)
seen_of-mark machine cpu s h = ground (arith, h)
seen_of-mark machine smp s h = ground (arith, h)
seen_of-mark machine accel s h = ground (arith, h)
seen_of-mark cpu machine s h = ground (arith, h)
seen_of-mark cpu cpu s h = ground (arith, h)
seen_of-mark cpu smp s h = ground (arith, h)
seen_of-mark cpu accel s h = ground (arith, h)
seen_of-mark smp machine s h = ground (arith, h)
seen_of-mark smp cpu s h = ground (arith, h)
seen_of-mark smp smp s h = ground (arith, h)
seen_of-mark smp accel s h = ground (arith, h)
seen_of-mark accel machine s h = ground (arith, h)
seen_of-mark accel cpu s h = ground (arith, h)
seen_of-mark accel smp s h = ground (arith, h)
seen_of-mark accel accel s h = ground (arith, h)

check_option-mark :
    (name : List ℕ) (vcpus : ℕ) (k : Checked) (value : List ℕ) (s : Seen)
    → admits name vcpus k value ≡ true
    → seen_of k s ≡ 0
    → check_option name vcpus k value s ≡ inr (mark k s)
unfolding check_option seen_of mark
check_option-mark name vcpus machine value s a h = ground (arith, a, h)
check_option-mark name vcpus cpu value s a h = ground (arith, a, h)
check_option-mark name vcpus smp value s a h = ground (arith, a, h)
check_option-mark name vcpus accel value s a h = ground (arith, a, h)

check_option-inr :
    (name : List ℕ) (vcpus : ℕ) (k : Checked) (value : List ℕ) (s : Seen) {t : Seen}
    → check_option name vcpus k value s ≡ inr t
    → (admits name vcpus k value ≡ true) × (seen_of k s ≡ 0) × (t ≡ mark k s)
unfolding check_option seen_of mark
check_option-inr name vcpus machine value s {t} e = ground (arith, e)
check_option-inr name vcpus cpu value s {t} e = ground (arith, e)
check_option-inr name vcpus smp value s {t} e = ground (arith, e)
check_option-inr name vcpus accel value s {t} e = ground (arith, e)

pub run-inr :
    (name : List ℕ) (vcpus : ℕ) (s : Seen) (is : List Item) {t : Seen}
    → run name vcpus s is ≡ inr t
    → (all_admitted name vcpus is ≡ true) × ((j : Checked) → times j is + seen_of j s ≡ seen_of j t)
unfolding run all_admitted times
run-inr name vcpus s [] {t} e = (refl, λ j. ground (arith, e))
run-inr name vcpus s (refused e' ∷ is) {t} e = absurd (cc)
run-inr name vcpus s (gives k value ∷ is) {t} e =
    let (u, c, f) =
      passed (check_option name vcpus k value s) (λ u. run name vcpus u is) {t = t} e in
    let one = check_option-inr name vcpus k value s {t = u} c in
    let rest = run-inr name vcpus u is {t = t} f in
    (ground (arith, one, rest.0), λ j. ground (arith, one, rest.1 j, seen_of-mark j k s))

pub run-total :
    (name : List ℕ) (vcpus : ℕ) (s : Seen) (is : List Item)
    → all_admitted name vcpus is ≡ true
    → ((j : Checked) → times j is + seen_of j s ≤ 1)
    → (t : Seen) × (run name vcpus s is ≡ inr t)
unfolding run all_admitted times
run-total name vcpus s [] a h = (s, refl)
run-total name vcpus s (refused e ∷ is) a h = absurd (cc)
run-total name vcpus s (gives k value ∷ is) a h =
    let here : admits name vcpus k value ≡ true = ground (arith, a) in
    let later : all_admitted name vcpus is ≡ true = ground (arith, a) in
    let once : seen_of k s ≡ 0 = ground (arith, h k, alike-same k) in
    let (t, e) =
      run-total name vcpus (mark k s) is later
        (λ j. ground (arith, h j, seen_of-mark j k s once)) in
    (t, ground (arith, e, check_option-mark name vcpus k value s here once))
