-- ===== src/Platform/Accepted.antt =====
-- coldFireLaunchError of src/quetz_platform_contract.h accepts what it is to accept.
use quetz.Base.{
  ℕ, ◌+◌, ◌≡◌, ◌↔◌, ◌≤◌, false, ◌||◌, none, List, ◌==◌, ltb, subst, length, ◌⊎◌, inl, inr, refl,
  sym, ◌∙◌, arith, Bool-cases,
}
use quetz.Platform.Launch.{
  LaunchError, Checked, machine, cpu, smp, accel, Seen, nothing_seen, has_separator, scan, judge,
  cold_fire_launch_error,
}
use quetz.Platform.Options.{items, times, Launchable}
use quetz.Platform.Scan.{seen_of, scan-items, run-inr, run-total}

seen_of_most : (k : Checked) (s : Seen) → seen_of k s ≤ 1
unfolding seen_of
seen_of_most machine s = ground arith
seen_of_most cpu s = ground arith
seen_of_most smp s = ground arith
seen_of_most accel s = ground arith

start_unseen : (k : Checked) → seen_of k nothing_seen ≡ 0
unfolding seen_of
start_unseen machine = refl
start_unseen cpu = refl
start_unseen smp = refl
start_unseen accel = refl

judge_seen :
    (vcpus : ℕ) (s : Seen)
    → judge vcpus (inr s) ≡ none
    → (seen_of machine s ≡ 1) × (vcpus ≡ 2 → (seen_of smp s ≡ 1) × (seen_of accel s ≡ 1))
unfolding judge seen_of
judge_seen vcpus s e = (ground (arith, e), λ h. (ground (arith, e, h), ground (arith, e, h)))

judge-none :
    (vcpus : ℕ) (s : Seen)
    → seen_of machine s ≡ 1
    → (vcpus ≡ 2 → (seen_of smp s ≡ 1) × (seen_of accel s ≡ 1))
    → judge vcpus (inr s) ≡ none
unfolding judge seen_of
judge-none vcpus s h k = elim (Bool-cases (vcpus == 2)) [
  | inl e ↦ ground (arith, h, k (ground (arith, e)))
  | inr e ↦ ground (arith, h, e)
]

judged : (vcpus : ℕ) (r : LaunchError ⊎ Seen) → judge vcpus r ≡ none → (t : Seen) × (r ≡ inr t)
unfolding judge
judged vcpus (inl e) h = absurd (cc)
judged vcpus (inr t) h = (t, refl)

once_of :
    (args : List (List ℕ)) (vcpus : ℕ) (name : List ℕ)
    → Launchable args vcpus name
    → (k : Checked) → times k (items args) ≤ 1
once_of args vcpus name v machine = ground (arith, v.machine_once)
once_of args vcpus name v cpu = v.cpu_once
once_of args vcpus name v smp = v.smp_once
once_of args vcpus name v accel = v.accel_once

accepted :
    (args : List (List ℕ)) (vcpus : ℕ) (name : List ℕ)
    → cold_fire_launch_error args vcpus name ≡ none
    → Launchable args vcpus name
unfolding cold_fire_launch_error
accepted args vcpus name e =
    let counted : (ltb vcpus 1 || ltb 2 vcpus) ≡ false = ground (arith, e) in
    let named : ((length name == 0) || has_separator name) ≡ false = ground (arith, e) in
    let verdict : judge vcpus (scan name vcpus nothing_seen args) ≡ none =
      ground (arith, e, counted, named) in
    let (t, s) = judged vcpus (scan name vcpus nothing_seen args) verdict in
    let l =
      run-inr name vcpus nothing_seen (items args) {t = t}
        (sym (scan-items name vcpus nothing_seen args) ∙ s) in
    let j = judge_seen vcpus t (subst (λ r. judge vcpus r ≡ none) s verdict) in
    let count : (k : Checked) → times k (items args) ≡ seen_of k t =
      λ k. ground (arith, l.1 k, start_unseen k) in
    record {
      one = ground (arith, counted);
      two = ground (arith, counted);
      named = named;
      admitted = l.0;
      machine_once = count machine ∙ j.0;
      cpu_once = ground (arith, count cpu, seen_of_most cpu t);
      smp_once = ground (arith, count smp, seen_of_most smp t);
      accel_once = ground (arith, count accel, seen_of_most accel t);
      both = λ h. (count smp ∙ (j.1 h).0, count accel ∙ (j.1 h).1);
    }

launches :
    (args : List (List ℕ)) (vcpus : ℕ) (name : List ℕ)
    → Launchable args vcpus name
    → cold_fire_launch_error args vcpus name ≡ none
unfolding cold_fire_launch_error
launches args vcpus name v =
    let once : (k : Checked) → times k (items args) + seen_of k nothing_seen ≤ 1 =
      λ k. ground (arith, start_unseen k, once_of args vcpus name v k) in
    let (t, e) = run-total name vcpus nothing_seen (items args) v.admitted once in
    let l = run-inr name vcpus nothing_seen (items args) {t = t} e in
    let count : (k : Checked) → seen_of k t ≡ times k (items args) =
      λ k. ground (arith, l.1 k, start_unseen k) in
    let verdict : judge vcpus (scan name vcpus nothing_seen args) ≡ none =
      subst (λ r. judge vcpus r ≡ none) (sym (scan-items name vcpus nothing_seen args ∙ e))
        (judge-none vcpus t (count machine ∙ v.machine_once)
          (λ h. (count smp ∙ (v.both h).0, count accel ∙ (v.both h).1))) in
    ground (arith, verdict, v.one, v.two, v.named)

-- coldFireLaunchError accepts a command line, for a machine's name and a number of CPUs, exactly
-- where: there are one or two CPUs; the machine has a name, without a separator; no argument is
-- -readconfig, -global or -enable-kvm, or a checked option without a value; each value of a
-- checked option is one that the machine may have; the machine is given once, the CPU, the
-- topology and the accelerator once at most, and these two exactly once where there are two CPUs.
pub cold_fire_launch_error-Launchable :
    (args : List (List ℕ)) (vcpus : ℕ) (name : List ℕ)
    → (cold_fire_launch_error args vcpus name ≡ none) ↔ Launchable args vcpus name
cold_fire_launch_error-Launchable args vcpus name =
    (accepted args vcpus name, launches args vcpus name)
