-- ===== src/Platform/Options.antt =====
-- The options of a command line, as coldFireLaunchError of src/quetz_platform_contract.h reads them,
-- and the command lines that it is to accept.
use quetz.Base.{
  ℕ, ◌+◌, ◌≡◌, ◌≤◌, Bool, true, false, ◌&&◌, ◌||◌, none, some, List, [], ◌∷◌, ◌==◌, if◌then◌else◌,
  length,
}
use quetz.Platform.Launch.{
  LaunchError, Checked, machine, cpu, smp, accel, has_separator, one_dash, up_to, overrides,
  missing_value, ignored, forbidden, checked, argument_of, own_value, admits,
}

-- An option of a command line that matters: one that is refused at once, or a value that is given.
pub data Item : Type 0 where
  refused : LaunchError → Item
  gives : Checked → List ℕ → Item

unfoldable pub items : List (List ℕ) → List Item
items [] = []
items (arg ∷ []) =
    let option = one_dash arg in
    elim (argument_of (up_to b'=' option)) [
      | ignored ↦ []
      | forbidden ↦ refused overrides ∷ []
      | checked k ↦ elim (own_value option) [
        | none ↦ refused missing_value ∷ []
        | some value ↦ gives k value ∷ []
      ]
    ]
items (arg ∷ next ∷ args) =
    let option = one_dash arg in
    elim (argument_of (up_to b'=' option)) [
      | ignored ↦ items (next ∷ args)
      | forbidden ↦ refused overrides ∷ items (next ∷ args)
      | checked k ↦ elim (own_value option) [
        | none ↦ gives k next ∷ items args
        | some value ↦ gives k value ∷ items (next ∷ args)
      ]
    ]

-- Whether every option is given a value that the machine may have.
unfoldable pub all_admitted : List ℕ → ℕ → List Item → Bool
all_admitted name vcpus [] = true
all_admitted name vcpus (refused e ∷ is) = false
all_admitted name vcpus (gives k value ∷ is) =
    admits name vcpus k value && all_admitted name vcpus is

unfoldable pub alike : Checked → Checked → Bool
alike machine machine = true
alike machine cpu = false
alike machine smp = false
alike machine accel = false
alike cpu machine = false
alike cpu cpu = true
alike cpu smp = false
alike cpu accel = false
alike smp machine = false
alike smp cpu = false
alike smp smp = true
alike smp accel = false
alike accel machine = false
alike accel cpu = false
alike accel smp = false
alike accel accel = true

-- How often an option is given.
unfoldable pub times : Checked → List Item → ℕ
times k [] = 0
times k (refused e ∷ is) = times k is
times k (gives j value ∷ is) = (if alike k j then 1 else 0) + times k is

-- A command line that a ColdFire machine may be launched with.
pub record Launchable (args : List (List ℕ)) (vcpus : ℕ) (name : List ℕ) : Type 0 where
  pub one : 1 ≤ vcpus
  pub two : vcpus ≤ 2
  pub named : ((length name == 0) || has_separator name) ≡ false
  pub admitted : all_admitted name vcpus (items args) ≡ true
  pub machine_once : times machine (items args) ≡ 1
  pub cpu_once : times cpu (items args) ≤ 1
  pub smp_once : times smp (items args) ≤ 1
  pub accel_once : times accel (items args) ≤ 1
  pub both : vcpus ≡ 2 → (times smp (items args) ≡ 1) × (times accel (items args) ≡ 1)
