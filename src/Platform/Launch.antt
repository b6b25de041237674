-- ===== src/Platform/Launch.antt =====
-- coldFireLaunchError of src/quetz_platform_contract.h: the QEMU options that a ColdFire machine may
-- be launched with.
use quetz.Base.{
  ℕ, ◌+◌, Bool, true, false, not, ◌&&◌, ◌||◌, Option, none, some, List, [], ◌∷◌, ◌==◌, ltb,
  if◌then◌else◌, length, ◌⊎◌, inl, inr,
}
use quetz.Platform.{break_at}

-- The messages that it returns.
pub data LaunchError : Type 0 where
  cpu_count machine_name overrides missing_value machine_differs cpu_differs topology_differs :
      LaunchError
  threads machine_missing smp_missing : LaunchError

-- The options whose values it checks.
pub data Checked : Type 0 where
  machine cpu smp accel : Checked

-- machine_seen and its like
pub record Seen : Type 0 where
  pub machine_seen : Bool
  pub cpu_seen : Bool
  pub smp_seen : Bool
  pub accel_seen : Bool

abbrev pub nothing_seen : Seen
nothing_seen = record {
  machine_seen = false;
  cpu_seen = false;
  smp_seen = false;
  accel_seen = false;
}

-- Equality of texts
unfoldable pub same : List ℕ → List ℕ → Bool
same [] [] = true
same [] (y ∷ ys) = false
same (x ∷ xs) [] = false
same (x ∷ xs) (y ∷ ys) = (x == y) && same xs ys

unfoldable pub starts : List ℕ → List ℕ → Bool
starts [] ys = true
starts (x ∷ xs) [] = false
starts (x ∷ xs) (y ∷ ys) = (x == y) && starts xs ys

-- `value.find(needle) != npos`, for a needle that is not empty
unfoldable pub contains : List ℕ → List ℕ → Bool
contains needle [] = false
contains needle (y ∷ ys) = starts needle (y ∷ ys) || contains needle ys

-- `value.substr(0, value.find(c))`
unfoldable pub up_to : ℕ → List ℕ → List ℕ
up_to c text = elim (break_at c text) [ none ↦ text | some r ↦ r.0 ]

-- `machine_name.find_first_of(", \t\n=") != npos`
unfoldable pub has_separator : List ℕ → Bool
has_separator [] = false
has_separator (c ∷ cs) =
    (c == b',') || (c == b' ') || (c == 9) || (c == 10) || (c == b'=') || has_separator cs

-- An option, with one dash where it has two.
unfoldable pub one_dash : List ℕ → List ℕ
one_dash [] = []
one_dash (a ∷ []) = a ∷ []
one_dash (a ∷ b ∷ cs) = if (a == b'-') && (b == b'-') then b ∷ cs else a ∷ b ∷ cs

-- What an argument is: ignored, forbidden, or an option that is checked.
pub data Argument : Type 0 where
  ignored forbidden : Argument
  checked : Checked → Argument

unfoldable pub argument_of : List ℕ → Argument
argument_of key =
    if same key (b'-' ∷ b'r' ∷ b'e' ∷ b'a' ∷ b'd' ∷ b'c' ∷ b'o' ∷ b'n' ∷ b'f' ∷ b'i' ∷ b'g' ∷ [])
      || same key (b'-' ∷ b'g' ∷ b'l' ∷ b'o' ∷ b'b' ∷ b'a' ∷ b'l' ∷ [])
      || same key (b'-' ∷ b'e' ∷ b'n' ∷ b'a' ∷ b'b' ∷ b'l' ∷ b'e' ∷ b'-' ∷ b'k' ∷ b'v' ∷ b'm' ∷ [])
    then forbidden
    else if same key (b'-' ∷ b'm' ∷ b'a' ∷ b'c' ∷ b'h' ∷ b'i' ∷ b'n' ∷ b'e' ∷ [])
        || same key (b'-' ∷ b'M' ∷ [])
    then checked machine
    else if same key (b'-' ∷ b'c' ∷ b'p' ∷ b'u' ∷ [])
    then checked cpu
    else if same key (b'-' ∷ b's' ∷ b'm' ∷ b'p' ∷ [])
    then checked smp
    else if same key (b'-' ∷ b'a' ∷ b'c' ∷ b'c' ∷ b'e' ∷ b'l' ∷ [])
    then checked accel
    else ignored

-- The value that an argument carries behind an equals sign.
unfoldable pub own_value : List ℕ → Option (List ℕ)
own_value option = elim (break_at b'=' option) [ none ↦ none | some r ↦ some (r.1) ]

abbrev pub tcg : List ℕ
tcg = b't' ∷ b'c' ∷ b'g' ∷ []

-- Whether the value of an option is one that the machine may have. With one or two CPUs, their number
-- is a digit.
unfoldable pub admits : List ℕ → ℕ → Checked → List ℕ → Bool
admits name vcpus machine value =
    same (up_to b',' value) name
    && not (contains (b',' ∷ b't' ∷ b'y' ∷ b'p' ∷ b'e' ∷ b'=' ∷ []) value)
    && not (contains (b',' ∷ b'a' ∷ b'c' ∷ b'c' ∷ b'e' ∷ b'l' ∷ b'=' ∷ []) value)
admits name vcpus cpu value = same value (b'c' ∷ b'f' ∷ b'v' ∷ b'4' ∷ b'e' ∷ [])
admits name vcpus smp value = same value ((b'0' + vcpus) ∷ [])
admits name vcpus accel value =
    same value (
      b't' ∷ b'c' ∷ b'g' ∷ b',' ∷ b't' ∷ b'h' ∷ b'r' ∷ b'e' ∷ b'a' ∷ b'd' ∷ b'=' ∷ b's' ∷ b'i'
      ∷ b'n' ∷ b'g' ∷ b'l' ∷ b'e' ∷ [])
    || ((vcpus == 1) && same value tcg)

-- The checks of one option
unfoldable pub check_option : List ℕ → ℕ → Checked → List ℕ → Seen → LaunchError ⊎ Seen
check_option name vcpus machine value s =
    if s.machine_seen || not (admits name vcpus machine value)
    then inl machine_differs
    else inr (record s { machine_seen = true })
check_option name vcpus cpu value s =
    if s.cpu_seen || not (admits name vcpus cpu value)
    then inl cpu_differs
    else inr (record s { cpu_seen = true })
check_option name vcpus smp value s =
    if s.smp_seen || not (admits name vcpus smp value)
    then inl topology_differs
    else inr (record s { smp_seen = true })
check_option name vcpus accel value s =
    if s.accel_seen || not (admits name vcpus accel value)
    then inl threads
    else inr (record s { accel_seen = true })

abbrev pub and_then : LaunchError ⊎ Seen → (Seen → LaunchError ⊎ Seen) → LaunchError ⊎ Seen
and_then (inl e) k = inl e
and_then (inr s) k = k s

-- The loop over the arguments. An option without a value of its own takes the next argument.
unfoldable pub scan : List ℕ → ℕ → Seen → List (List ℕ) → LaunchError ⊎ Seen
scan name vcpus s [] = inr s
scan name vcpus s (arg ∷ []) =
    let option = one_dash arg in
    elim (argument_of (up_to b'=' option)) [
      | ignored ↦ inr s
      | forbidden ↦ inl overrides
      | checked k ↦ elim (own_value option) [
        | none ↦ inl missing_value
        | some value ↦ check_option name vcpus k value s
      ]
    ]
scan name vcpus s (arg ∷ next ∷ args) =
    let option = one_dash arg in
    elim (argument_of (up_to b'=' option)) [
      | ignored ↦ scan name vcpus s (next ∷ args)
      | forbidden ↦ inl overrides
      | checked k ↦ elim (own_value option) [
        | none ↦ and_then (check_option name vcpus k next s) (λ t. scan name vcpus t args)
        | some value ↦
            and_then (check_option name vcpus k value s) (λ t. scan name vcpus t (next ∷ args))
      ]
    ]

-- coldFireLaunchError, past the loop
unfoldable pub judge : ℕ → LaunchError ⊎ Seen → Option LaunchError
judge vcpus (inl e) = some e
judge vcpus (inr s) =
    if not s.machine_seen
    then some machine_missing
    else if (vcpus == 2) && (not s.smp_seen || not s.accel_seen)
    then some smp_missing
    else none

-- coldFireLaunchError; `none` is the null pointer.
unfoldable pub cold_fire_launch_error : List (List ℕ) → ℕ → List ℕ → Option LaunchError
cold_fire_launch_error args vcpus name =
    if ltb vcpus 1 || ltb 2 vcpus
    then some cpu_count
    else if (length name == 0) || has_separator name
    then some machine_name
    else judge vcpus (scan name vcpus nothing_seen args)
