-- ===== src/Platform/LaunchExamples.antt =====
-- Command lines of QEMU: -M mcf,x=y --cpu=cfv4e
use quetz.Base.{ℕ, ◌≡◌, ◌↔◌, none, some, List, [], ◌∷◌, refl}
use quetz.Platform.{break_at}
use quetz.Platform.Launch.{
  machine_missing, same, starts, contains, up_to, has_separator, one_dash, argument_of, own_value,
  admits, check_option, scan, judge, cold_fire_launch_error,
}
use quetz.Platform.Options.{Launchable}
use quetz.Platform.Accepted.{cold_fire_launch_error-Launchable}

abbrev mcf : List ℕ
mcf = b'm' ∷ b'c' ∷ b'f' ∷ []

abbrev with_machine : List (List ℕ)
with_machine = (b'-' ∷ b'M' ∷ []) ∷ (b'm' ∷ b'c' ∷ b'f' ∷ b',' ∷ b'x' ∷ b'=' ∷ b'y' ∷ []) ∷ []

abbrev with_cpu : List (List ℕ)
with_cpu =
    (b'-' ∷ b'-' ∷ b'c' ∷ b'p' ∷ b'u' ∷ b'=' ∷ b'c' ∷ b'f' ∷ b'v' ∷ b'4' ∷ b'e' ∷ []) ∷ with_machine

accepted_line : cold_fire_launch_error with_cpu 1 mcf ≡ none
unfolding break_at same starts contains up_to has_separator one_dash argument_of own_value admits
    check_option scan judge cold_fire_launch_error
accepted_line = refl

no_machine : cold_fire_launch_error [] 1 mcf ≡ some machine_missing
unfolding has_separator scan judge cold_fire_launch_error
no_machine = refl

cold_fire_launch_error-Launchable_example :
    (cold_fire_launch_error with_cpu 1 mcf ≡ none) ↔ Launchable with_cpu 1 mcf
cold_fire_launch_error-Launchable_example = cold_fire_launch_error-Launchable with_cpu 1 mcf
