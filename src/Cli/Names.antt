-- ===== src/Cli/Names.antt =====
-- A flag never becomes a name.
use rucher.Cli.Clean.{takes_any, names_of, Clean, no_flags}
use rucher.Cli.{Action, command, show, refuse, unknown, apply_all_only, apply_needs_name}
use rucher.Cli.Dispatch.{when◌then◌else◌, when◌then◌else◌}
use rucher.Base.{◌⊎◌, ◌≡◌, true, false, [], string_eq, nat_eq}

abbrev Plain : Action → Type 0
Plain (command c) = takes_any c ≡ false → no_flags (names_of c) ≡ true
Plain (show u n) = Unit
Plain (refuse p n) = Unit
Plain (unknown a n) = Unit
Plain (apply_all_only n) = Unit
Plain (apply_needs_name n) = Unit

record IsPlain (x : Action) : Type 0 where
  at : Plain x

-- an action that takes no name, or its one name as it stands
abbrev TakesNone : Action → Type 0
TakesNone (command c) = (takes_any c ≡ true) ⊎ (names_of c ≡ [])
TakesNone (show u n) = Unit
TakesNone (refuse p n) = Unit
TakesNone (unknown a n) = Unit
TakesNone (apply_all_only n) = Unit
TakesNone (apply_needs_name n) = Unit
