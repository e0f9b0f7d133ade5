-- ===== src/Fileset.antt =====
-- internal/fileset/fileset.go: which files are Quadlet units, which are native systemd units, which
-- of those are enabled, and the name of the service that a Quadlet unit generates.
-- sha256 is a parameter of the modules that hash.
pub mod Classify
use rucher.Base.{Bool, ◌||◌, true, false, String, ◌<>◌, List, [], ◌∷◌, Option, none, some}
use rucher.Base.{◌==◌, string_eq, if◌then◌else◌, contains, any}
use rucher.Base.Text.{ext, cut_prefix, cut_suffix, trim_space, split, cut_last_dot}

abbrev unit_exts : List String
unit_exts = ".container" ∷ ".volume" ∷ ".network" ∷ ".pod" ∷ ".kube" ∷ ".image" ∷ ".build" ∷ []

unfoldable pub is_unit_file : String → Bool
is_unit_file name = contains (ext name) unit_exts

abbrev systemd_unit_exts : List String
systemd_unit_exts = ".timer" ∷ ".socket" ∷ ".path" ∷ ".service" ∷ []

unfoldable pub is_systemd_unit : String → Bool
is_systemd_unit name = contains (ext name) systemd_unit_exts

-- one line of the scan in `hasSection`
unfoldable pub is_header : String → String → Bool
is_header name line = elim (cut_prefix "[" line) [
  | none ↦ false
  | some s ↦ elim (cut_suffix "]" s) [ none ↦ false | some t ↦ t == name ]
]

-- The scanner's lines: the cap of 1 MiB on a line is not modelled.
unfoldable pub has_section : String → String → Bool
unfolding is_header trim_space
has_section content name = any (λ line. is_header name (trim_space line)) (split b'\n' content)

unfoldable pub should_enable : String → String → Bool
unfolding has_section
should_enable name content =
    let e = ext name in
    if contains e (".timer" ∷ ".socket" ∷ ".path" ∷ [])
    then true
    else if ".service" == e
    then has_section content "Install"
    else false

unfoldable pub unit_service : String → String
unit_service unit = elim (cut_last_dot unit) [
  | none ↦ unit
  | some (stem, e) ↦
      if e == "container" || e == "kube"
      then stem <> ".service"
      else stem <> ("-" <> (e <> ".service"))
]

abbrev pub prune_timer : String
prune_timer = "rucher-prune.timer"

abbrev pub prune_service : String
prune_service = "rucher-prune.service"

unfoldable pub is_reserved : String → Bool
is_reserved name = name == prune_timer || name == prune_service
