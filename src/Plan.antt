-- ===== src/Plan.antt =====
-- internal/plan/plan.go: the reconcile plan from the desired state of a cadre and its prior state.
-- A Go map is the list of its entries in the order of one iteration, and a `map[string]bool` the
-- list of the names that are set.
pub mod Compute
pub mod Desired
pub mod Members
pub mod Lifecycle
pub mod Stale
pub mod Reload
use rucher.Base.{
  Bool, true, false, ◌&&◌, ◌||◌, not, String, List, [], ◌∷◌, ◌++◌, Option, none, some,
}
use rucher.Base.{◌==◌, string_eq, if◌then◌else◌, contains, any, keep, is_empty}
use rucher.Base.Dict.{Dict, lookup, insert, get, has, keys}
use rucher.Base.Sort.{sort, sort_by}
use rucher.Base.Text.{is_none}
use rucher.Manifest.{Resources, resources_eq}
use rucher.Fileset.{is_unit_file, is_systemd_unit, should_enable}
use rucher.Quadletref.{extract}
use rucher.Cadre.{File, Cadre}
use rucher.State.{State}

pub record Plan : Type 0 where
  pub name : String
  pub write_files : List File
  pub remove_files : List String
  pub create_secrets : List String
  pub remove_secrets : List String
  pub resources : Option Resources
  pub daemon_reload : Bool
  pub start_units : List String
  pub restart_units : List String
  pub stop_units : List String
  pub enable_units : List String
  pub restart_systemd_units : List String
  pub disable_units : List String

-- `Empty` tells that nothing is left to do.
unfoldable pub is_empty_plan : Plan → Bool
is_empty_plan p =
    is_empty p.write_files
    && is_empty p.remove_files
    && is_empty p.create_secrets
    && is_empty p.remove_secrets
    && is_none p.resources
    && not p.daemon_reload
    && is_empty p.start_units
    && is_empty p.restart_units
    && is_empty p.stop_units
    && is_empty p.enable_units
    && is_empty p.restart_systemd_units
    && is_empty p.disable_units

-- desiredFiles, by the loop over c.Files
unfoldable pub desired_from : Dict File → List File → Dict File
desired_from d [] = d
desired_from d (f ∷ fs) = desired_from (insert f.name f d) fs

abbrev pub desired_files : List File → Dict File
desired_files = desired_from []

-- what the loop over desiredFiles fills
pub record FileDiff : Type 0 where
  pub write : List File
  pub unit_changed : List String
  pub systemd_changed : List String
  pub support_changed : List String

unfoldable pub changed_file : String → File → FileDiff → FileDiff
changed_file name f d =
    let d' = record d { write = f ∷ d.write } in
    if f.is_unit
    then record d' { unit_changed = name ∷ d.unit_changed }
    else if f.is_systemd_unit
    then record d' { systemd_changed = name ∷ d.systemd_changed }
    else record d' { support_changed = name ∷ d.support_changed }

unfoldable pub diff_files : Dict String → Dict File → FileDiff
unfolding changed_file
diff_files prior [] = record {
  write = [];
  unit_changed = [];
  systemd_changed = [];
  support_changed = [];
}
diff_files prior ((name, f) ∷ desired) =
    let rest = diff_files prior desired in
    if get prior name == f.hash then rest else changed_file name f rest

-- the names of prior.Files that are no longer desired
unfoldable pub removed_files : Dict File → List String → List String
removed_files desired names = keep (λ name. not (has name desired)) names

unfoldable pub removed_support : List String → List String
removed_support removed =
    keep (λ name. not (is_unit_file name) && not (is_systemd_unit name)) removed

-- secrets whose value hash changed
unfoldable pub changed_secrets : Dict String → Dict String → List String
changed_secrets prior [] = []
changed_secrets prior ((key, h) ∷ hashes) =
    let rest = changed_secrets prior hashes in if get prior key == h then rest else key ∷ rest

unfoldable pub removed_secrets : Dict String → List String → List String
removed_secrets hashes names = keep (λ key. not (has key hashes)) names

-- what the loop over c.Files fills for the native systemd units
pub record SystemdDiff : Type 0 where
  pub enable : List String
  pub replace : List File
  pub restart : List String

abbrev pub enabled : File → Bool
enabled f = should_enable f.name f.content

unfoldable pub diff_systemd : State → List String → List File → SystemdDiff
diff_systemd prior changed [] = record { enable = []; replace = []; restart = [] }
diff_systemd prior changed (f ∷ fs) =
    let d = diff_systemd prior changed fs in
    if not (enabled f)
    then d
    else if not (contains f.name prior.systemd_units)
    then record d {
      enable = f.name ∷ d.enable;
      replace = (if get prior.files f.name == f.hash then f ∷ d.replace else d.replace);
    }
    else if contains f.name changed
    then record d { restart = f.name ∷ d.restart }
    else d

-- units that left the desired set, or that are no longer to be enabled
unfoldable pub disabled_units : Dict File → List String → List String
disabled_units desired units =
    keep (λ u. elim (lookup u desired) [ none ↦ true | some f ↦ not (enabled f) ]) units

unfoldable pub removed_any_unit : List String → Bool
removed_any_unit removed = any (λ name. is_unit_file name || is_systemd_unit name) removed

unfoldable pub any_ref : List String → List String → Bool
any_ref refs changed = any (λ r. contains r changed) refs

-- what the loop over c.Files fills for the Quadlet units
pub record UnitDiff : Type 0 where
  pub start : List String
  pub restart : List String

-- the inputs that a unit may refer to, as they changed
pub record Changes : Type 0 where
  pub units : List String
  pub support : List String
  pub removed : List String
  pub secrets : List String

unfoldable pub refers : Changes → File → Bool
unfolding any_ref
refers ch f =
    let refs = extract f.content in
    any_ref refs.files ch.support
    || any_ref refs.files ch.removed
    || any_ref refs.secrets ch.secrets

unfoldable pub diff_units : Changes → List String → List File → UnitDiff
unfolding refers
diff_units ch prior [] = record { start = []; restart = [] }
diff_units ch prior (f ∷ fs) =
    let d = diff_units ch prior fs in
    if not f.is_unit
    then d
    else if not (contains f.name prior)
    then record d { start = f.name ∷ d.start }
    else if contains f.name ch.units || refers ch f
    then record d { restart = f.name ∷ d.restart }
    else d

unfoldable pub referenced : List File → List String
referenced [] = []
referenced (f ∷ fs) =
    let rest = referenced fs in if f.is_unit then (extract f.content).files ++ rest else rest

unfoldable pub orphan_changed : List String → List File → Bool
unfolding referenced
orphan_changed changed files = any (λ name. not (contains name (referenced files))) changed

-- the coarse fallback over c.Files; the lists are those that the loops above have filled
pub record Restarts : Type 0 where
  pub units : List String
  pub systemd : List String

unfoldable pub restart_all : State → List String → List String → List File → Restarts → Restarts
restart_all prior started fresh [] r = r
restart_all prior started fresh (f ∷ fs) r =
    let next =
      (if f.is_unit
          && contains f.name prior.units
          && not (contains f.name r.units)
          && not (contains f.name started)
        then record r { units = r.units ++ f.name ∷ [] }
        else if enabled f
            && contains f.name prior.systemd_units
            && not (contains f.name r.systemd)
            && not (contains f.name fresh)
        then record r { systemd = r.systemd ++ f.name ∷ [] }
        else r) in
    restart_all prior started fresh fs next

-- the distinct members of a list: the keys of the `map[string]bool` made from it
unfoldable pub set_of : List String → List String
set_of [] = []
set_of (x ∷ xs) = let rest = set_of xs in if contains x rest then rest else x ∷ rest

unfoldable pub stopped_units : Dict File → List String → List String
stopped_units desired units = keep (λ u. not (has u desired)) units
