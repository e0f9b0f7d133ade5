-- ===== src/Plan/Compute.antt =====
-- `Compute` of internal/plan/plan.go: the loops put together, and the final sorting.
use rucher.Base.{Bool, ◌||◌, not, String, List, ◌++◌, none, some}
use rucher.Base.{◌==◌, is_empty, if◌then◌else◌}
use rucher.Base.Dict.{Dict, keys}
use rucher.Base.Sort.{sort, sort_by}
use rucher.Manifest.{resources_eq}
use rucher.Cadre.{File, Cadre}
use rucher.State.{State}
use rucher.Plan.{Plan, FileDiff, SystemdDiff, Changes, UnitDiff, Restarts}
use rucher.Plan.{
  desired_files, diff_files, removed_files, removed_support, changed_secrets, removed_secrets,
}
use rucher.Plan.{
  diff_systemd, disabled_units, removed_any_unit, diff_units, orphan_changed, restart_all, set_of,
}
use rucher.Plan.{stopped_units}

module _ (files : List File) (prior : State) where
  unfoldable pub file_diff : FileDiff
  file_diff = diff_files prior.files (desired_files files)

  unfoldable pub removed : List String
  removed = removed_files (desired_files files) (keys prior.files)

  unfoldable pub systemd_diff : SystemdDiff
  systemd_diff = diff_systemd prior file_diff.systemd_changed files

  unfoldable pub disabled : List String
  disabled = disabled_units (desired_files files) (set_of prior.systemd_units)

  unfoldable pub needs_reload : Bool
  needs_reload =
      not (is_empty systemd_diff.replace)
      || not (is_empty file_diff.unit_changed)
      || not (is_empty file_diff.systemd_changed)
      || removed_any_unit removed
      || not (is_empty disabled)

module _ (files : List File) (secret_hashes : Dict String) (prior : State) where
  unfoldable pub changes : Changes
  changes = record {
    units = (file_diff files prior).unit_changed;
    support = (file_diff files prior).support_changed;
    removed = removed_support (removed files prior);
    secrets = changed_secrets prior.secret_hashes secret_hashes;
  }

  unfoldable pub unit_diff : UnitDiff
  unit_diff = diff_units changes prior.units files

  -- the restarts behind the coarse fallback
  unfoldable pub restarts : Restarts
  restarts =
      let r : Restarts = record {
        units = unit_diff.restart;
        systemd = (systemd_diff files prior).restart;
      } in
      if orphan_changed (file_diff files prior).support_changed files
      then restart_all prior unit_diff.start (systemd_diff files prior).enable files r
      else r

unfoldable pub compute : Cadre → Dict String → State → Plan
compute c secret_hashes prior = record {
  name = c.name;
  write_files =
      sort_by (λ f. f.name)
        ((file_diff c.files prior).write ++ (systemd_diff c.files prior).replace);
  remove_files = sort (removed c.files prior);
  create_secrets = sort (changed_secrets prior.secret_hashes secret_hashes);
  remove_secrets = sort (removed_secrets secret_hashes (keys prior.secret_hashes));
  resources = if c.manifest.resources == prior.resources then none else some c.manifest.resources;
  daemon_reload = needs_reload c.files prior;
  start_units = sort (unit_diff c.files secret_hashes prior).start;
  restart_units = sort (restarts c.files secret_hashes prior).units;
  stop_units = sort (stopped_units (desired_files c.files) (set_of prior.units));
  enable_units = sort (systemd_diff c.files prior).enable;
  restart_systemd_units = sort (restarts c.files secret_hashes prior).systemd;
  disable_units = sort (disabled c.files prior);
}
