-- ===== src/Reconcile/Converge.antt =====
-- The plan that is computed from a state that `Apply` saves.
use rucher.Manifest.{resources_beq_iff, resources_eq}
use rucher.Base.Sort.{sort_by}
use rucher.Fileset.Classify.{should_enable-not-unit}
use rucher.Reconcile.Steady.{
  units_of-All, All-units_of, systemd_units_of-All, All-systemd_units_of, set_of-All,
  diff_units-eq-nil, changed_secrets-eq-nil, diff_systemd-eq-nil, keep_absent-eq-nil, keys-hash_map,
  unchanged, diff_files-eq-no_changes, hashes_from-hash_map, no_changes, hash_map,
}
use rucher.Plan.{
  changed_secrets, removed_any_unit, orphan_changed, removed_secrets, removed_files, is_empty_plan,
  set_of, removed_support, disabled_units, enabled, desired_files, stopped_units,
}
use rucher.Plan.Compute.{
  needs_reload, restarts, removed, compute, unit_diff, changes, disabled, systemd_diff, file_diff,
}
use rucher.Plan.Desired.{All-lookup-desired_from, keys-desired_from-Distinct}
use rucher.State.{State}
use rucher.Base.Dict.{lookup-has, has, lookup, All-lookup, keys, Dict}
use rucher.Base.Int.{ℤ}
use rucher.Reconcile.NextState.{systemd_units_of, units_of, next_state, Codec}
use rucher.Cadre.{IsLoaded, File, IsClassified, Cadre}
use rucher.Base.{
  All-imp, All-both, keep-eq-nil, Distinct, ◌≡◌, ◌==◌, refl, true, false, not, none, some, String,
  [], arith, string_eq, nat_eq, All,
}

module _ (k : Codec) (c : Cadre) (uid : ℤ) (secret_hashes secret_values : Dict String)
    (loaded : IsLoaded c) (distinct : Distinct (keys secret_hashes)) where
  abbrev next : State
  next = next_state k c uid secret_hashes secret_values

  abbrev want : Dict File
  want = desired_files c.files

  next-files : next.files ≡ hash_map want
  unfolding next_state
  next-files = hashes_from-hash_map [] c.files

  want-Distinct : Distinct (keys want)
  want-Distinct = keys-desired_from-Distinct [] c.files tt

  file_diff-next : file_diff c.files next ≡ no_changes
  unfolding file_diff
  file_diff-next = rw next-files (
      diff_files-eq-no_changes (hash_map want) want (
        All-lookup (hash_map want) (hash_map want) (rw (keys-hash_map want) want-Distinct)
          (λ j h. refl)))

  removed-next : removed c.files next ≡ []
  unfolding removed removed_files
  removed-next =
      rw (next-files, keys-hash_map want) (keep_absent-eq-nil (keys want) (keys want) (λ j h. h))

  not-enabled_unit : (f : File) → IsClassified f → enabled f ≡ true → f.is_unit ≡ false
  not-enabled_unit f cl e = ground (arith, should_enable-not-unit f.name f.content, cl.unit)

  found : All (λ f. lookup f.name want ≡ some f) c.files
  found = All-lookup-desired_from [] c.files loaded.names

  systemd_diff-next : systemd_diff c.files next ≡ record { enable = []; replace = []; restart = [] }
  unfolding systemd_diff next_state
  systemd_diff-next = rw file_diff-next (
      diff_systemd-eq-nil next c.files (
        All-both c.files loaded.classified
          (All-systemd_units_of c.files (systemd_units_of c.files) (λ j h. h))
          (λ f cl listed e. listed (not-enabled_unit f cl e) e)))

  stays :
      (f : File)
      → lookup f.name want ≡ some f
      → enabled f ≡ true
      → elim (lookup f.name want) [ none ↦ true | some g ↦ not (enabled g) ] ≡ false
  stays f e g = ground arith

  disabled-next : disabled c.files next ≡ []
  unfolding disabled disabled_units next_state
  disabled-next =
      keep-eq-nil _ _
        (set_of-All _ _ (systemd_units_of-All c.files _ (All-imp c.files stays found)))

  changes-next : changes c.files secret_hashes next ≡ unchanged
  unfolding changes removed_support next_state
  changes-next = rw (
    file_diff-next,
    removed-next,
    changed_secrets-eq-nil secret_hashes secret_hashes
        (All-lookup secret_hashes secret_hashes distinct (λ j h. refl)),
  )

  unit_diff-next : unit_diff c.files secret_hashes next ≡ record { start = []; restart = [] }
  unfolding unit_diff next_state
  unit_diff-next = rw changes-next (
      diff_units-eq-nil (units_of c.files) c.files
        (All-units_of c.files (units_of c.files) (λ j h. h)))

  wanted :
      (f : File) → lookup f.name want ≡ some f → f.is_unit ≡ true → not (has f.name want) ≡ false
  wanted f e u = rw (lookup-has f.name want {v = f} e)

  stopped-next : stopped_units want (set_of next.units) ≡ []
  unfolding stopped_units next_state
  stopped-next =
      keep-eq-nil _ _ (set_of-All _ _ (units_of-All c.files _ (All-imp c.files wanted found)))

  removed_secrets-next : removed_secrets secret_hashes (keys next.secret_hashes) ≡ []
  unfolding removed_secrets next_state
  removed_secrets-next = keep_absent-eq-nil (keys secret_hashes) (keys secret_hashes) (λ j h. h)

  restarts-next : restarts c.files secret_hashes next ≡ record { units = []; systemd = [] }
  unfolding restarts orphan_changed
  restarts-next = rw (unit_diff-next, systemd_diff-next, file_diff-next)

  needs_reload-next : needs_reload c.files next ≡ false
  unfolding needs_reload removed_any_unit
  needs_reload-next = rw (systemd_diff-next, file_diff-next, removed-next, disabled-next)

  secrets-next : changed_secrets next.secret_hashes secret_hashes ≡ []
  unfolding next_state
  secrets-next =
      changed_secrets-eq-nil secret_hashes secret_hashes
        (All-lookup secret_hashes secret_hashes distinct (λ j h. refl))

  resources-next : (c.manifest.resources == next.resources) ≡ true
  unfolding next_state
  resources-next = (resources_beq_iff c.manifest.resources c.manifest.resources).1 refl

  -- For a cadre with distinct file names and flags true to the names, and secrets with distinct
  -- keys, the plan computed from the state that nextState makes of them is empty.
  pub compute-next_state : is_empty_plan (compute c secret_hashes next) ≡ true
  unfolding compute is_empty_plan sort_by
  compute-next_state = rw (
    file_diff-next, systemd_diff-next, removed-next, secrets-next, removed_secrets-next,
    resources-next, needs_reload-next, unit_diff-next, restarts-next, stopped-next, disabled-next,
  )
