-- ===== src/Plan/Reload.antt =====
-- When a plan reloads the user manager.
use rucher.Base.{
  any-append, is_empty, any, ◌≡◌, ◌∙◌, ◌||◌, ◌∷◌, refl, Bool, true, false, not, String, List, [],
  arith, string_eq, nat_eq,
}
use rucher.Base.Sort.Laws.{any-sort_by, is_empty-sort_by}
use rucher.Base.Dict.{Dict}
use rucher.Fileset.{is_unit_file, is_systemd_unit}
use rucher.Cadre.{File, Cadre}
use rucher.State.{State}
use rucher.Plan.{desired_files, diff_files, removed_any_unit}
use rucher.Plan.Compute.{compute, file_diff, systemd_diff, removed, disabled, needs_reload}

abbrev any_unit : File → Bool
any_unit f = f.is_unit || f.is_systemd_unit

abbrev pub any_unit_name : String → Bool
any_unit_name name = is_unit_file name || is_systemd_unit name

diff_files-unit :
    (prior : Dict String) (desired : Dict File)
    → any any_unit (diff_files prior desired).write ≡ true
    → (not (is_empty (diff_files prior desired).unit_changed)
        || not (is_empty (diff_files prior desired).systemd_changed))
      ≡ true
unfolding diff_files
diff_files-unit prior [] h = ground arith
diff_files-unit prior ((name, f) ∷ desired) h = ground (arith, diff_files-unit prior desired)

any-eq-nil : (p : File → Bool) (fs : List File) → any p fs ≡ true → is_empty fs ≡ false
any-eq-nil p [] h = ground arith
any-eq-nil p (f ∷ fs) h = refl

module _ (c : Cadre) (secret_hashes : Dict String) (prior : State) where
  any-write_files : any any_unit (compute c secret_hashes prior).write_files ≡ (
      any any_unit (file_diff c.files prior).write
      || any any_unit (systemd_diff c.files prior).replace)
  unfolding compute
  any-write_files =
      any-sort_by (λ (f : File). f.name) any_unit _
      ∙ any-append any_unit (file_diff c.files prior).write (systemd_diff c.files prior).replace

  any-remove_files :
      any any_unit_name (compute c secret_hashes prior).remove_files
      ≡ removed_any_unit (removed c.files prior)
  unfolding compute removed_any_unit
  any-remove_files = any-sort_by (λ n. n) any_unit_name (removed c.files prior)

  is_empty-disable_units :
      is_empty (compute c secret_hashes prior).disable_units ≡ is_empty (disabled c.files prior)
  unfolding compute
  is_empty-disable_units = is_empty-sort_by (λ n. n) (disabled c.files prior)

  file_diff-unit :
      any any_unit (file_diff c.files prior).write ≡ true
      → (not (is_empty (file_diff c.files prior).unit_changed)
          || not (is_empty (file_diff c.files prior).systemd_changed))
        ≡ true
  unfolding file_diff
  file_diff-unit h = diff_files-unit prior.files (desired_files c.files) h

  reload-covers :
      (any any_unit (file_diff c.files prior).write
          || any any_unit (systemd_diff c.files prior).replace
          || removed_any_unit (removed c.files prior)
          || not (is_empty (disabled c.files prior)))
        ≡ true
      → needs_reload c.files prior ≡ true
  unfolding needs_reload
  reload-covers h =
      ground (arith, file_diff-unit, any-eq-nil any_unit (systemd_diff c.files prior).replace)

  -- A plan that writes or removes a unit file of either kind, or disables a unit, reloads the daemon.
  pub daemon_reload-covers :
      (any any_unit (compute c secret_hashes prior).write_files
          || any any_unit_name (compute c secret_hashes prior).remove_files
          || not (is_empty (compute c secret_hashes prior).disable_units))
        ≡ true
      → (compute c secret_hashes prior).daemon_reload ≡ true
  unfolding compute
  daemon_reload-covers h =
      ground (arith, any-write_files, any-remove_files, is_empty-disable_units, reload-covers)
