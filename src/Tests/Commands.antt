-- ===== src/Tests/Commands.antt =====
-- The commands on a directory with one cadre, requested twice.
use rucher.Base.{◌≡◌, ◌∷◌, refl, true, false, none, String, List, [], string_eq, nat_eq, All}
use rucher.Base.Result.{ok}
use rucher.Agent.{DirEntry}
use rucher.Cadre.Load.{
  Directory, Entry, Loader, regular, load, load_entries, load_entry, load_kind, add_file, file_of,
  is_service, note_secrets,
}
use rucher.Manifest.{load_manifest}
use rucher.Cadre.Validate.{
  validate_unit, check_unit, generated_from, check_shadow, check_name, check_secrets, validate,
}
use rucher.Manifest.Validate.{
  lowers_to, is_alpha_word, is_memory_max, check_prune, check_resources, check_logins,
  validate as validate_manifest,
}
use rucher.Tests.{run_apply, env, fresh_host, manifest}
use rucher.Cli.Commands.{
  subdirs, pick, discover, for_each, over, locked, quadlets, Desk, linted, validate_loaded,
  validate_step, cmd_validate, applied, apply_loaded, apply_step, cmd_apply,
}
use rucher.Cli.Exit.{
  IsPicked, IsValid, Applies, paths, cmd_validate-IsValid, cmd_apply-Applies, discover-IsPicked,
}

abbrev entry : String → String → Entry
entry name content = record { name = name; kind = regular; content = ok content }

abbrev cadre_dir : String → Directory
cadre_dir path = record {
  path = path;
  manifest_kind = ok regular;
  manifest_text = ok "";
  entries = ok (entry "rucher.yml" "" ∷ entry "web.container" "[Container]\nImage=web\n" ∷ []);
}

abbrev loader : Loader
loader = record { decode = λ text. ok manifest; hash = λ s. s; is_duration = λ s. true }

abbrev entries : List DirEntry
entries = record { base = "README"; is_dir = false } ∷ record { base = "shop"; is_dir = true } ∷ []

abbrev desk : Desk
desk = record {
  read_dir = λ dir. ok entries;
  directory = cadre_dir;
  lock_fault = none;
  lint = λ units. ("no network" ∷ [], []);
}

discover_runs : discover (ok entries) "cadres" ("shop" ∷ "shop" ∷ []) ≡ ok ("cadres/shop" ∷ [])
unfolding run_apply discover pick subdirs
discover_runs = refl

discover-IsPicked_example :
    (picked : List String) × ("cadres/shop" ∷ [] ≡ paths "cadres" picked)
    × IsPicked (subdirs entries) [] ("shop" ∷ "shop" ∷ []) picked
discover-IsPicked_example =
    discover-IsPicked entries "cadres" "shop" ("shop" ∷ []) ("cadres/shop" ∷ []) discover_runs

cmd_validate-IsValid_example :
    (ds : List String) × (discover (ok entries) "cadres" [] ≡ ok ds)
    × All (IsValid desk loader env) ds
unfolding run_apply load load_entries load_entry load_kind add_file file_of is_service note_secrets
    load_manifest validate validate_manifest check_secrets check_name check_shadow generated_from
    check_unit validate_unit check_logins check_resources check_prune is_memory_max is_alpha_word
    lowers_to discover subdirs over for_each cmd_validate validate_step validate_loaded linted
    quadlets
cmd_validate-IsValid_example = cmd_validate-IsValid desk loader env "cadres" [] fresh_host refl

cmd_apply-Applies_example :
    (ds : List String) × (discover (ok entries) "cadres" ("shop" ∷ "shop" ∷ []) ≡ ok ds)
    × Applies desk loader env ds fresh_host
        (cmd_apply desk loader env "cadres" ("shop" ∷ "shop" ∷ []) fresh_host).1
unfolding run_apply load load_entries load_entry load_kind add_file file_of is_service note_secrets
    load_manifest validate validate_manifest check_secrets check_name check_shadow generated_from
    check_unit validate_unit check_logins check_resources check_prune is_memory_max is_alpha_word
    lowers_to discover subdirs pick over locked for_each cmd_apply apply_step apply_loaded applied
cmd_apply-Applies_example =
    cmd_apply-Applies desk loader env "cadres" ("shop" ∷ "shop" ∷ []) fresh_host refl
