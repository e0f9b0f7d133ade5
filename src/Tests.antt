-- ===== src/Tests.antt =====
-- Concrete runs: a cadre with a container, its environment file, a timer and a secret, on a host
-- whose commands all succeed.
mod Applying
mod Planning
mod Loading
mod Fleet
mod Agent
mod Deploy
mod HostKey
mod Sopsage
mod Store
mod Git
mod Commands
use rucher.Plan.Members.{contains-remove_secrets, contains-remove_files, contains-stop_units}
use rucher.Plan.Lifecycle.{restart_units-prior}
use rucher.Fileset.Classify.{should_enable-not-unit, unit-not-systemd}
use rucher.Reconcile.Atomic.{apply_failed-states}
use rucher.Reconcile.Twice.{apply_twice, DecryptsMaps}
use rucher.Reconcile.Converge.{compute-next_state}
use rucher.Base.{ap, contains, ◌≡◌, refl, true, false, none, some, String, [], ◌∷◌}
use rucher.Base.Int.{int_ltb, pos}
use rucher.Base.Dict.{Dict}
use rucher.Base.Result.{Result, ok, err}
use rucher.Manifest.{Manifest}
use rucher.Cadre.{IsFree, IsLoaded, File, Cadre}
use rucher.State.{State, empty}
use rucher.Host.{Env, World, Answer}
use rucher.Fileset.{
  is_unit_file, is_systemd_unit, is_header, has_section, should_enable, unit_service, is_reserved,
}
use rucher.Quadletref.{
  mount_source_in, mount_source, volume_source, fold_lines, join_continuations, write_rune, flush,
  split_rune,
}
use rucher.Quadletref.{
  split_runes, split_quoted, secret_name, arg_secrets, podman_arg_secrets, prefixed_file, arg_files,
  podman_arg_files,
}
use rucher.Quadletref.{add_file, add_files, extract_pair, extract_line, extract_lines, extract}
use rucher.Manifest.{on}
use rucher.Prune.{service_body, timer_body, unit, prune_files}
use rucher.Secrets.{decrypt, hashes}
use rucher.Ops.{wrap, secret_removed, as_user, wrapped, sc, daemon_reload, start, restart}
use rucher.Ops.{
  stop, enable_now, restart_unit, disable_now, stop_all_user_services, kill_pause, secret_remove,
  secret_create,
}
use rucher.Ops.{login}
use rucher.Host.{each, failures, run}
use rucher.Plan.{
  is_empty_plan, desired_from, changed_file, diff_files, removed_files, removed_support,
  changed_secrets, removed_secrets,
}
use rucher.Plan.{
  diff_systemd, disabled_units, removed_any_unit, any_ref, refers, diff_units, referenced,
  orphan_changed,
}
use rucher.Plan.{restart_all, set_of, stopped_units}
use rucher.Plan.Compute.{
  file_diff, removed, systemd_diff, disabled, needs_reload, changes, unit_diff, restarts,
}
use rucher.Plan.Compute.{compute}
use rucher.Provision.{
  is_name_tail, matches_cadre_name, valid_name, user_name, failure, uid_answer, slice_body,
  slice_dir,
}
use rucher.Provision.{
  base_dir, home_dir, must_root, must_user, write_storage_conf, create_user, allocate_subids,
  ensure_subids,
}
use rucher.Provision.{read_uid, start_manager, ensure_user, apply_resources}
use rucher.Provision.Subid.{
  next_subid_start_covers, subid_base, block_of, parse_block, max_int, raise_max, scan_blocks,
  next_subid_start, has_subid,
}
use rucher.Base.Path.{parent, clean_elements, clean, non_empty, join_path}
use rucher.Base.Decimal.{digits, itoa, read_digits, unsigned, atoi}
use rucher.Base.Text.{contains_char, cut_prefix, cut_suffix, cut, before, split, join, is_space}
use rucher.Base.Text.{
  trim_left, trim_right, trim_space, contains_text, ext, cut_last_dot, trim_right_slashes,
  after_last_slash,
}
use rucher.Base.Text.{base}
use rucher.Base.Int.{add64}
use rucher.Base.Sort.{insert_by, sort_by}
use rucher.Reconcile.Decide.{
  user_write_error, writes_systemd_unit, listed_secrets, non_empty_secrets, for_create, plan_for,
  keep_hash, retain_unit,
}
use rucher.Reconcile.Apply.{
  codec, state_base_dir, state_path, systemd_dir, user_unit_dir, identity_path, state_at,
}
use rucher.Reconcile.Decide.{retain_failed}
use rucher.Reconcile.Apply.{
  load_state, save_state, user_write, secrets_at, load_secrets, apply_limits, stop_removed,
  write_file,
}
use rucher.Reconcile.Apply.{
  remove_file, make_unit_dir, apply_files, log_in_with, log_in, apply_logins, apply_units,
  execute_rest,
}
use rucher.Reconcile.Apply.{execute, with_prune, save_next, apply_from, apply_with, apply_as, apply}
use rucher.Reconcile.NextState.{
  Codec, hashes_from, units_of, systemd_units_of, login_lines, registries_hash, next_state,
}
use rucher.Plan.{Plan}

abbrev pub web : File
web = record {
  name = "web.container";
  content = "[Container]\nImage=web\nEnvironmentFile=web.env\nSecret=token\n";
  hash = "h1";
  is_unit = true;
  is_systemd_unit = false;
}

abbrev pub web_env : File
web_env = record {
  name = "web.env";
  content = "PORT=80\n";
  hash = "h2";
  is_unit = false;
  is_systemd_unit = false;
}

abbrev pub tick : File
tick = record {
  name = "tick.timer";
  content = "[Timer]\n";
  hash = "h3";
  is_unit = false;
  is_systemd_unit = true;
}

abbrev pub manifest : Manifest
manifest = record {
  secrets = record { from = "secrets.sops.yaml"; create = [] };
  registries = record { login = [] };
  resources = record { memory_max = "1G"; cpu_quota = "" };
  prune = record { enabled = none; schedule = "daily"; until = "168h" };
}

abbrev pub shop : Cadre
shop = record {
  name = "shop";
  dir = "cadres/shop";
  manifest = manifest;
  files = tick ∷ web ∷ web_env ∷ [];
  sops_path = "cadres/shop/secrets.sops.yaml";
}

abbrev pub answer : Answer
answer = record { stdout = "1000\n"; stderr = ""; code = pos 0; fault = none }

abbrev pub env : Env
env = record {
  answer = λ trace c. answer;
  save_fault = λ trace. none;
  cadres_dir = "";
  state_dir = "";
  hash = λ s. s;
  marshal = λ ls. "";
  read_file = λ trace path. ok path;
  decrypt = λ identity sops. ok (("token", "s") ∷ []);
}

abbrev pub fresh_host : World
fresh_host = record { trace = []; states = [] }

abbrev pub secret_hashes : Dict String
secret_hashes = ("token", "s") ∷ []

-- an apply whose computation is open
run_apply : Env → Cadre → World → Result Plan × World
unfolding is_unit_file is_systemd_unit is_header has_section should_enable unit_service is_reserved
    mount_source_in mount_source volume_source fold_lines join_continuations write_rune flush
    split_rune split_runes split_quoted secret_name arg_secrets podman_arg_secrets prefixed_file
    arg_files podman_arg_files add_file add_files extract_pair extract_line extract_lines extract on
    service_body timer_body unit prune_files decrypt hashes wrap secret_removed as_user wrapped sc
    daemon_reload start restart stop enable_now restart_unit disable_now stop_all_user_services
    kill_pause secret_remove secret_create login each failures run is_empty_plan desired_from
    changed_file diff_files removed_files removed_support changed_secrets removed_secrets
    diff_systemd disabled_units removed_any_unit any_ref refers diff_units referenced orphan_changed
    restart_all set_of stopped_units file_diff removed systemd_diff disabled needs_reload changes
    unit_diff restarts compute is_name_tail matches_cadre_name valid_name user_name failure
    uid_answer slice_body slice_dir base_dir home_dir must_root must_user write_storage_conf
    create_user allocate_subids ensure_subids read_uid start_manager ensure_user apply_resources
    block_of parse_block max_int raise_max scan_blocks next_subid_start has_subid parent
    clean_elements clean non_empty join_path digits itoa read_digits unsigned atoi contains_char
    cut_prefix cut_suffix cut before split join is_space trim_left trim_right trim_space
    contains_text ext cut_last_dot trim_right_slashes after_last_slash base add64 insert_by sort_by
    user_write_error writes_systemd_unit listed_secrets non_empty_secrets for_create plan_for
    keep_hash retain_unit retain_failed codec state_base_dir state_path systemd_dir user_unit_dir
    identity_path state_at load_state save_state user_write secrets_at load_secrets apply_limits
    stop_removed write_file remove_file make_unit_dir apply_files log_in_with log_in apply_logins
    apply_units execute_rest execute with_prune save_next apply_from apply_with apply_as apply
    hashes_from units_of systemd_units_of login_lines registries_hash next_state
run_apply e c w = apply e c w

abbrev pub plan_in : Result Plan × World → Plan
plan_in (ok p, w) = p
plan_in (err e, w) = compute shop secret_hashes empty

abbrev pub first : Result Plan × World
first = apply env shop fresh_host

abbrev pub second : Result Plan × World
second = apply env shop first.1

abbrev pub applied : State
applied = record empty {
  uid = pos 1000;
  files =
      ("web.container", "h1")
      ∷ ("web.env", "old")
      ∷ ("gone.conf", "h4")
      ∷ ("tick.timer", "h3")
      ∷ [];
  secret_hashes = ("old_token", "t") ∷ [];
  units = "web.container" ∷ "gone.pod" ∷ [];
}

abbrev pub lone : File
lone = record {
  name = "lone.conf";
  content = "x";
  hash = "h5";
  is_unit = false;
  is_systemd_unit = false;
}

-- a cadre with a support file that its unit does not refer to
abbrev pub lonely : Cadre
lonely = record shop { files = web ∷ lone ∷ [] }

pub shop-IsLoaded : IsLoaded shop
unfolding is_unit_file is_systemd_unit ext
shop-IsLoaded = record {
  names = (refl, (refl, (refl, tt)));
  classified = (
    record { unit = refl; systemd = refl },
    (record { unit = refl; systemd = refl }, (record { unit = refl; systemd = refl }, tt)),
  );
}

pub shop-IsFree : IsFree shop
unfolding is_reserved
shop-IsFree = (refl, (refl, (refl, tt)))
