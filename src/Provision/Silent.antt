-- ===== src/Provision/Silent.antt =====
-- Provisioning leaves the state files alone.
use rucher.Base.{Option, String, List, string_eq, nat_eq}
use rucher.Base.Int.{ℤ, int_eq}
use rucher.Manifest.{Resources}
use rucher.Host.{Env}
use rucher.Host.Quiet.{Quiet, quiet_rules}
use rucher.Provision.{
  must_root, must_user, write_storage_conf, create_user, allocate_subids, ensure_subids, read_uid,
  start_manager, ensure_user, apply_resources,
}

module _ (env : Env) where
  must_root-Quiet :
      (argv : List String) (i : Option String) (e : String) → Quiet (must_root env argv i e)
  unfolding must_root
  must_root-Quiet argv i e = search quiet_rules

  must_user-Quiet :
      (name : String) (uid : ℤ) (argv : List String) (i : Option String) (e : String)
      → Quiet (must_user env name uid argv i e)
  unfolding must_user
  must_user-Quiet name uid argv i e = search quiet_rules

  ruleset must_rules = (quiet_rules, must_root-Quiet, must_user-Quiet)

  write_storage_conf-Quiet :
      (name : String) (uid : ℤ) (home : String) → Quiet (write_storage_conf env name uid home)
  unfolding write_storage_conf
  write_storage_conf-Quiet name uid home = search must_rules

  create_user-Quiet : (name : String) → Quiet (create_user env name)
  unfolding create_user
  create_user-Quiet name = search must_rules

  allocate_subids-Quiet : (name a b : String) → Quiet (allocate_subids env name a b)
  unfolding allocate_subids
  allocate_subids-Quiet name a b = search must_rules

  ensure_subids-Quiet : (name : String) → Quiet (ensure_subids env name)
  unfolding ensure_subids
  ensure_subids-Quiet name = search (must_rules, allocate_subids-Quiet)

  read_uid-Quiet : (name : String) → Quiet (read_uid env name)
  unfolding read_uid
  read_uid-Quiet name = search quiet_rules

  start_manager-Quiet : (name : String) (uid : ℤ) → Quiet (start_manager env name uid)
  unfolding start_manager
  start_manager-Quiet name uid = search must_rules

  pub ensure_user-Quiet : (name : String) → Quiet (ensure_user env name)
  unfolding ensure_user
  ensure_user-Quiet name =
      search
        (
          must_rules, create_user-Quiet, ensure_subids-Quiet, read_uid-Quiet, start_manager-Quiet,
          write_storage_conf-Quiet,
        )
        depth 12

  pub apply_resources-Quiet : (uid : ℤ) (r : Resources) → Quiet (apply_resources env uid r)
  unfolding apply_resources
  apply_resources-Quiet uid r = search must_rules
