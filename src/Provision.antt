-- ===== src/Provision.antt =====
-- internal/provision/provision.go: the OS user of a cadre, and its resource limits.
pub mod Subid
pub mod Names
pub mod Silent
use rucher.Base.Result.{ok, err, Result}
use Prim.Native.String.{len}
use rucher.Base.Int.{negsuc, ℤ, pos, int_eq, add64}
use rucher.Base.Decimal.{itoa, atoi}
use rucher.Base.Text.{trim_space}
use rucher.Manifest.{Resources}
use rucher.Host.{
  lift, Command, root, user, Answer, Env, Exec, run, pure, throw, throw_if, failed, each, ◌>>=◌,
  ◌>>◌,
}
use rucher.Provision.Subid.{next_subid_start, has_subid, subid_count}
use rucher.Base.{
  code, leb, ℕ, zero, suc, ◌+◌, ◌≤◌, ◌<◌, ◌≡◌, ◌≢◌, ◌↔◌, ◌⊎◌, ◌∙◌, ◌==◌, ◌&&◌, ◌||◌, ◌<>◌, ◌∷◌,
  ◌++◌, refl, sym, ap, inl, inr, Bool, true, false, not, Option, none, some, String, List, [], map,
  arith, eq_iff, if◌then◌else◌, string_eq, nat_eq, contains, All, Bool-cases, Option-cases,
}

abbrev max_cadre_name : ℕ
max_cadre_name = 25

abbrev is_lower_or_digit : ℕ → Bool
is_lower_or_digit c = (leb b'a' c && leb c b'z') || (leb b'0' c && leb c b'9')

-- the tail of cadreNameRe
unfoldable pub is_name_tail : String → Bool
is_name_tail String.[] = true
is_name_tail (String.◌∷◌ c s) = (is_lower_or_digit (code c) || code c == b'-') && is_name_tail s

-- ^[a-z0-9][a-z0-9-]*$
unfoldable pub matches_cadre_name : String → Bool
unfolding is_name_tail
matches_cadre_name String.[] = false
matches_cadre_name (String.◌∷◌ c s) = is_lower_or_digit (code c) && is_name_tail s

unfoldable pub valid_name : String → Bool
unfolding matches_cadre_name
valid_name name = leb (len name) max_cadre_name && matches_cadre_name name

unfoldable pub user_name : String → String
user_name name = "rucher-" <> name

-- how `%v` shows an error
abbrev show_fault : Option String → String
show_fault none = "<nil>"
show_fault (some e) = e

-- "<what>: code=%d stderr=%s err=%v"
unfoldable pub failure : String → Answer → String
failure what a =
    what
    <> (": code=" <> (itoa a.code <> (" stderr=" <> (a.stderr <> (" err=" <> show_fault a.fault)))))

-- The exit code of this `id` is not looked at.
unfoldable pub uid_answer : String → Answer → Result ℤ
uid_answer name a = elim a.fault [
  | some e ↦ err e
  | none ↦ elim (atoi (trim_space a.stdout)) [
    | none ↦ err ("parse uid for " <> (name <> (": \"" <> (a.stdout <> "\""))))
    | some uid ↦ ok uid
  ]
]

unfoldable pub slice_body : Resources → String
slice_body r =
    "[Slice]\n"
    <> ((if r.memory_max == "" then "" else "MemoryMax=" <> (r.memory_max <> "\n"))
        <> (if r.cpu_quota == "" then "" else "CPUQuota=" <> (r.cpu_quota <> "\n")))

unfoldable pub slice_dir : ℤ → String
slice_dir uid = "/etc/systemd/system/user-" <> (itoa uid <> ".slice.d")

module _ (env : Env) where
  unfoldable pub base_dir : String
  base_dir = if env.cadres_dir == "" then "/var/lib/rucher/cadres" else env.cadres_dir

  unfoldable pub home_dir : String → String
  unfolding base_dir
  home_dir name = base_dir <> ("/" <> name)

  -- `if res, err := r.Root(...); err != nil || res.Code != 0 { return ... }`
  unfoldable pub must_root : List String → Option String → String → Exec Answer
  must_root argv stdin what = do
    a ← run env (root argv stdin)
    throw_if (failed a) (failure what a)
    pure a

  unfoldable pub must_user : String → ℤ → List String → Option String → String → Exec Answer
  must_user name uid argv stdin what = do
    a ← run env (user name uid argv stdin)
    throw_if (failed a) (failure what a)
    pure a

  unfoldable pub write_storage_conf : String → ℤ → String → Exec (Unit {0})
  write_storage_conf name uid home = do
    let dir = home <> "/.config/containers"
    _ ← must_user name uid ("mkdir" ∷ "-p" ∷ dir ∷ []) none ("mkdir " <> dir)
    _ ←
        must_user name uid ("tee" ∷ (dir <> "/storage.conf") ∷ [])
          (some (
            "[storage]\ndriver = \"overlay\"\nrunroot = \"/run/user/"
            <> (itoa uid
                <> ("/containers\"\ngraphroot = \""
                    <> (home <> "/.local/share/containers/storage\"\n")))))
          ("write " <> (dir <> "/storage.conf"))
    pure tt

  -- The id probe looks at the code only, whatever the transport says.
  unfoldable pub create_user : String → Exec (Unit {0})
  create_user name = do
    probe ← run env (root ("id" ∷ "-u" ∷ user_name name ∷ []) none)
    if probe.code == pos 0 then pure tt else do
      _ ←
          must_root
            ("useradd"
              ∷ "--create-home"
              ∷ "--home-dir"
              ∷ home_dir name
              ∷ "--shell"
              ∷ "/usr/sbin/nologin"
              ∷ user_name name
              ∷ [])
            none ("useradd " <> user_name name)
      pure tt

  -- The blocks are added when the user lacks one in either map.
  unfoldable pub allocate_subids : String → String → String → Exec (Unit {0})
  allocate_subids name subuid subgid =
      if not (has_subid subuid name) || not (has_subid subgid name)
      then (do
        let start = next_subid_start subuid subgid
        let range = itoa start <> ("-" <> itoa (add64 (add64 start subid_count) (negsuc 0)))
        _ ←
            must_root ("usermod" ∷ "--add-subuids" ∷ range ∷ "--add-subgids" ∷ range ∷ name ∷ [])
              none ("usermod subid " <> name)
        pure tt)
      else pure tt

  unfoldable pub ensure_subids : String → Exec (Unit {0})
  ensure_subids name = do
    _ ← must_root ("touch" ∷ "/etc/subuid" ∷ []) none "touch /etc/subuid"
    _ ← must_root ("touch" ∷ "/etc/subgid" ∷ []) none "touch /etc/subgid"
    subuid ← must_root ("cat" ∷ "/etc/subuid" ∷ []) none "cat /etc/subuid"
    subgid ← must_root ("cat" ∷ "/etc/subgid" ∷ []) none "cat /etc/subgid"
    allocate_subids name subuid.stdout subgid.stdout

  unfoldable pub read_uid : String → Exec ℤ
  read_uid name = do a ← run env (root ("id" ∷ "-u" ∷ name ∷ []) none); lift (uid_answer name a)

  unfoldable pub start_manager : String → ℤ → Exec (Unit {0})
  start_manager name uid = do
    _ ←
        must_root
          ("sh"
            ∷ "-c"
            ∷ ("systemctl start user@"
                <> (itoa uid
                    <> (".service 2>/dev/null; for i in $(seq 1 100); do [ -S /run/user/"
                        <> (itoa uid <> "/bus ] && exit 0; sleep 0.1; done; exit 1"))))
            ∷ [])
          none ("user manager for " <> (name <> (" (uid " <> (itoa uid <> ") not ready"))))
    pure tt

  unfoldable pub ensure_user : String → Exec ℤ
  ensure_user name = do
    throw_if (not (valid_name name)) (
        "invalid cadre name \""
        <> (name <> "\" (must match [a-z0-9][a-z0-9-]* and be at most 25 chars)"))
    create_user name
    _ ←
        must_root ("loginctl" ∷ "enable-linger" ∷ user_name name ∷ []) none
          ("enable-linger " <> user_name name)
    ensure_subids (user_name name)
    uid ← read_uid (user_name name)
    start_manager (user_name name) uid
    write_storage_conf (user_name name) uid (home_dir name)
    pure uid

  unfoldable pub apply_resources : ℤ → Resources → Exec (Unit {0})
  apply_resources uid r = do
    let conf = slice_dir uid <> "/50-rucher.conf"
    _ ← must_root ("mkdir" ∷ "-p" ∷ slice_dir uid ∷ []) none ("mkdir " <> slice_dir uid)
    _ ← must_root ("tee" ∷ conf ∷ []) (some (slice_body r)) ("write " <> conf)
    _ ← must_root ("systemctl" ∷ "daemon-reload" ∷ []) none "systemctl daemon-reload"
    pure tt
