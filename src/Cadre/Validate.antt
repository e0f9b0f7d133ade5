-- ===== src/Cadre/Validate.antt =====
-- `Validate`, `validateUnit` and `localEnvFile` of internal/cadre/cadre.go. The cap of 1 MiB on a
-- line of a unit, and with it the error of the scan, is not modelled.
use rucher.Base.{
  is_empty, ◌==◌, ◌&&◌, ◌||◌, ◌<>◌, ◌∷◌, Bool, true, false, not, Option, none, some, String, List,
  [], if◌then◌else◌, string_eq, nat_eq, contains,
}
use rucher.Base.Dict.{Dict, insert, lookup}
use rucher.Base.Text.{
  has_prefix, cut_prefix, cut_suffix, contains_text, cut, split, trim_space, ext, base,
}
use rucher.Base.Result.{Result, ok, err, reject, check_each, ◌>>=◌, ◌>>◌}
use rucher.Fileset.{is_reserved, unit_service}
use rucher.Cadre.{File, Cadre, file_names}

abbrev systemd_unit_dir : String
systemd_unit_dir = "%h/.config/containers/systemd/"

unfoldable pub local_env_file : String → Option String
local_env_file val =
    if val == "" || has_prefix val "-" then none else elim (cut_prefix systemd_unit_dir val) [
      | some rest ↦ some (base rest)
      | none ↦ if not (contains_text val "/") then some val else none
    ]

abbrev pub required_section : Dict String
required_section =
    (".container", "Container")
    ∷ (".volume", "Volume")
    ∷ (".network", "Network")
    ∷ (".pod", "Pod")
    ∷ (".kube", "Kube")
    ∷ (".image", "Image")
    ∷ (".build", "Build")
    ∷ []

-- the local variables of the scan in `validateUnit`
pub record Scan : Type 0 where
  pub has_section : Bool
  pub sections : List String

abbrev scan : Scan
scan = record { has_section = false; sections = [] }

abbrev add_section : Option String → Scan → Scan
add_section none s = record s { has_section = true }
add_section (some name) s = record s { has_section = true; sections = name ∷ s.sections }

-- a line that starts with a bracket
unfoldable pub scan_header : String → Scan → Scan
scan_header line s = elim (cut_prefix "[" line) [
  | none ↦ s
  | some rest ↦ add_section (cut_suffix "]" rest) s
]

-- the file of the cadre that a line names as its EnvironmentFile
unfoldable pub env_file : String → Option String
unfolding local_env_file
env_file line = elim (cut b'=' line) [
  | none ↦ none
  | some (key, val) ↦
      if trim_space key == "EnvironmentFile" then local_env_file (trim_space val) else none
]

abbrev pub missing : List String → Option String → Bool
missing have none = false
missing have (some name) = not (contains name have)

abbrev shown : Option String → String
shown none = ""
shown (some name) = name

unfoldable pub scan_lines : String → List String → List String → Scan → Result Scan
unfolding scan_header env_file
scan_lines unit have [] s = ok s
scan_lines unit have (line ∷ lines) s =
    reject (missing have (env_file (trim_space line))) (
      "unit "
      <> (unit <> (" references missing EnvironmentFile " <> shown (env_file (trim_space line)))))
    >>= λ _. scan_lines unit have lines (scan_header (trim_space line) s)

-- the section that the Quadlet generator demands of the file is absent
unfoldable pub lacks_section : String → List String → Bool
lacks_section name sections = elim (lookup (ext name) required_section) [
  | none ↦ false
  | some req ↦ not (contains req sections)
]

unfoldable pub check_sections : String → Scan → Result (Unit {0})
unfolding lacks_section
check_sections unit s = do
  reject (not s.has_section) ("unit " <> (unit <> " is empty or has no [Section] header"))
  reject (lacks_section unit s.sections) (
      "unit "
      <> (unit
          <> (" has no ["
              <> (shown (lookup (ext unit) required_section)
                  <> "] section (required by the Quadlet generator)"))))

unfoldable pub validate_unit : List String → File → Result (Unit {0})
unfolding scan_lines check_sections
validate_unit have f =
    scan_lines f.name have (split b'\n' f.content) scan >>= λ s. check_sections f.name s

-- a declared secret or login needs the secrets file
unfoldable pub check_secrets : Cadre → Result (Unit {0})
check_secrets c = do
  reject (c.sops_path == "" && not (is_empty c.manifest.secrets.create)) (
      "secrets.create lists keys but the secrets file \""
      <> (c.manifest.secrets.from <> "\" is not present"))
  reject (c.sops_path == "" && not (is_empty c.manifest.registries.login)) (
      "registries.login needs a passwordKey from the secrets file \""
      <> (c.manifest.secrets.from <> "\", which is not present"))

-- one round of the first loop over the files
unfoldable pub check_name : File → Result (Unit {0})
check_name f = do
  reject (is_reserved f.name) (
      "file "
      <> (f.name
          <> ": reserved for the synthesized prune units (configure them via the manifest prune: block)"))
  reject (has_prefix f.name "-") ("file " <> (f.name <> ": name must not start with '-'"))
  reject (f.is_unit && is_reserved (unit_service f.name)) (
      "file "
      <> (f.name
          <> (": generates "
              <> (unit_service f.name <> ", reserved for the synthesized prune units"))))

-- each generated service with the unit it comes from
unfoldable pub generated_from : Dict String → List File → Dict String
generated_from d [] = d
generated_from d (f ∷ fs) =
    generated_from (if f.is_unit then insert (unit_service f.name) f.name d else d) fs

unfoldable pub check_shadow : Dict String → File → Result (Unit {0})
check_shadow generated f =
    if not (ext f.name == ".service") then ok tt else elim (lookup f.name generated) [
      | none ↦ ok tt
      | some src ↦ err (
          "file "
          <> (f.name
              <> (": collides with the .service Quadlet generates from "
                  <> (src <> " (rename it or configure that unit instead)"))))
    ]

unfoldable pub check_unit : List String → File → Result (Unit {0})
check_unit have f = if not f.is_unit && not f.is_systemd_unit then ok tt else validate_unit have f

unfoldable pub validate : Cadre → Result (Unit {0})
validate c = do
  check_secrets c
  check_each check_name c.files
  check_each (check_shadow (generated_from [] c.files)) c.files
  check_each (check_unit (file_names c.files)) c.files
