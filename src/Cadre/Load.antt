-- ===== src/Cadre/Load.antt =====
-- `Load` of internal/cadre/cadre.go over a directory as the operating system shows it.
use rucher.Base.{
  ◌==◌, ◌&&◌, ◌||◌, ◌<>◌, ◌∷◌, ◌++◌, Bool, true, false, not, String, List, [], map, if◌then◌else◌,
  string_eq, nat_eq,
}
use rucher.Base.Text.{has_prefix, has_suffix, base}
use rucher.Base.Path.{join_path}
use rucher.Base.Result.{Result, ok, err, reject, with_context, ◌>>=◌, ◌>>◌}
use rucher.Fileset.{is_unit_file, is_systemd_unit}
use rucher.Manifest.{Manifest, load_manifest}
use rucher.Manifest.Validate.{validate as validate_manifest}
use rucher.Cadre.{File, Cadre}
use rucher.Cadre.Validate.{validate}

-- the type of a directory entry, as far as the code tells types apart
pub data Kind : Type 0 where
  directory : Kind
  regular : Kind
  irregular : Kind

abbrev pub is_regular : Kind → Bool
is_regular regular = true
is_regular directory = false
is_regular irregular = false

-- an entry with what a read of it returns
pub record Entry : Type 0 where
  pub name : String
  pub kind : Kind
  pub content : Result String

-- a directory: what Lstat and ReadFile of rucher.yml return, and what ReadDir returns
pub record Directory : Type 0 where
  pub path : String
  pub manifest_kind : Result Kind
  pub manifest_text : Result String
  pub entries : Result (List Entry)

abbrev pub entry_names : List Entry → List String
entry_names = map (λ e. e.name)

unfoldable pub is_service_file : String → Bool
is_service_file name =
    has_suffix name ".sops.yaml" || (has_prefix name "identity." && has_suffix name ".age")

unfoldable pub is_service : Manifest → String → Bool
unfolding is_service_file
is_service m name = name == "rucher.yml" || name == m.secrets.from || is_service_file name

-- c.SopsPath, when the entry is the secrets file
unfoldable pub note_secrets : String → Entry → Cadre → Cadre
note_secrets path e c =
    if e.name == c.manifest.secrets.from
    then record c { sops_path = join_path (path ∷ e.name ∷ []) }
    else c

-- What `Load` asks of the libraries: the YAML decoder, sha256, and whether a text is a duration.
pub record Loader : Type 0 where
  pub decode : String → Result Manifest
  pub hash : String → String
  pub is_duration : String → Bool

module _ (loader : Loader) where
  unfoldable pub file_of : String → String → File
  file_of name content = record {
    name = name;
    content = content;
    hash = loader.hash content;
    is_unit = is_unit_file name;
    is_systemd_unit = is_systemd_unit name;
  }

  unfoldable pub add_file : Entry → Cadre → Result Cadre
  add_file e c = do
    content ← e.content
    ok (record c { files = c.files ++ file_of e.name content ∷ [] })

  -- one round of the loop over the entries, by the type of the entry
  unfoldable pub load_kind : Kind → String → Entry → Cadre → Result Cadre
  load_kind directory path e c = ok c
  load_kind irregular path e c = err ("cadre entry " <> (e.name <> " must be a regular file"))
  load_kind regular path e c =
      if is_service c.manifest e.name then ok (note_secrets path e c) else add_file e c

  unfoldable pub load_entry : String → Entry → Cadre → Result Cadre
  load_entry path e c = load_kind e.kind path e c

  unfoldable pub load_entries : String → List Entry → Cadre → Result Cadre
  load_entries path [] c = ok c
  load_entries path (e ∷ es) c = load_entry path e c >>= load_entries path es

  unfoldable pub load : Directory → Result Cadre
  load dir = do
    kind ← with_context "read manifest" dir.manifest_kind
    reject (not (is_regular kind)) "manifest rucher.yml must be a regular file"
    text ← with_context "read manifest" dir.manifest_text
    m ← load_manifest loader.decode text
    validate_manifest loader.is_duration m
    entries ← dir.entries
    c ←
        load_entries dir.path entries (record {
          name = base dir.path;
          dir = dir.path;
          manifest = m;
          files = [];
          sops_path = "";
        })
    validate c
    ok c
