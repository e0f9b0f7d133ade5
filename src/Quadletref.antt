-- ===== src/Quadletref.antt =====
-- internal/quadletref/quadletref.go: the support files and the secrets that a unit refers to.
mod Tests
use rucher.Base.{
  ℕ, Bool, ◌||◌, ◌&&◌, not, true, false, String, ◌<>◌, List, [], ◌∷◌, ◌++◌, Option, none, some, map,
}
use rucher.Base.{Char, code, ◌==◌, nat_eq, string_eq, if◌then◌else◌, contains, any, keep}
use rucher.Base.Text.{
  base, cut, cut_prefix, cut_suffix, trim_space, split, join, before, is_space, char_cons,
}

pub record Refs : Type 0 where
  pub files : List String
  pub secrets : List String

abbrev colon_file_keys : List String
colon_file_keys = "Volume" ∷ "Mount" ∷ "AddDevice" ∷ []

abbrev plain_file_keys : List String
plain_file_keys =
    "EnvironmentFile" ∷ "Rootfs" ∷ "ContainersConfModule" ∷ "Yaml" ∷ "File" ∷ "SetWorkingDirectory"
    ∷ []

-- the loop of `mountSource` over the parts
unfoldable pub mount_source_in : List String → String
mount_source_in [] = ""
mount_source_in (part ∷ parts) =
    let rest = mount_source_in parts in
    elim (cut_prefix "source=" (trim_space part)) [
      | some s ↦ s
      | none ↦ elim (cut_prefix "src=" (trim_space part)) [ some s ↦ s | none ↦ rest ]
    ]

unfoldable pub mount_source : String → String
unfolding mount_source_in
mount_source v = mount_source_in (split b',' v)

unfoldable pub volume_source : String → String
unfolding mount_source
volume_source raw =
    let src = mount_source (trim_space raw) in
    if src == "" then before b':' (trim_space raw) else src

-- The loop of `joinContinuations`: `cur` is the builder's text, and `pending` tells that the last
-- line ended in a backslash.
unfoldable pub fold_lines : List String → String → Bool → List String
fold_lines [] cur pending = if pending then cur ∷ [] else []
fold_lines (line ∷ lines) cur pending = elim (cut_suffix "\\" (trim_space line)) [
  | some rest ↦ fold_lines lines (cur <> rest) true
  | none ↦ (cur <> trim_space line) ∷ fold_lines lines "" false
]

unfoldable pub join_continuations : String → String
unfolding fold_lines
join_continuations content = join "\n" (fold_lines (split b'\n' content) "" false)

-- `quote` is 0 outside quotes, and the quote's character inside
pub record Splitter : Type 0 where
  pub out : List String
  pub cur : String
  pub in_word : Bool
  pub escaped : Bool
  pub quote : ℕ

abbrev pub splitter : Splitter
splitter = record { out = []; cur = ""; in_word = false; escaped = false; quote = 0 }

unfoldable pub write_rune : Splitter → Char → Splitter
write_rune s r = record s { cur = s.cur <> char_cons r "" }

unfoldable pub flush : Splitter → Splitter
flush s = if s.in_word then record s { out = s.out ++ s.cur ∷ []; cur = ""; in_word = false } else s

-- one round of the loop of `splitQuoted`
unfoldable pub split_rune : Splitter → Char → Splitter
unfolding write_rune flush is_space
split_rune s r =
    if s.escaped
    then record (write_rune s r) { escaped = false }
    else if s.quote == b'\''
    then (if code r == b'\'' then record s { quote = 0 } else write_rune s r)
    else if s.quote == b'"'
    then (if code r == b'\\'
        then record s { escaped = true }
        else if code r == b'"'
        then record s { quote = 0 }
        else write_rune s r)
    else if code r == b'\\'
    then record s { escaped = true; in_word = true }
    else if code r == b'\'' || code r == b'"'
    then record s { quote = code r; in_word = true }
    else if is_space (code r)
    then flush s
    else record (write_rune s r) { in_word = true }

unfoldable pub split_runes : Splitter → String → Splitter
unfolding split_rune
split_runes s String.[] = s
split_runes s (String.◌∷◌ r v) = split_runes (split_rune s r) v

unfoldable pub split_quoted : String → List String
unfolding split_runes
split_quoted v = (flush (split_runes splitter v)).out

-- a secret's name before the options; an empty one is dropped
unfoldable pub secret_name : String → List String
secret_name arg = let name = before b',' arg in if name == "" then [] else name ∷ []

unfoldable pub arg_secrets : List String → List String
unfolding secret_name
arg_secrets [] = []
arg_secrets (tok ∷ []) = elim (cut_prefix "--secret=" tok) [
  | none ↦ []
  | some arg ↦ secret_name arg
]
arg_secrets (tok ∷ arg ∷ toks) =
    let skipped = secret_name arg ++ arg_secrets toks in
    let rest = arg_secrets (arg ∷ toks) in
    if tok == "--secret"
    then skipped
    else elim (cut_prefix "--secret=" tok) [ none ↦ rest | some own ↦ secret_name own ++ rest ]

unfoldable pub podman_arg_secrets : String → List String
unfolding arg_secrets split_quoted
podman_arg_secrets v = arg_secrets (split_quoted v)

abbrev file_args : List String
file_args = "-v" ∷ "--volume" ∷ "--mount" ∷ "--env-file" ∷ []

abbrev file_arg_prefixes : List String
file_arg_prefixes = "--volume=" ∷ "--mount=" ∷ "--env-file=" ∷ "-v=" ∷ []

-- the first prefix that fits
unfoldable pub prefixed_file : String → List String → List String
prefixed_file tok [] = []
prefixed_file tok (prefix ∷ prefixes) =
    let rest = prefixed_file tok prefixes in
    elim (cut_prefix prefix tok) [ none ↦ rest | some s ↦ s ∷ [] ]

unfoldable pub arg_files : List String → List String
unfolding prefixed_file
arg_files [] = []
arg_files (tok ∷ []) = if contains tok file_args then [] else prefixed_file tok file_arg_prefixes
arg_files (tok ∷ arg ∷ toks) =
    let skipped = arg ∷ arg_files toks in
    let rest = prefixed_file tok file_arg_prefixes ++ arg_files (arg ∷ toks) in
    if contains tok file_args then skipped else rest

unfoldable pub podman_arg_files : String → List String
unfolding arg_files split_quoted
podman_arg_files v = arg_files (split_quoted v)

-- the closure `add` of `Extract`: the base name, once
unfoldable pub add_file : String → Refs → Refs
unfolding base
add_file path r =
    let name = base path in
    if path == "" || name == "." || name == "/" || contains name r.files
    then r
    else record r { files = r.files ++ name ∷ [] }

unfoldable pub add_files : List String → Refs → Refs
unfolding add_file volume_source
add_files [] r = r
add_files (p ∷ ps) r = add_files ps (add_file (volume_source p) r)

-- the switch over the key of one line
unfoldable pub extract_pair : String → String → Refs → Refs
unfolding add_file volume_source add_files podman_arg_files podman_arg_secrets
extract_pair key val r =
    if contains key colon_file_keys
    then add_file (volume_source val) r
    else if contains key plain_file_keys
    then add_file val r
    else if key == "Secret"
    then record r { secrets = r.secrets ++ trim_space (before b',' val) ∷ [] }
    else if key == "PodmanArgs"
    then (let r' = add_files (podman_arg_files val) r in
        record r' { secrets = r'.secrets ++ podman_arg_secrets val })
    else r

unfoldable pub extract_line : String → Refs → Refs
unfolding extract_pair
extract_line line r = elim (cut b'=' (trim_space line)) [
  | none ↦ r
  | some (key, val) ↦ extract_pair (trim_space key) (trim_space val) r
]

unfoldable pub extract_lines : List String → Refs → Refs
unfolding extract_line
extract_lines [] r = r
extract_lines (line ∷ lines) r = extract_lines lines (extract_line line r)

unfoldable pub extract : String → Refs
unfolding extract_lines join_continuations
extract unit_content =
    extract_lines (split b'\n' (join_continuations unit_content))
      (record { files = []; secrets = [] })
