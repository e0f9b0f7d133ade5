-- ===== src/Cadre/Warnings.antt =====
-- `Warnings` and `publishBindsAllInterfaces` of internal/cadre/warnings.go. The cap of 1 MiB on a line
-- of a unit, and with it the advisory on a scan that stopped, is not modelled.
use rucher.Base.{
  is_empty, any, ◌≡◌, ◌==◌, ◌&&◌, ◌||◌, ◌<>◌, ◌∷◌, ◌++◌, refl, Bool, true, false, not, Option, none,
  some, String, List, [], arith, if◌then◌else◌, string_eq, nat_eq,
}
use rucher.Base.Text.{cut_prefix, cut, split, trim_space}
use rucher.Cadre.{File, Cadre}

-- the address between the brackets
unfoldable pub binds_bracketed : String → Bool
binds_bracketed rest = elim (cut b']' rest) [ none ↦ false | some (ip, _) ↦ ip == "::" ]

unfoldable pub binds_parts : List String → Bool
binds_parts (one ∷ []) = true
binds_parts (host ∷ container ∷ []) = true
binds_parts (ip ∷ host ∷ container ∷ []) = ip == "" || ip == "0.0.0.0"
binds_parts _ = false

unfoldable pub publish_binds_all_interfaces : String → Bool
unfolding binds_bracketed binds_parts
publish_binds_all_interfaces val = if val == "" then false else elim (cut_prefix "[" val) [
  | some rest ↦ binds_bracketed rest
  | none ↦ binds_parts (split b':' val)
]

-- the value of a PublishPort line
unfoldable pub published : String → Option String
published line = elim (cut b'=' (trim_space line)) [
  | none ↦ none
  | some (key, val) ↦ if trim_space key == "PublishPort" then some (trim_space val) else none
]

abbrev pub warning : String → String → String
warning unit val =
    "unit "
    <> (unit
        <> (": PublishPort="
            <> (val
                <> " publishes on all interfaces; use PublishPort=127.0.0.1:<host>:<ctr> unless the service is meant to be public")))

abbrev pub line_warnings : String → Option String → List String
line_warnings unit none = []
line_warnings unit (some val) =
    if publish_binds_all_interfaces val then warning unit val ∷ [] else []

unfoldable pub unit_warnings : String → List String → List String
unfolding published
unit_warnings unit [] = []
unit_warnings unit (line ∷ lines) = line_warnings unit (published line) ++ unit_warnings unit lines

unfoldable pub file_warnings : List File → List String
unfolding unit_warnings
file_warnings [] = []
file_warnings (f ∷ fs) =
    let rest = file_warnings fs in
    if f.is_unit then unit_warnings f.name (split b'\n' f.content) ++ rest else rest

unfoldable pub warnings : Cadre → List String
unfolding file_warnings
warnings c = file_warnings c.files

-- a line publishes a port on all interfaces
abbrev pub is_public : Option String → Bool
is_public none = false
is_public (some val) = publish_binds_all_interfaces val

abbrev pub has_public_port : File → Bool
has_public_port f = f.is_unit && any (λ l. is_public (published l)) (split b'\n' f.content)

is_empty-append : (xs ys : List String) → is_empty (xs ++ ys) ≡ (is_empty xs && is_empty ys)
is_empty-append [] ys = refl
is_empty-append (x ∷ xs) ys = refl

is_empty-line_warnings :
    (unit : String) (o : Option String) → is_empty (line_warnings unit o) ≡ not (is_public o)
is_empty-line_warnings unit none = refl
is_empty-line_warnings unit (some val) = ground arith

is_empty-unit_warnings :
    (unit : String) (lines : List String)
    → is_empty (unit_warnings unit lines) ≡ not (any (λ l. is_public (published l)) lines)
unfolding unit_warnings
is_empty-unit_warnings unit [] = refl
is_empty-unit_warnings unit (line ∷ lines) = ground (
  arith,
  is_empty-append (line_warnings unit (published line)) (unit_warnings unit lines),
  is_empty-line_warnings unit (published line),
  is_empty-unit_warnings unit lines,
)

is_empty-file_warnings :
    (fs : List File) → is_empty (file_warnings fs) ≡ not (any has_public_port fs)
unfolding file_warnings
is_empty-file_warnings [] = refl
is_empty-file_warnings (f ∷ fs) = ground (
  arith,
  is_empty-append (unit_warnings f.name (split b'\n' f.content)) (file_warnings fs),
  is_empty-unit_warnings f.name (split b'\n' f.content),
  is_empty-file_warnings fs,
)

-- A cadre gets a warning exactly if a line of one of its units publishes a port on all interfaces.
is_empty-warnings : (c : Cadre) → is_empty (warnings c) ≡ not (any has_public_port c.files)
unfolding warnings
is_empty-warnings c = is_empty-file_warnings c.files
