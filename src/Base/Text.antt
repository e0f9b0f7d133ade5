-- ===== src/Base/Text.antt =====
-- The parts of Go's `strings`, `unicode` and `path/filepath` that the program uses, over texts of
-- code points.
use Prim.Native.Nat.{ℕ}
use Prim.Native.Char.{Char, code}
use Prim.Native.String.{String, ◌++◌ as ◌<>◌}
use mathlib.Core.Bool.{Bool, true, false, ◌||◌, ◌&&◌, not}
use mathlib.Core.Option.{Option, none, some}
use mathlib.Core.List.{List, [], ◌∷◌}
use rucher.Base.Tests.{leb, ◌==◌, nat_eq, string_eq, if◌then◌else◌}

-- a text of one character in front of another text
abbrev pub char_cons : Char → String → String
char_cons c s = String.◌∷◌ c s

abbrev pub is_none {ℓ} : {A : Type ℓ} → Option A → Bool
is_none none = true
is_none (some a) = false

abbrev pub is_some {ℓ} : {A : Type ℓ} → Option A → Bool
is_some none = false
is_some (some a) = true

-- strings.ContainsRune
unfoldable pub contains_char : ℕ → String → Bool
contains_char k String.[] = false
contains_char k (String.◌∷◌ c s) = code c == k || contains_char k s

-- strings.CutPrefix
unfoldable pub cut_prefix : String → String → Option String
cut_prefix String.[] s = some s
cut_prefix (String.◌∷◌ p ps) String.[] = none
cut_prefix (String.◌∷◌ p ps) (String.◌∷◌ c s) =
    let rest = cut_prefix ps s in if code p == code c then rest else none

-- strings.HasPrefix(s, p)
abbrev pub has_prefix : String → String → Bool
has_prefix s p = is_some (cut_prefix p s)

-- strings.CutSuffix(s, suffix)
unfoldable pub cut_suffix : String → String → Option String
cut_suffix suffix String.[] = if suffix == "" then some "" else none
cut_suffix suffix (String.◌∷◌ c s) =
    if suffix == char_cons c s
    then some ""
    else elim (cut_suffix suffix s) [ none ↦ none | some t ↦ some (char_cons c t) ]

abbrev pub has_suffix : String → String → Bool
has_suffix s suffix = is_some (cut_suffix suffix s)

-- strings.Cut at a character: what stands before and behind its first occurrence
unfoldable pub cut : ℕ → String → Option (String × String)
cut k String.[] = none
cut k (String.◌∷◌ c s) =
    let rest = cut k s in
    if code c == k
    then some ("", s)
    else elim rest [ none ↦ none | some (a, b) ↦ some (char_cons c a, b) ]

-- strings.SplitN(s, sep, 2)[0] at a character
unfoldable pub before : ℕ → String → String
before k String.[] = ""
before k (String.◌∷◌ c s) = if code c == k then "" else char_cons c (before k s)

abbrev pub cons_first : Char → List String → List String
cons_first c [] = char_cons c "" ∷ []
cons_first c (x ∷ xs) = char_cons c x ∷ xs

-- strings.Split at a character
unfoldable pub split : ℕ → String → List String
split k String.[] = "" ∷ []
split k (String.◌∷◌ c s) =
    let rest = split k s in if code c == k then "" ∷ rest else cons_first c rest

-- strings.Join
unfoldable pub join : String → List String → String
join sep [] = ""
join sep (x ∷ []) = x
join sep (x ∷ y ∷ xs) = x <> (sep <> join sep (y ∷ xs))

-- the texts one behind the other
unfoldable pub concat : List String → String
concat [] = ""
concat (x ∷ xs) = x <> concat xs

-- unicode.IsSpace
unfoldable pub is_space : ℕ → Bool
is_space c =
    (leb 9 c && leb c 13)
    || c == 32
    || c == 0x85
    || c == 0xa0
    || c == 0x1680
    || (leb 0x2000 c && leb c 0x200a)
    || c == 0x2028
    || c == 0x2029
    || c == 0x202f
    || c == 0x205f
    || c == 0x3000

unfoldable pub trim_left : String → String
unfolding is_space
trim_left String.[] = ""
trim_left (String.◌∷◌ c s) =
    let rest = trim_left s in if is_space (code c) then rest else char_cons c s

unfoldable pub trim_right : String → String
unfolding is_space
trim_right String.[] = ""
trim_right (String.◌∷◌ c s) =
    let rest = trim_right s in if rest == "" && is_space (code c) then "" else char_cons c rest

-- strings.TrimSpace
unfoldable pub trim_space : String → String
unfolding trim_left trim_right
trim_space s = trim_right (trim_left s)

-- strings.Contains
unfoldable pub contains_text : String → String → Bool
unfolding cut_prefix
contains_text String.[] part = part == ""
contains_text (String.◌∷◌ c s) part = has_prefix (char_cons c s) part || contains_text s part

-- filepath.Ext: from the last dot of the last element of the path, with the dot
unfoldable pub ext : String → String
unfolding contains_char
ext String.[] = ""
ext (String.◌∷◌ c s) =
    let rest = ext s in
    if not (rest == "")
    then rest
    else if code c == b'.' && not (contains_char b'/' s)
    then char_cons c s
    else ""

-- strings.LastIndex(s, ".") as a pair: what stands before the last dot and behind it
unfoldable pub cut_last_dot : String → Option (String × String)
cut_last_dot String.[] = none
cut_last_dot (String.◌∷◌ c s) = elim (cut_last_dot s) [
  | some (a, b) ↦ some (char_cons c a, b)
  | none ↦ if code c == b'.' then some ("", s) else none
]

unfoldable pub trim_right_slashes : String → String
trim_right_slashes String.[] = ""
trim_right_slashes (String.◌∷◌ c s) =
    let rest = trim_right_slashes s in if rest == "" && code c == b'/' then "" else char_cons c rest

-- what stands behind the last slash
unfoldable pub after_last_slash : String → String
unfolding contains_char
after_last_slash String.[] = ""
after_last_slash (String.◌∷◌ c s) =
    let rest = after_last_slash s in
    if contains_char b'/' s || code c == b'/' then rest else char_cons c s

-- filepath.Base
unfoldable pub base : String → String
unfolding trim_right_slashes after_last_slash
base p =
    if p == ""
    then "."
    else let stripped = trim_right_slashes p in
      if stripped == "" then "/" else after_last_slash stripped
