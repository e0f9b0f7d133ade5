-- ===== src/Base/Path.antt =====
-- filepath.Clean and filepath.Join on Unix paths.
use Prim.Native.Char.{code}
use Prim.Native.String.{String, ◌++◌ as ◌<>◌}
use mathlib.Core.Path.{◌≡◌, refl}
use mathlib.Core.Bool.{Bool, ◌||◌}
use mathlib.Core.List.{List, [], ◌∷◌, reverse}
use rucher.Base.Tests.{◌==◌, string_eq, nat_eq, if◌then◌else◌}
use rucher.Base.Text.{has_prefix, char_cons, split, join, cut_prefix}

-- ".." behind the elements so far, the last one first
unfoldable pub parent : Bool → List String → List String
parent rooted [] = if rooted then [] else ".." ∷ []
parent rooted (x ∷ xs) = if x == ".." then ".." ∷ x ∷ xs else xs

unfoldable pub clean_elements : Bool → List String → List String → List String
unfolding parent
clean_elements rooted done [] = reverse done
clean_elements rooted done (x ∷ xs) =
    clean_elements rooted
      (if x == "" || x == "." then done else if x == ".." then parent rooted done else x ∷ done) xs

unfoldable pub clean : String → String
unfolding clean_elements
clean path =
    let rooted = has_prefix path "/" in
    let text = join "/" (clean_elements rooted [] (split b'/' path)) in
    if rooted then "/" <> text else if text == "" then "." else text

unfoldable pub non_empty : List String → List String
non_empty [] = []
non_empty (x ∷ xs) = let rest = non_empty xs in if x == "" then rest else x ∷ rest

unfoldable pub join_path : List String → String
unfolding clean non_empty
join_path elements =
    let text = join "/" (non_empty elements) in if text == "" then "" else clean text

-- the text up to its last slash, with the slash
unfoldable pub up_to_slash : String → String
up_to_slash String.[] = ""
up_to_slash (String.◌∷◌ c s) =
    let rest = up_to_slash s in
    if rest == "" then (if code c == b'/' then "/" else "") else char_cons c rest

-- filepath.Dir
unfoldable pub dir : String → String
unfolding clean up_to_slash
dir path = clean (up_to_slash path)

clean_runs : join_path ("/a//b/" ∷ "" ∷ "../c" ∷ []) ≡ "/a/c"
unfolding join_path cut_prefix split join
clean_runs = refl

dir_runs : dir "/home/shop/.config/identity.txt" ≡ "/home/shop/.config"
unfolding dir cut_prefix split join
dir_runs = refl
