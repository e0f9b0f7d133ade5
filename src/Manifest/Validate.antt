-- ===== src/Manifest/Validate.antt =====
-- `Validate` of internal/manifest/manifest.go with its two anchored regular expressions, which are
-- read off by functions. Whether `time.ParseDuration` takes a text is a parameter.
use rucher.Base.{
  any, code, leb, ℕ, suc, ◌+◌, ◌==◌, ◌&&◌, ◌||◌, ◌<>◌, ◌∷◌, Bool, true, false, not, Option, none,
  some, String, List, [], if◌then◌else◌, string_eq, nat_eq, contains,
}
use rucher.Base.Text.{contains_char}
use rucher.Base.Decimal.{itoa}
use rucher.Base.Int.{pos}
use rucher.Base.Result.{Result, ok, reject, ◌>>◌}
use rucher.Manifest.{Manifest, Login, Resources, Prune}

abbrev is_digit : ℕ → Bool
is_digit c = leb b'0' c && leb c b'9'

-- what follows the digits at the front
unfoldable pub skip_digits : String → String
skip_digits String.[] = ""
skip_digits (String.◌∷◌ c s) =
    let rest = skip_digits s in if is_digit (code c) then rest else String.◌∷◌ c s

-- [0-9]+
unfoldable pub some_digits : String → Option String
unfolding skip_digits
some_digits String.[] = none
some_digits (String.◌∷◌ c s) = if is_digit (code c) then some (skip_digits s) else none

-- (\.[0-9]+)?, where a point without digits matches nothing of what may follow
unfoldable pub skip_fraction : String → Option String
unfolding some_digits
skip_fraction String.[] = some ""
skip_fraction (String.◌∷◌ c s) = if code c == b'.' then some_digits s else some (String.◌∷◌ c s)

-- [0-9]+(\.[0-9]+)?
unfoldable pub skip_number : String → Option String
unfolding some_digits skip_fraction
skip_number s = elim (some_digits s) [ none ↦ none | some rest ↦ skip_fraction rest ]

abbrev pub size_suffixes : List String
size_suffixes = "" ∷ "B" ∷ "K" ∷ "M" ∷ "G" ∷ "T" ∷ "P" ∷ "E" ∷ "%" ∷ []

abbrev ends_in : List String → Option String → Bool
ends_in suffixes none = false
ends_in suffixes (some rest) = contains rest suffixes

-- memoryMaxRe
unfoldable pub is_memory_max : String → Bool
unfolding skip_number
is_memory_max s = s == "infinity" || ends_in size_suffixes (skip_number s)

-- cpuQuotaRe
unfoldable pub is_cpu_quota : String → Bool
unfolding skip_number
is_cpu_quota s = ends_in ("%" ∷ []) (skip_number s)

abbrev is_letter : ℕ → Bool
is_letter c = (leb b'a' c && leb c b'z') || (leb b'A' c && leb c b'Z')

unfoldable pub all_letters : String → Bool
all_letters String.[] = true
all_letters (String.◌∷◌ c s) = is_letter (code c) && all_letters s

unfoldable pub is_alpha_word : String → Bool
unfolding all_letters
is_alpha_word s = all_letters s && not (s == "")

abbrev lower : ℕ → ℕ
lower c = if leb b'A' c && leb c b'Z' then c + 32 else c

-- `strings.ToLower(s) == word`, on ASCII: the code lowers words of the letters a-z and A-Z only.
unfoldable pub lowers_to : String → String → Bool
lowers_to String.[] String.[] = true
lowers_to String.[] (String.◌∷◌ d word) = false
lowers_to (String.◌∷◌ c s) String.[] = false
lowers_to (String.◌∷◌ c s) (String.◌∷◌ d word) = lower (code c) == code d && lowers_to s word

abbrev pub calendar_words : List String
calendar_words =
    "minutely" ∷ "hourly" ∷ "daily" ∷ "weekly" ∷ "monthly" ∷ "yearly" ∷ "quarterly" ∷ "semiannually"
    ∷ "annually" ∷ "mon" ∷ "tue" ∷ "wed" ∷ "thu" ∷ "fri" ∷ "sat" ∷ "sun" ∷ "monday" ∷ "tuesday"
    ∷ "wednesday" ∷ "thursday" ∷ "friday" ∷ "saturday" ∷ "sunday" ∷ []

-- the loop over the logins, from the index `i`
unfoldable pub check_logins : ℕ → List Login → Result (Unit {0})
check_logins i [] = ok tt
check_logins i (l ∷ ls) =
    reject (l.registry == "" || l.username == "" || l.password_key == "")
      ("manifest: login[" <> (itoa (pos i) <> "] needs registry, username and passwordKey"))
    >> check_logins (suc i) ls

unfoldable pub check_resources : Resources → Result (Unit {0})
check_resources r = do
  reject (not (r.memory_max == "") && not (is_memory_max r.memory_max)) (
      "manifest: resources.memoryMax \""
      <> (r.memory_max <> "\" is not a valid systemd memory size (like 512M, 1G or infinity)"))
  reject (not (r.cpu_quota == "") && not (is_cpu_quota r.cpu_quota)) (
      "manifest: resources.cpuQuota \""
      <> (r.cpu_quota <> "\" is not a valid systemd percentage (like 50% or 200%)"))

module _ (is_duration : String → Bool) where
  unfoldable pub check_prune : Prune → Result (Unit {0})
  check_prune p = do
    reject (not (p.until == "") && not (is_duration p.until))
        ("manifest: prune.until \"" <> (p.until <> "\" is not a duration (like 168h)"))
    reject (contains_char b'\n' p.schedule) "manifest: prune.schedule must be a single line"
    reject
        (not (p.schedule == "")
          && is_alpha_word p.schedule
          && not (any (lowers_to p.schedule) calendar_words))
        ("manifest: prune.schedule \"" <> (p.schedule <> "\" is not a known OnCalendar shortcut"))

  unfoldable pub validate : Manifest → Result (Unit {0})
  validate m = do
    check_logins 0 m.registries.login
    check_resources m.resources
    check_prune m.prune
