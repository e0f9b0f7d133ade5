-- ===== src/Fleet/Deploy/Words.antt =====
-- The words that a shell takes as they are, and the checks that make the URL of a release one of them.
use rucher.Base.Text.{char_cons, cut}
use rucher.Fleet.Deploy.Script.{matches_repo, matches_ref, all_ref_chars, is_ref_char}
use rucher.Base.{
  Char, code, ℕ, ◌≡◌, ◌==◌, ◌&&◌, ◌||◌, ◌<>◌, refl, inl, inr, Bool, true, false, not, Option, none,
  some, String, arith, if◌then◌else◌, string_eq, nat_eq, Bool-cases,
}
use Prim.Native.String.append.{cons, nil}
use rucher.Fleet.Deploy.{repo_or_default, release_dir, Options, asset_url}

-- the characters that a shell takes as they are, everywhere in a word
abbrev pub is_plain : ℕ → Bool
is_plain c = is_ref_char c || c == b'/' || c == b':' || c == b'='

unfoldable pub shell_safe : String → Bool
shell_safe String.[] = true
shell_safe (String.◌∷◌ c s) = is_plain (code c) && shell_safe s

pub shell_safe-append : (s t : String) → shell_safe (s <> t) ≡ (shell_safe s && shell_safe t)
unfolding shell_safe
shell_safe-append String.[] t = rw (nil t) refl
shell_safe-append (String.◌∷◌ c s) t = rw (cons c s t) (ground (arith, shell_safe-append s t))

all_ref_chars-safe : (s : String) → all_ref_chars s ≡ true → shell_safe s ≡ true
unfolding all_ref_chars shell_safe
all_ref_chars-safe String.[] h = refl
all_ref_chars-safe (String.◌∷◌ c s) h = ground (arith, all_ref_chars-safe s)

pub matches_ref-safe : (s : String) → matches_ref s ≡ true → shell_safe s ≡ true
unfolding matches_ref shell_safe
matches_ref-safe String.[] h = refl
matches_ref-safe (String.◌∷◌ c s) h = ground (arith, all_ref_chars-safe s)

-- Two texts of plain characters come from a text of plain characters.
abbrev Halves : Option (String × String) → String → Type 0
Halves none s = Unit
Halves (some (owner, name)) s =
    all_ref_chars owner ≡ true → all_ref_chars name ≡ true → shell_safe s ≡ true

abbrev behind : Char → Option (String × String) → Option (String × String)
behind c r = elim r [ none ↦ none | some (a, b) ↦ some (char_cons c a, b) ]

behind-Halves :
    (c : Char) (s : String) (r : Option (String × String))
    → Halves r s
    → Halves (behind c r) (char_cons c s)
unfolding all_ref_chars shell_safe
behind-Halves c s none h = tt
behind-Halves c s (some (a, b)) h = λ o n. ground (arith, h)

cut-Halves : (s : String) → Halves (cut b'/' s) s
unfolding cut shell_safe
cut-Halves String.[] = tt
cut-Halves (String.◌∷◌ c s) = elim (Bool-cases (code c == b'/')) [
  | inl e ↦ rw e (λ o n. ground (arith, all_ref_chars-safe s))
  | inr e ↦ rw e (behind-Halves c s (cut b'/' s) (cut-Halves s))
]

repo-Halves :
    (s : String) (r : Option (String × String))
    → Halves r s
    → (elim r [
      | none ↦ false
      | some (owner, name) ↦
          not (owner == "") && all_ref_chars owner && not (name == "") && all_ref_chars name
    ])
      ≡ true
    → shell_safe s ≡ true
repo-Halves s none h e = ground arith
repo-Halves s (some (owner, name)) h e = h (ground arith) (ground arith)

matches_repo-safe : (s : String) → matches_repo s ≡ true → shell_safe s ≡ true
unfolding matches_repo
matches_repo-safe s e = repo-Halves s (cut b'/' s) (cut-Halves s) e

or_default-safe :
    (s d : String) (p : String → Bool)
    → ((t : String) → p t ≡ true → shell_safe t ≡ true)
    → shell_safe d ≡ true
    → (s == "" || p s) ≡ true
    → shell_safe (if s == "" then d else s) ≡ true
or_default-safe s d p h hd e = elim (Bool-cases (s == "")) [
  | inl x ↦ rw x hd
  | inr x ↦ rw x (h s (ground arith))
]

both-safe : (s t : String) → shell_safe s ≡ true → shell_safe t ≡ true → shell_safe (s <> t) ≡ true
both-safe s t hs ht = rw (shell_safe-append s t, hs) ht

version-safe :
    (version : String)
    → (version == "" || matches_ref version) ≡ true
    → shell_safe (release_dir version) ≡ true
unfolding shell_safe
version-safe version v = elim (Bool-cases (version == "")) [
  | inl e ↦ rw e refl
  | inr e ↦ rw e (
      both-safe "/releases/download/" (version <> "/") refl
        (both-safe version "/" (matches_ref-safe version (ground arith)) refl))
]

pub asset_url-safe :
    (opts : Options) (arch : String)
    → shell_safe arch ≡ true
    → (opts.version == "" || matches_ref opts.version) ≡ true
    → (opts.repo == "" || matches_repo opts.repo) ≡ true
    → shell_safe (asset_url opts arch) ≡ true
unfolding asset_url shell_safe
asset_url-safe opts arch a v r =
    let tail : String = release_dir opts.version <> ("rucher_linux_" <> arch) in
    both-safe "https://github.com/" (repo_or_default opts.repo <> tail) refl (
      both-safe (repo_or_default opts.repo) tail
        (or_default-safe opts.repo "igk1972/rucher" matches_repo matches_repo-safe refl r)
        (both-safe (release_dir opts.version) ("rucher_linux_" <> arch)
          (version-safe opts.version v) (both-safe "rucher_linux_" arch refl a)))
