-- ===== src/Manifest/Valid.antt =====
-- What the values of a manifest that `Validate` accepts are like.
use rucher.Base.{
  false, All_contains, ◌≡◌, ◌∙◌, ◌==◌, ◌&&◌, refl, ap, inl, inr, Bool, true, not, some, String,
  arith, eq_iff, string_eq, nat_eq, contains, Bool-cases, Option-cases,
}
use rucher.Base.Text.{contains_char}
use rucher.Base.Result.{ok, reject, >>-eq-ok, reject-eq-ok}
use rucher.Manifest.{Manifest, Resources, Prune}
use rucher.Manifest.Validate.{
  skip_digits, some_digits, skip_fraction, skip_number, is_memory_max, is_cpu_quota, check_logins,
  check_resources, check_prune, validate, size_suffixes,
}

-- no newline, no carriage return and no NUL, which are the line ends of systemd's reader
abbrev pub one_line : String → Bool
one_line s = not (contains_char b'\n' s) && not (contains_char 13 s) && not (contains_char 0 s)

one_line-skip_digits : (s : String) → one_line (skip_digits s) ≡ one_line s
unfolding skip_digits contains_char
one_line-skip_digits String.[] = refl
one_line-skip_digits (String.◌∷◌ c s) = ground (arith, one_line-skip_digits s)

one_line-some_digits :
    (s : String) {rest : String} → some_digits s ≡ some rest → one_line s ≡ one_line rest
unfolding some_digits contains_char
one_line-some_digits String.[] {rest} h = ground arith
one_line-some_digits (String.◌∷◌ c s) {rest} h = ground (arith, one_line-skip_digits s)

one_line-skip_fraction :
    (s : String) {rest : String} → skip_fraction s ≡ some rest → one_line s ≡ one_line rest
unfolding skip_fraction contains_char
one_line-skip_fraction String.[] {rest} h = let e : "" ≡ rest = cc h in ap one_line e
one_line-skip_fraction (String.◌∷◌ c s) {rest} h =
    ground (arith, one_line-some_digits s {rest = rest})

one_line-skip_number :
    (s : String) {rest : String} → skip_number s ≡ some rest → one_line s ≡ one_line rest
unfolding skip_number
one_line-skip_number s {rest} h = elim (Option-cases (some_digits s)) [
  | inl e ↦ ground (arith, e)
  | inr (t, e) ↦
      one_line-some_digits s {rest = t} e
      ∙ one_line-skip_fraction t {rest = rest} (ground (arith, e))
]

one_line-suffixes : (rest : String) → contains rest size_suffixes ≡ true → one_line rest ≡ true
unfolding contains_char
one_line-suffixes rest h =
    All_contains (λ s. one_line s ≡ true) size_suffixes rest
      (refl, (refl, (refl, (refl, (refl, (refl, (refl, (refl, (refl, tt))))))))) h

is_memory_max-one_line : (s : String) → is_memory_max s ≡ true → one_line s ≡ true
unfolding is_memory_max contains_char
is_memory_max-one_line s h = elim (Bool-cases (s == "infinity")) [
  | inl e ↦ rw ((eq_iff s "infinity").0 e) refl
  | inr e ↦ elim (Option-cases (skip_number s)) [
    | inl n ↦ ground (arith, n)
    | inr (rest, r) ↦
        one_line-skip_number s {rest = rest} r ∙ one_line-suffixes rest (ground (arith, r))
  ]
]

is_cpu_quota-one_line : (s : String) → is_cpu_quota s ≡ true → one_line s ≡ true
unfolding is_cpu_quota
is_cpu_quota-one_line s h = elim (Option-cases (skip_number s)) [
  | inl n ↦ ground (arith, n)
  | inr (rest, r) ↦
      one_line-skip_number s {rest = rest} r ∙ one_line-suffixes rest (ground (arith, r))
]

check_resources-one_line :
    (r : Resources)
    → check_resources r ≡ ok tt
    → (one_line r.memory_max ≡ true) × (one_line r.cpu_quota ≡ true)
unfolding check_resources contains_char
check_resources-one_line r h =
    let (m, q) =
      >>-eq-ok (reject (not (r.memory_max == "") && not (is_memory_max r.memory_max)) _) _ h in
    let m' = reject-eq-ok _ _ m in
    let q' = reject-eq-ok _ _ q in
    (
      elim (Bool-cases (r.memory_max == "")) [
        | inl e ↦ rw ((eq_iff r.memory_max "").0 e) refl
        | inr e ↦ is_memory_max-one_line r.memory_max (ground arith)
      ],
      elim (Bool-cases (r.cpu_quota == "")) [
        | inl e ↦ rw ((eq_iff r.cpu_quota "").0 e) refl
        | inr e ↦ is_cpu_quota-one_line r.cpu_quota (ground arith)
      ],
    )

module _ (is_duration : String → Bool) where
  check_prune-newline :
      (p : Prune) → check_prune is_duration p ≡ ok tt → contains_char b'\n' p.schedule ≡ false
  unfolding check_prune
  check_prune-newline p h =
      let (_, h1) = >>-eq-ok (reject (not (p.until == "") && not (is_duration p.until)) _) _ h in
      let n =
        reject-eq-ok (contains_char b'\n' p.schedule) _
          (>>-eq-ok (reject (contains_char b'\n' p.schedule) _) _ h1).0 in
      ground arith

  -- The limits of an accepted manifest, which are written into a unit file, hold no newline, no carriage return
  -- and no NUL, and its schedule holds no newline.
  pub validate-one_line :
      (m : Manifest)
      → validate is_duration m ≡ ok tt
      → (one_line m.resources.memory_max ≡ true)
        × (one_line m.resources.cpu_quota ≡ true)
        × (contains_char b'\n' m.prune.schedule ≡ false)
  unfolding validate
  validate-one_line m h =
      let (_, h1) = >>-eq-ok (check_logins 0 m.registries.login) _ h in
      let (r, p) = >>-eq-ok (check_resources m.resources) (check_prune is_duration m.prune) h1 in
      let (memory, cpu) = check_resources-one_line m.resources r in
      (memory, cpu, check_prune-newline m.prune p)
