-- ===== src/Reconcile/Steady.antt =====
-- The loops of `Compute` on a state that `nextState` made.
use rucher.State.{State}
use rucher.Plan.{
  diff_units, refers, Changes, any_ref, diff_systemd, enabled, changed_secrets, desired_from,
  set_of, diff_files, FileDiff,
}
use rucher.Reconcile.NextState.{systemd_units_of, units_of, hashes_from}
use rucher.Cadre.{File}
use rucher.Base.Dict.{lookup, keys, insert, Dict}
use rucher.Base.{
  false, All-self, All-imp, keep-eq-nil, keep, ◌≡◌, ◌∷◌, refl, ap, inl, inr, true, not, some,
  String, List, [], arith, eq_iff, string_eq, nat_eq, contains, All, Bool-cases,
}

-- the map with each file's hash
abbrev pub hash_map : Dict File → Dict String
hash_map [] = []
hash_map ((n, f) ∷ d) = (n, f.hash) ∷ hash_map d

pub hash_map-insert :
    (n : String) (f : File) (d : Dict File) → hash_map (insert n f d) ≡ insert n f.hash (hash_map d)
hash_map-insert n f [] = refl
hash_map-insert n f ((k, g) ∷ d) = ground (arith, hash_map-insert n f d)

pub hashes_from-hash_map :
    (d : Dict File) (fs : List File) → hashes_from (hash_map d) fs ≡ hash_map (desired_from d fs)
unfolding hashes_from desired_from
hashes_from-hash_map d [] = refl
hashes_from-hash_map d (f ∷ fs) =
    rw (← hash_map-insert f.name f d) (hashes_from-hash_map (insert f.name f d) fs)

pub keys-hash_map : (d : Dict File) → keys (hash_map d) ≡ keys d
keys-hash_map [] = refl
keys-hash_map ((n, f) ∷ d) = ap (◌∷◌ n) (keys-hash_map d)

abbrev pub no_changes : FileDiff
no_changes = record { write = []; unit_changed = []; systemd_changed = []; support_changed = [] }

-- Files whose hashes are recorded are not written again.
pub diff_files-eq-no_changes :
    (prior : Dict String) (d : Dict File)
    → All (λ (e : String × String). lookup e.0 prior ≡ some e.1) (hash_map d)
    → diff_files prior d ≡ no_changes
unfolding diff_files
diff_files-eq-no_changes prior [] h = refl
diff_files-eq-no_changes prior ((n, f) ∷ d) h =
    ground (arith, eq_iff f.hash f.hash, diff_files-eq-no_changes prior d h.1)

module _ (secret_hashes : Dict String) where
  pub changed_secrets-eq-nil :
      (m : Dict String)
      → All (λ (e : String × String). lookup e.0 secret_hashes ≡ some e.1) m
      → changed_secrets secret_hashes m ≡ []
  unfolding changed_secrets
  changed_secrets-eq-nil [] h = refl
  changed_secrets-eq-nil ((k, v) ∷ m) h = ground (arith, eq_iff v v, changed_secrets-eq-nil m h.1)

-- A key of a map is one of its keys.
pub keep_absent-eq-nil :
    (ks xs : List String)
    → ((k : String) → contains k xs ≡ true → contains k ks ≡ true)
    → keep (λ k. not (contains k ks)) xs ≡ []
keep_absent-eq-nil ks xs h = keep-eq-nil _ xs (All-imp xs (λ k c. ground arith) (All-self xs ks h))

pub units_of-All :
    (fs : List File) (Q : String → Type 0)
    → All (λ f. f.is_unit ≡ true → Q f.name) fs
    → All Q (units_of fs)
unfolding units_of
units_of-All [] Q h = tt
units_of-All (f ∷ fs) Q h = elim (Bool-cases f.is_unit) [
  | inl e ↦ rw e (h.0 e, units_of-All fs Q h.1)
  | inr e ↦ rw e (units_of-All fs Q h.1)
]

pub systemd_units_of-All :
    (fs : List File) (Q : String → Type 0)
    → All (λ f. enabled f ≡ true → Q f.name) fs
    → All Q (systemd_units_of fs)
unfolding systemd_units_of
systemd_units_of-All [] Q h = tt
systemd_units_of-All (f ∷ fs) Q h = elim (Bool-cases f.is_unit) [
  | inl e ↦ rw e (systemd_units_of-All fs Q h.1)
  | inr e ↦ rw e (elim (Bool-cases (enabled f)) [
    | inl g ↦ rw g (h.0 g, systemd_units_of-All fs Q h.1)
    | inr g ↦ rw g (systemd_units_of-All fs Q h.1)
  ])
]

pub set_of-All : (xs : List String) (Q : String → Type 0) → All Q xs → All Q (set_of xs)
unfolding set_of
set_of-All [] Q h = tt
set_of-All (x ∷ xs) Q h = elim (Bool-cases (contains x (set_of xs))) [
  | inl e ↦ rw e (set_of-All xs Q h.1)
  | inr e ↦ rw e (h.0, set_of-All xs Q h.1)
]

-- a file that is listed as a unit, or as enabled, is found again
pub All-units_of :
    (fs : List File) (us : List String)
    → ((k : String) → contains k (units_of fs) ≡ true → contains k us ≡ true)
    → All (λ f. f.is_unit ≡ true → contains f.name us ≡ true) fs
unfolding units_of
All-units_of [] us h = tt
All-units_of (f ∷ fs) us h = (
  λ e. h f.name (ground (arith, eq_iff f.name f.name)),
  All-units_of fs us (λ k c. h k (ground arith)),
)

pub All-systemd_units_of :
    (fs : List File) (us : List String)
    → ((k : String) → contains k (systemd_units_of fs) ≡ true → contains k us ≡ true)
    → All (λ f. f.is_unit ≡ false → enabled f ≡ true → contains f.name us ≡ true) fs
unfolding systemd_units_of
All-systemd_units_of [] us h = tt
All-systemd_units_of (f ∷ fs) us h = (
  λ e g. h f.name (ground (arith, eq_iff f.name f.name)),
  All-systemd_units_of fs us (λ k c. h k (ground arith)),
)

pub diff_systemd-eq-nil :
    (prior : State) (fs : List File)
    → All (λ f. enabled f ≡ true → contains f.name prior.systemd_units ≡ true) fs
    → diff_systemd prior [] fs ≡ record { enable = []; replace = []; restart = [] }
unfolding diff_systemd
diff_systemd-eq-nil prior [] h = refl
diff_systemd-eq-nil prior (f ∷ fs) h = ground (arith, h.0, diff_systemd-eq-nil prior fs h.1)

pub any_ref-nil : (refs : List String) → any_ref refs [] ≡ false
unfolding any_ref
any_ref-nil [] = refl
any_ref-nil (r ∷ refs) = any_ref-nil refs

abbrev pub unchanged : Changes
unchanged = record { units = []; support = []; removed = []; secrets = [] }

pub refers-unchanged : (f : File) → refers unchanged f ≡ false
unfolding refers
refers-unchanged f = simp any_ref-nil

pub diff_units-eq-nil :
    (us : List String) (fs : List File)
    → All (λ f. f.is_unit ≡ true → contains f.name us ≡ true) fs
    → diff_units unchanged us fs ≡ record { start = []; restart = [] }
unfolding diff_units
diff_units-eq-nil us [] h = refl
diff_units-eq-nil us (f ∷ fs) h =
    ground (arith, h.0, refers-unchanged f, diff_units-eq-nil us fs h.1)
