-- ===== src/Plan/Stale.antt =====
-- Which units of a cadre a plan restarts, from the files and the secrets and what was recorded of them.
use mathlib.Core.Path.{subst}
use rucher.Base.{
  keep, any, any-append, contains-keep, ◌≡◌, ◌⊎◌, ◌∙◌, ◌==◌, ◌&&◌, ◌||◌, ◌∷◌, ◌++◌, inl, inr, Bool,
  true, false, not, some, String, List, [], arith, eq_iff, string_eq, nat_eq, contains, Bool-cases,
  ap, sym, if◌then◌else◌,
}
use rucher.Base.Dict.{Dict, get, has, keys, lookup}
use rucher.Cadre.{Cadre, File}
use rucher.Fileset.{is_unit_file, is_systemd_unit}
use rucher.Quadletref.{extract}
use rucher.State.{State}
use rucher.Plan.{
  FileDiff, changed_file, Changes, refers, any_ref, diff_files, changed_secrets, desired_files,
  removed_files, removed_support,
}
use rucher.Plan.Compute.{compute, changes, file_diff, removed}
use rucher.Plan.Lifecycle.{restart_units-first}

any_ref-both :
    (r : String) (refs changed : List String)
    → contains r refs ≡ true
    → contains r changed ≡ true
    → any_ref refs changed ≡ true
unfolding any_ref
any_ref-both r [] changed h k = absurd (cc)
any_ref-both r (x ∷ refs) changed h k =
    ground (arith, any_ref-both r refs changed, eq_iff x r, h, k)

module _ (n : String) (f : File) (prior : Dict String)
    (differs : (get prior n == f.hash) ≡ false) where
  -- What one more file does to the lists of changed names.
  abbrev WithUnit : FileDiff → String → File → Type 0
  WithUnit d k g =
      contains n (if get prior k == g.hash then d else changed_file k g d).unit_changed ≡ true

  abbrev WithSupport : FileDiff → String → File → Type 0
  WithSupport d k g =
      contains n (if get prior k == g.hash then d else changed_file k g d).support_changed ≡ true

  unit-here : (d : FileDiff) → f.is_unit ≡ true → WithUnit d n f
  unfolding changed_file
  unit-here d u = rw differs (rw u (ground (arith, eq_iff n n)))

  support-here : (d : FileDiff) → f.is_unit ≡ false → f.is_systemd_unit ≡ false → WithSupport d n f
  unfolding changed_file
  support-here d u s = rw differs (rw u (rw s (ground (arith, eq_iff n n))))

  unit-later :
      (d : FileDiff) (k : String) (g : File) → contains n d.unit_changed ≡ true → WithUnit d k g
  unfolding changed_file
  unit-later d k g h = ground (arith, h)

  support-later :
      (d : FileDiff) (k : String) (g : File)
      → contains n d.support_changed ≡ true
      → WithSupport d k g
  unfolding changed_file
  support-later d k g h = ground (arith, h)

  contains-unit_changed :
      (desired : Dict File)
      → lookup n desired ≡ some f
      → f.is_unit ≡ true
      → contains n (diff_files prior desired).unit_changed ≡ true
  unfolding diff_files
  contains-unit_changed [] at u = absurd (cc)
  contains-unit_changed ((k, g) ∷ desired) at u = elim (Bool-cases (k == n)) [
    | inl same ↦
        let found : some g ≡ some f = rw same at at in
        let is_f : g ≡ f = cc found in
        subst (λ j. WithUnit (diff_files prior desired) j g) (sym ((eq_iff k n).0 same))
          (subst (λ x. WithUnit (diff_files prior desired) n x) (sym is_f)
            (unit-here (diff_files prior desired) u))
    | inr other ↦
        unit-later (diff_files prior desired) k g (contains-unit_changed desired (rw other at at) u)
  ]

  contains-support_changed :
      (desired : Dict File)
      → lookup n desired ≡ some f
      → f.is_unit ≡ false
      → f.is_systemd_unit ≡ false
      → contains n (diff_files prior desired).support_changed ≡ true
  unfolding diff_files
  contains-support_changed [] at u s = absurd (cc)
  contains-support_changed ((k, g) ∷ desired) at u s = elim (Bool-cases (k == n)) [
    | inl same ↦
        let found : some g ≡ some f = rw same at at in
        let is_f : g ≡ f = cc found in
        subst (λ j. WithSupport (diff_files prior desired) j g) (sym ((eq_iff k n).0 same))
          (subst (λ x. WithSupport (diff_files prior desired) n x) (sym is_f)
            (support-here (diff_files prior desired) u s))
    | inr other ↦
        support-later (diff_files prior desired) k g
          (contains-support_changed desired (rw other at at) u s)
  ]

contains-changed_secret :
    (k h : String) (prior hashes : Dict String)
    → lookup k hashes ≡ some h
    → (get prior k == h) ≡ false
    → contains k (changed_secrets prior hashes) ≡ true
unfolding changed_secrets
contains-changed_secret k h prior [] at d = absurd (cc)
contains-changed_secret k h prior ((j, g) ∷ hashes) at d = elim (Bool-cases (j == k)) [
  | inl same ↦
      let found : some g ≡ some h = rw same at at in
      let is_h : g ≡ h = cc found in
      rw ((eq_iff j k).0 same, is_h) (rw d (ground (arith, eq_iff k k)))
  | inr other ↦ ground (arith, other, contains-changed_secret k h prior hashes (rw other at at) d)
]

module _ (c : Cadre) (secret_hashes : Dict String) (prior : State) where
  -- The file of this name is recorded with another hash, or not at all.
  abbrev pub IsChanged : String → File → Type 0
  IsChanged name f =
      (lookup name (desired_files c.files) ≡ some f) × ((get prior.files name == f.hash) ≡ false)

  -- a support file that the cadre has and that changed
  abbrev pub IsChangedSupport : String → Type 0
  IsChangedSupport name =
      (f : File) × IsChanged name f × (f.is_unit ≡ false) × (f.is_systemd_unit ≡ false)

  -- a recorded support file that the cadre has no more
  abbrev pub IsGoneSupport : String → Type 0
  IsGoneSupport name =
      (contains name (keys prior.files) ≡ true)
      × (has name (desired_files c.files) ≡ false)
      × (is_unit_file name ≡ false)
      × (is_systemd_unit name ≡ false)

  -- a wanted secret that is recorded with another hash, or not at all
  abbrev pub IsChangedSecret : String → Type 0
  IsChangedSecret key =
      (h : String) × (lookup key secret_hashes ≡ some h)
      × ((get prior.secret_hashes key == h) ≡ false)

  -- The unit itself changed, or a file or a secret that its text refers to.
  abbrev pub IsOutdated : File → Type 0
  IsOutdated f =
      IsChanged f.name f
      ⊎ (((r : String) × (contains r (extract f.content).files ≡ true)
            × (IsChangedSupport r ⊎ IsGoneSupport r))
          ⊎ ((k : String) × (contains k (extract f.content).secrets ≡ true) × IsChangedSecret k))

  abbrev ch : Changes
  ch = changes c.files secret_hashes prior

  changed_support : (r : String) → IsChangedSupport r → contains r ch.support ≡ true
  unfolding changes file_diff
  changed_support r (f, (at, differs), u, s) =
      contains-support_changed r f prior.files differs (desired_files c.files) at u s

  gone_support : (r : String) → IsGoneSupport r → contains r ch.removed ≡ true
  unfolding changes removed removed_files removed_support
  gone_support r (recorded, gone, u, s) =
      contains-keep (λ name. not (is_unit_file name) && not (is_systemd_unit name)) r
        (keep (λ name. not (has name (desired_files c.files))) (keys prior.files))
      ∙ ground (
        arith,
        contains-keep (λ name. not (has name (desired_files c.files))) r (keys prior.files),
        recorded,
        gone,
        u,
        s,
      )

  changed_secret : (k : String) → IsChangedSecret k → contains k ch.secrets ≡ true
  unfolding changes
  changed_secret k (h, at, differs) =
      contains-changed_secret k h prior.secret_hashes secret_hashes at differs

  changed_unit :
      (f : File) → IsChanged f.name f → f.is_unit ≡ true → contains f.name ch.units ≡ true
  unfolding changes file_diff
  changed_unit f (at, differs) u =
      contains-unit_changed f.name f prior.files differs (desired_files c.files) at u

  outdated-changes :
      (f : File)
      → f.is_unit ≡ true
      → IsOutdated f
      → (contains f.name ch.units || refers ch f) ≡ true
  unfolding refers
  outdated-changes f u (inl own) = ground (arith, changed_unit f own u)
  outdated-changes f u (inr (inl (r, at, inl changed))) =
      ground
        (arith, any_ref-both r (extract f.content).files ch.support at (changed_support r changed))
  outdated-changes f u (inr (inl (r, at, inr gone))) =
      ground (arith, any_ref-both r (extract f.content).files ch.removed at (gone_support r gone))
  outdated-changes f u (inr (inr (k, at, changed))) =
      ground
        (arith, any_ref-both k (extract f.content).secrets ch.secrets at (changed_secret k changed))

  -- A Quadlet unit of the cadre that was started before is restarted when its file changed or is not recorded,
  -- or when its text refers to a support file that changed or that the cadre has no more, or to a secret that
  -- changed.
  pub restart_units-covers :
      (before rest : List File) (f : File)
      → c.files ≡ before ++ f ∷ rest
      → f.is_unit ≡ true
      → contains f.name prior.units ≡ true
      → IsOutdated f
      → contains f.name (compute c secret_hashes prior).restart_units ≡ true
  restart_units-covers before rest f files u known outdated =
      let p : File → Bool = λ g.
        g.name == f.name
        && (g.is_unit
            && (contains g.name prior.units && (contains g.name ch.units || refers ch g))) in
      let here : p f ≡ true =
        ground (arith, eq_iff f.name f.name, u, known, outdated-changes f u outdated) in
      restart_units-first c secret_hashes prior f.name
        (ap (any p) files ∙ any-append p before (f ∷ rest) ∙ ground (arith, here))
