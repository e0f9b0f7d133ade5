-- ===== src/Plan/Lifecycle.antt =====
-- Which units a plan starts and restarts.
use rucher.Base.{
  any, contains-append, ◌≡◌, ◌∙◌, ◌==◌, ◌&&◌, ◌||◌, ◌∷◌, ◌++◌, refl, Bool, true, false, not, String,
  List, [], arith, eq_iff, string_eq, nat_eq, contains,
}
use rucher.Base.Dict.{Dict}
use rucher.Base.Sort.Laws.{contains-sort}
use rucher.Cadre.{Cadre, File}
use rucher.State.{State}
use rucher.Plan.{Plan, Changes, Restarts, refers, diff_units, restart_all, orphan_changed}
use rucher.Plan.Compute.{compute, changes, unit_diff, systemd_diff, restarts}

-- some unit of the cadre has this name and this property
abbrev pub unit_named : String → (File → Bool) → List File → Bool
unit_named n p fs = any (λ f. f.name == n && (f.is_unit && p f)) fs

module _ (ch : Changes) (prior : List String) (n : String) where
  contains-start :
      (fs : List File)
      → contains n (diff_units ch prior fs).start
        ≡ unit_named n (λ f. not (contains f.name prior)) fs
  unfolding diff_units
  contains-start [] = refl
  contains-start (f ∷ fs) = ground (arith, contains-start fs)

  contains-restart :
      (fs : List File)
      → contains n (diff_units ch prior fs).restart
        ≡ unit_named n (λ f. contains f.name prior && (contains f.name ch.units || refers ch f)) fs
  unfolding diff_units
  contains-restart [] = refl
  contains-restart (f ∷ fs) = ground (arith, contains-restart fs)

unit_named-prior :
    (prior : List String) (n : String) (q : File → Bool) (fs : List File)
    → unit_named n (λ f. contains f.name prior && q f) fs ≡ true
    → contains n prior ≡ true
unit_named-prior prior n q [] h = ground arith
unit_named-prior prior n q (f ∷ fs) h =
    ground (arith, eq_iff f.name n, unit_named-prior prior n q fs)

unit_named-fresh :
    (prior : List String) (n : String) (fs : List File)
    → unit_named n (λ f. not (contains f.name prior)) fs ≡ true
    → contains n prior ≡ false
unit_named-fresh prior n [] h = ground arith
unit_named-fresh prior n (f ∷ fs) h = ground (arith, eq_iff f.name n, unit_named-fresh prior n fs)

unit_named-known :
    (prior : List String) (n : String) (fs : List File)
    → unit_named n (λ f. contains f.name prior) fs ≡ true
    → contains n prior ≡ true
unit_named-known prior n [] h = ground arith
unit_named-known prior n (f ∷ fs) h = ground (arith, eq_iff f.name n, unit_named-known prior n fs)

module _ (prior : State) (started fresh : List String) where
  restart_all-grows :
      (n : String) (fs : List File) (r : Restarts)
      → contains n r.units ≡ true
      → contains n (restart_all prior started fresh fs r).units ≡ true
  unfolding restart_all
  restart_all-grows n [] r h = h
  restart_all-grows n (f ∷ fs) r h = ground (
    arith,
    contains-append n r.units (f.name ∷ []),
    restart_all-grows n fs (record r { units = r.units ++ f.name ∷ [] }),
    restart_all-grows n fs (record r { systemd = r.systemd ++ f.name ∷ [] }),
    restart_all-grows n fs r,
  )

  restart_all-prior :
      (n : String) (fs : List File) (r : Restarts)
      → (contains n r.units ≡ true → contains n prior.units ≡ true)
      → contains n (restart_all prior started fresh fs r).units ≡ true
      → contains n prior.units ≡ true
  unfolding restart_all
  restart_all-prior n [] r h e = h e
  restart_all-prior n (f ∷ fs) r h e = ground (
    arith,
    contains-append n r.units (f.name ∷ []),
    eq_iff f.name n,
    restart_all-prior n fs (record r { units = r.units ++ f.name ∷ [] }),
    restart_all-prior n fs (record r { systemd = r.systemd ++ f.name ∷ [] }),
    restart_all-prior n fs r,
  )

  -- every recorded unit of the cadre is restarted or was started
  restart_all-units :
      (n : String) (fs : List File) (r : Restarts)
      → unit_named n (λ f. contains f.name prior.units) fs ≡ true
      → (contains n started || contains n (restart_all prior started fresh fs r).units) ≡ true
  unfolding restart_all
  restart_all-units n [] r h = ground arith
  restart_all-units n (f ∷ fs) r h = ground (
    arith,
    eq_iff f.name n,
    contains-append n r.units (f.name ∷ []),
    restart_all-grows n fs (record r { units = r.units ++ f.name ∷ [] }),
    restart_all-grows n fs (record r { systemd = r.systemd ++ f.name ∷ [] }),
    restart_all-grows n fs r,
    restart_all-units n fs (record r { units = r.units ++ f.name ∷ [] }),
    restart_all-units n fs (record r { systemd = r.systemd ++ f.name ∷ [] }),
    restart_all-units n fs r,
  )

module _ (c : Cadre) (secret_hashes : Dict String) (prior : State) (n : String) where
  abbrev plan : Plan
  plan = compute c secret_hashes prior

  abbrev ch : Changes
  ch = changes c.files secret_hashes prior

  abbrev first : Restarts
  first = record {
    units = (unit_diff c.files secret_hashes prior).restart;
    systemd = (systemd_diff c.files prior).restart;
  }

  restart_units-restarts :
      contains n plan.restart_units ≡ contains n (restarts c.files secret_hashes prior).units
  unfolding compute
  restart_units-restarts = contains-sort n _

  contains-first :
      contains n first.units
      ≡ unit_named n
          (λ f. contains f.name prior.units && (contains f.name ch.units || refers ch f))
          c.files
  unfolding unit_diff
  contains-first = contains-restart ch prior.units n c.files

  contains-started :
      contains n (unit_diff c.files secret_hashes prior).start
      ≡ unit_named n (λ f. not (contains f.name prior.units)) c.files
  unfolding unit_diff
  contains-started = contains-start ch prior.units n c.files

  -- Exactly the units of the cadre that the prior state does not list are started.
  contains-start_units :
      contains n plan.start_units ≡ unit_named n (λ f. not (contains f.name prior.units)) c.files
  unfolding compute
  contains-start_units = contains-sort n _ ∙ contains-started

  pub restart_units-first :
      unit_named n
          (λ f. contains f.name prior.units && (contains f.name ch.units || refers ch f))
          c.files
        ≡ true
      → contains n plan.restart_units ≡ true
  unfolding restarts
  restart_units-first h = ground (
    arith,
    restart_units-restarts,
    contains-first,
    restart_all-grows prior (unit_diff c.files secret_hashes prior).start
        (systemd_diff c.files prior).enable n c.files first,
  )

  -- Only units that were started before are restarted.
  pub restart_units-prior : contains n plan.restart_units ≡ true → contains n prior.units ≡ true
  unfolding restarts
  restart_units-prior h = ground (
    arith,
    restart_units-restarts,
    contains-first,
    unit_named-prior prior.units n (λ f. contains f.name ch.units || refers ch f) c.files,
    restart_all-prior prior (unit_diff c.files secret_hashes prior).start
        (systemd_diff c.files prior).enable n c.files first,
  )

  -- A changed support file that no unit refers to restarts every unit of the cadre that the
  -- prior state lists.
  restart_units-orphan :
      orphan_changed ch.support c.files ≡ true
      → unit_named n (λ f. contains f.name prior.units) c.files ≡ true
      → contains n plan.restart_units ≡ true
  unfolding restarts changes
  restart_units-orphan o h = ground (
    arith,
    restart_units-restarts,
    contains-started,
    unit_named-known prior.units n c.files,
    unit_named-fresh prior.units n c.files,
    restart_all-units prior (unit_diff c.files secret_hashes prior).start
        (systemd_diff c.files prior).enable n c.files first,
  )
