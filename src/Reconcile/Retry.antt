-- ===== src/Reconcile/Retry.antt =====
-- The plan behind a stop that failed.
use rucher.Base.{
  contains-append, ◌≡◌, ◌==◌, ◌&&◌, ◌||◌, ◌∷◌, inl, inr, true, false, not, String, List, [], arith,
  eq_iff, string_eq, nat_eq, contains, Option-cases,
}
use rucher.Base.Dict.{lookup-has, lookup-not_has, Dict, has, lookup, contains-keys-insert}
use rucher.Fileset.{is_systemd_unit}
use rucher.Cadre.{Cadre}
use rucher.State.{State}
use rucher.Plan.{desired_files}
use rucher.Plan.Compute.{compute}
use rucher.Plan.Members.{contains-stop_units, contains-remove_files}
use rucher.Reconcile.Decide.{keep_hash, retain_unit, retain_failed}

module _ (prior : State) (u : String) where
  retain_unit-units :
      (v : String) (next : State)
      → contains u (retain_unit prior v next).units
        ≡ (contains u next.units || (v == u && not (is_systemd_unit u)))
  unfolding retain_unit keep_hash
  retain_unit-units v next = ground (arith, contains-append u next.units (v ∷ []), eq_iff v u)

  retain_failed-units :
      (bad : List String) (next : State)
      → contains u (retain_failed prior bad next).units
        ≡ (contains u next.units || (contains u bad && not (is_systemd_unit u)))
  unfolding retain_failed
  retain_failed-units [] next = ground arith
  retain_failed-units (v ∷ bad) next =
      ground (arith, retain_failed-units bad (retain_unit prior v next), retain_unit-units v next)

  retain_unit-files :
      (v : String) (next : State)
      → has u (retain_unit prior v next).files ≡ (has u next.files || (v == u && has u prior.files))
  unfolding retain_unit keep_hash
  retain_unit-files v next = elim (Option-cases (lookup v prior.files)) [
    | inl e ↦ ground (arith, e, lookup-not_has v prior.files, eq_iff v u)
    | inr (h, e) ↦ ground (
      arith,
      e,
      contains-keys-insert v u h next.files,
      lookup-has v prior.files {v = h},
      eq_iff v u,
    )
  ]

  retain_failed-files :
      (bad : List String) (next : State)
      → has u (retain_failed prior bad next).files
        ≡ (has u next.files || (contains u bad && has u prior.files))
  unfolding retain_failed
  retain_failed-files [] next = ground arith
  retain_failed-files (v ∷ bad) next =
      ground (arith, retain_failed-files bad (retain_unit prior v next), retain_unit-files v next)

-- A Quadlet unit whose stop failed, that the prior state records as a file and that is no
-- longer desired, is stopped again, and its file removed again, by the plan computed from the
-- state that retains it.
pub retain_failed-retries :
    (c : Cadre) (secret_hashes : Dict String) (prior next : State) (bad : List String) (u : String)
    → contains u bad ≡ true
    → is_systemd_unit u ≡ false
    → has u prior.files ≡ true
    → has u (desired_files c.files) ≡ false
    → (contains u (compute c secret_hashes (retain_failed prior bad next)).stop_units ≡ true)
      × (contains u (compute c secret_hashes (retain_failed prior bad next)).remove_files ≡ true)
retain_failed-retries c secret_hashes prior next bad u failed quadlet recorded undesired = (
  ground (
    arith,
    contains-stop_units c secret_hashes (retain_failed prior bad next) u,
    retain_failed-units prior u bad next,
  ),
  ground (
    arith,
    contains-remove_files c secret_hashes (retain_failed prior bad next) u,
    retain_failed-files prior u bad next,
  ),
)
