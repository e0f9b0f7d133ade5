-- ===== src/Plan/Members.antt =====
-- Which names the lists of a plan hold.
use rucher.Base.{
  Distinct, contains-keep, ◌≡◌, ◌∙◌, ◌==◌, ◌&&◌, ◌∷◌, refl, ap, false, not, none, some, String,
  List, [], arith, eq_iff, string_eq, nat_eq, contains,
}
use rucher.Base.Dict.{lookup_absent, Dict, keys, has, get, lookup}
use rucher.Base.Sort.Laws.{contains-sort}
use rucher.Cadre.{Cadre}
use rucher.State.{State}
use rucher.Plan.{
  desired_files, stopped_units, set_of, removed_files, removed_secrets, changed_secrets,
}
use rucher.Plan.Compute.{compute, removed}

pub contains-set_of : (k : String) (xs : List String) → contains k (set_of xs) ≡ contains k xs
unfolding set_of
contains-set_of k [] = refl
contains-set_of k (x ∷ xs) = ground (arith, contains-set_of k xs, contains-set_of x xs, eq_iff x k)

module _ (c : Cadre) (secret_hashes : Dict String) (prior : State) (n : String) where
  -- Exactly the units of the prior state that are no longer desired are stopped.
  pub contains-stop_units :
      contains n (compute c secret_hashes prior).stop_units
      ≡ (not (has n (desired_files c.files)) && contains n prior.units)
  unfolding compute stopped_units
  contains-stop_units =
      contains-sort n _
      ∙ contains-keep _ n (set_of prior.units)
      ∙ ap (λ b. not (has n (desired_files c.files)) && b) (contains-set_of n prior.units)

  -- Exactly the recorded files that are no longer desired are removed.
  pub contains-remove_files :
      contains n (compute c secret_hashes prior).remove_files
      ≡ (not (has n (desired_files c.files)) && has n prior.files)
  unfolding compute removed removed_files
  contains-remove_files = contains-sort n _ ∙ contains-keep _ n (keys prior.files)

  -- Exactly the recorded secrets that are no longer wanted are removed.
  pub contains-remove_secrets :
      contains n (compute c secret_hashes prior).remove_secrets
      ≡ (not (has n secret_hashes) && has n prior.secret_hashes)
  unfolding compute removed_secrets
  contains-remove_secrets = contains-sort n _ ∙ contains-keep _ n (keys prior.secret_hashes)

  contains-changed_secrets :
      (m : Dict String)
      → Distinct (keys m)
      → contains n (changed_secrets prior.secret_hashes m)
        ≡ (elim (lookup n m) [ none ↦ false | some h ↦ not (get prior.secret_hashes n == h) ])
  unfolding changed_secrets
  contains-changed_secrets [] d = refl
  contains-changed_secrets ((k, h) ∷ m) d =
      ground (arith, contains-changed_secrets m d.1, eq_iff k n, lookup_absent k m)

  -- For secrets with distinct keys, exactly the wanted secrets whose hash differs from the
  -- recorded one are created; a secret that is not recorded counts as recorded with the empty
  -- hash.
  contains-create_secrets :
      Distinct (keys secret_hashes)
      → contains n (compute c secret_hashes prior).create_secrets ≡ (elim (lookup n secret_hashes) [
        | none ↦ false
        | some h ↦ not (get prior.secret_hashes n == h)
      ])
  unfolding compute
  contains-create_secrets d = contains-sort n _ ∙ contains-changed_secrets secret_hashes d
