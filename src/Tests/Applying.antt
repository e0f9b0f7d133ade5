-- ===== src/Tests/Applying.antt =====
-- Runs of `Apply` and of `Remove` on one host.
use rucher.Reconcile.Status.{UnitStatus}
use rucher.Reconcile.Converge.{compute-next_state}
use rucher.Reconcile.Removed.{remove-unmanages}
use rucher.Reconcile.Atomic.{apply_failed-states}
use rucher.Plan.Compute.{compute}
use rucher.Base.Dict.{lookup, Dict}
use rucher.State.{State}
use rucher.Reconcile.Remove.{remove}
use rucher.Plan.{is_empty_plan}
use rucher.Reconcile.Twice.{apply_twice, DecryptsMaps}
use rucher.Base.Result.{err, ok, Result}
use rucher.Reconcile.Apply.{state_path, apply}
use rucher.Reconcile.NextState.{next_state, Codec}
use rucher.Host.{stored, World, Env}
use rucher.Tests.{
  pos, shop-IsFree, shop-IsLoaded, secret_hashes, second, first, fresh_host, applied, shop, plan_in,
  env, run_apply,
}
use rucher.Base.{List, ◌≡◌, ◌∷◌, refl, ap, true, false, none, some, String, [], string_eq, nat_eq}

abbrev full_disk : Env
full_disk = record env { save_fault = λ trace. some "disk full" }

abbrev plain_codec : Codec
plain_codec = record { hash = λ s. s; marshal = λ ls. "" }

first_runs : apply env shop fresh_host ≡ (ok (plan_in first), first.1)
unfolding run_apply
first_runs = refl

second_runs : apply env shop first.1 ≡ (ok (plan_in second), second.1)
unfolding run_apply
second_runs = refl

abbrev map_in : Result (Dict String) → Dict String
map_in (ok m) = m
map_in (err e) = []

env-DecryptsMaps : DecryptsMaps env
env-DecryptsMaps identity sops m e = rw (← ap map_in e) (refl, tt)

apply_twice_example : is_empty_plan (plan_in second) ≡ true
unfolding run_apply
apply_twice_example =
    apply_twice env shop fresh_host (plan_in first) first.1 (plan_in second) second.1 shop-IsLoaded
      shop-IsFree env-DecryptsMaps first_runs refl refl second_runs refl refl

apply_failed-states_example : (apply full_disk shop fresh_host).1.states ≡ []
unfolding run_apply
apply_failed-states_example = apply_failed-states full_disk shop fresh_host "disk full" refl

compute-next_state_example :
    is_empty_plan (
      compute shop secret_hashes
        (next_state plain_codec shop (pos 1000) secret_hashes secret_hashes))
    ≡ true
compute-next_state_example =
    compute-next_state plain_codec shop (pos 1000) secret_hashes secret_hashes shop-IsLoaded
      (refl, tt)

abbrev shop_state : State
shop_state = record applied { name = "shop" }

abbrev managed_host : World
managed_host = record {
  trace = [];
  states = ("/var/lib/rucher/cadres/state/shop.json", stored shop_state) ∷ [];
}

remove-unmanages_example :
    ((remove env "shop" false managed_host).0 ≡ ok tt)
    × (lookup (state_path env "shop") (remove env "shop" false managed_host).1.states ≡ none)
unfolding run_apply
remove-unmanages_example =
    remove-unmanages env "shop" managed_host shop_state refl refl (λ trace c. refl)

abbrev status_rows : Result (List UnitStatus) → List UnitStatus
status_rows (ok out) = out
status_rows (err e) = []
