-- ===== src/Tests/Git.antt =====
-- Syncs of a branch: a first clone, and a pull that fails.
use mathlib.Core.Path.{subst}
use rucher.Base.{◌≡◌, ◌<>◌, ◌∷◌, refl, ap, false, none, String, [], string_eq, nat_eq}
use rucher.Base.Result.{ok, err}
use rucher.Store.Git.{
  Reference, Git, AuthMethod, no_auth, Repository, opened, missing, Cloned, cloned, clone_failed,
  pull_failed, Library, auth, cache_matches, checkout_of, after_clone, clone_with, rebuild,
  sync_with, sync_as, sync, remote_matches,
}
use rucher.Store.Served.{IsConfigured, IsServed, sync-IsServed, sync-last_good}

abbrev git : Git
git = record {
  url = "https://git.example/fleet";
  branch = "main";
  cache_path = "/c";
  ssh_key = "";
  token = "";
  user = "";
  insecure_host_key = false;
}

abbrev repository : String → String → Repository
repository url hash = record {
  remote_urls = ok (url ∷ []);
  head = ok (record { name = "refs/heads/main"; hash = hash });
  worktree = ok tt;
}

-- every clone is of the first commit, and no pull reaches the server
abbrev library : Library String
library = record {
  branch_reference = λ branch. "refs/heads/" <> branch;
  read_key = λ path. err "no such file";
  clone = λ method ref url. cloned (repository url "c1");
  pull = λ method ref repo. (pull_failed "connection refused", repo);
  remove_fault = none;
}

clone_runs :
    sync library git missing
    ≡ (ok ("/c", "c1"), opened (repository "https://git.example/fleet" "c1"))
unfolding sync sync_as auth sync_with clone_with after_clone checkout_of
clone_runs = refl

-- a cache of another store is cloned again
moved_runs :
    sync library git (opened (repository "https://git.example/old" "b7"))
    ≡ (ok ("/c", "c1"), opened (repository "https://git.example/fleet" "c1"))
unfolding sync sync_as auth sync_with clone_with after_clone checkout_of rebuild cache_matches
    remote_matches
moved_runs = refl

abbrev fleet_repository : Repository
fleet_repository = repository "https://git.example/fleet" "c1"

abbrev repository_in : Cloned → Repository
repository_in (clone_failed e left) = fleet_repository
repository_in (cloned repo) = repo

clones :
    (method : AuthMethod String) (repo : Repository)
    → cloned (repository "https://git.example/fleet" "c1") ≡ cloned repo
    → IsConfigured library git repo
clones method repo h =
    subst (IsConfigured library git) (ap repository_in h) (([], refl), ("c1", refl))

sync-IsServed_example :
    IsServed library git ("/c", "c1") (opened (repository "https://git.example/fleet" "c1"))
sync-IsServed_example =
    sync-IsServed library git clones (λ method repo same. same) missing
      (opened (repository "https://git.example/fleet" "c1")) ("/c", "c1") clone_runs

abbrev main_head : String → Reference
main_head hash = record { name = "refs/heads/main"; hash = hash }

sync-last_good_example :
    (hash : String) × (ok (main_head "b7") ≡ ok (main_head hash))
    × (sync library git (opened (repository "https://git.example/fleet" "b7"))
        ≡ (ok ("/c", hash), opened (repository "https://git.example/fleet" "b7")))
unfolding auth
sync-last_good_example =
    sync-last_good library git (λ method repo same. same) no_auth
      (repository "https://git.example/fleet" "b7") refl (([], refl), ("b7", refl)) refl
