-- ===== src/Store/Git.antt =====
-- internal/store/git.go: the sync of a branch into a cache directory. The library is a parameter; the state
-- is what it opens at the path of the cache. The repository at a path is a value with what each of its reads
-- returns.
use rucher.Base.{
  ◌==◌, ◌&&◌, ◌<>◌, ◌∷◌, Bool, false, not, Option, none, some, String, List, [], if◌then◌else◌,
  string_eq, nat_eq,
}
use rucher.Base.Result.{Result, ok, err, ◌>>=◌}

-- `Git`
pub record Git : Type 0 where
  pub url : String
  pub branch : String
  pub cache_path : String
  pub ssh_key : String
  pub token : String
  pub user : String
  pub insecure_host_key : Bool

-- what `auth` returns: a key with the host-key callback of the library or one that accepts all, a password,
-- or nothing
pub data AuthMethod (Key : Type 0) : Type 0 where
  public_keys : Key → (accepts_all : Bool) → AuthMethod Key
  basic_auth : (username password : String) → AuthMethod Key
  no_auth : AuthMethod Key

-- the name and the hash of a reference
pub record Reference : Type 0 where
  pub name : String
  pub hash : String

pub record Repository : Type 0 where
  pub remote_urls : Result (List String)
  pub head : Result Reference
  pub worktree : Result (Unit {0})

-- what `PlainOpen` finds
pub data Cache : Type 0 where
  missing : Cache
  unreadable : String → Cache
  opened : Repository → Cache

-- a clone fails and leaves something at the path, or leaves the repository that it returns
pub data Cloned : Type 0 where
  clone_failed : String → Cache → Cloned
  cloned : Repository → Cloned

pub data Pulled : Type 0 where
  updated : Pulled
  already_up_to_date : Pulled
  pull_failed : String → Pulled

-- the library: the name of a branch's reference, the reading of a key, the clone of a URL, the pull, and
-- what a failed removal of the cache leaves
pub record Library (Key : Type 0) : Type 0 where
  pub branch_reference : String → String
  pub read_key : String → Result Key
  pub clone : AuthMethod Key → String → String → Cloned
  pub pull : AuthMethod Key → String → Repository → Pulled × Repository
  pub remove_fault : Option (String × Cache)

-- `httpsUsername`
unfoldable pub https_username : String → String
https_username user = if user == "" then "git" else user

abbrev pub Outcome : Type 0
Outcome = Result (String × String)

module _ {Key : Type 0} (lib : Library Key) (g : Git) where
  -- `auth`
  unfoldable pub auth : Result (AuthMethod Key)
  auth =
      let from_key = lib.read_key g.ssh_key >>= λ key. ok (public_keys key g.insecure_host_key) in
      if not (g.ssh_key == "")
      then from_key
      else if not (g.token == "")
      then ok (basic_auth (https_username g.user) g.token)
      else ok no_auth

  abbrev starts_with : List String → Bool
  starts_with [] = false
  starts_with (url ∷ urls) = url == g.url

  unfoldable pub head_matches : Result Reference → Bool
  head_matches (err e) = false
  head_matches (ok head) = head.name == lib.branch_reference g.branch

  unfoldable pub remote_matches : Result (List String) → Bool
  remote_matches (err e) = false
  remote_matches (ok urls) = starts_with urls

  -- `cacheMatches`
  unfoldable pub cache_matches : Repository → Bool
  cache_matches repo = remote_matches repo.remote_urls && head_matches repo.head

  -- the result for the head of the repository
  unfoldable pub checkout_of : Repository → Result Reference → Outcome × Cache
  checkout_of repo (err e) = (err e, opened repo)
  checkout_of repo (ok head) = (ok (g.cache_path, head.hash), opened repo)

  unfoldable pub after_clone : Cloned → Outcome × Cache
  after_clone (clone_failed e left) = (err ("git open/clone: " <> e), left)
  after_clone (cloned repo) = checkout_of repo repo.head

  -- the last good checkout, if there is one
  unfoldable pub last_good : String → Repository → Result Reference → Outcome × Cache
  last_good e repo (err _) = (err ("git pull: " <> e), opened repo)
  last_good e repo (ok head) = (ok (g.cache_path, head.hash), opened repo)

  unfoldable pub after_pull : Pulled × Repository → Outcome × Cache
  after_pull (updated, repo) = checkout_of repo repo.head
  after_pull (already_up_to_date, repo) = checkout_of repo repo.head
  after_pull (pull_failed e, repo) = last_good e repo repo.head

  unfoldable pub clone_with : AuthMethod Key → Outcome × Cache
  clone_with method = after_clone (lib.clone method (lib.branch_reference g.branch) g.url)

  unfoldable pub pull_into : AuthMethod Key → Repository → Result (Unit {0}) → Outcome × Cache
  pull_into method repo (err e) = (err e, opened repo)
  pull_into method repo (ok _) = after_pull (lib.pull method (lib.branch_reference g.branch) repo)

  -- a clone in place of another store's cache
  unfoldable pub rebuild : AuthMethod Key → Option (String × Cache) → Outcome × Cache
  rebuild method none = clone_with method
  rebuild method (some (e, left)) = (err ("git reset cache: " <> e), left)

  unfoldable pub sync_with : AuthMethod Key → Cache → Outcome × Cache
  sync_with method missing = clone_with method
  sync_with method (unreadable e) = (err ("git open/clone: " <> e), unreadable e)
  sync_with method (opened repo) =
      if cache_matches repo
      then pull_into method repo repo.worktree
      else rebuild method lib.remove_fault

  unfoldable pub sync_as : Result (AuthMethod Key) → Cache → Outcome × Cache
  sync_as (err e) cache = (err ("git auth: " <> e), cache)
  sync_as (ok method) cache = sync_with method cache

  -- `Git.Sync`
  unfoldable pub sync : Cache → Outcome × Cache
  sync = sync_as auth
