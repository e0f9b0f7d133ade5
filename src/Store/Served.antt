-- ===== src/Store/Served.antt =====
-- internal/store/git.go: the checkout and the revision that a sync of a branch serves.
use rucher.Base.{
  ◌∙◌, ◌∙◌, [], ◌∷◌, eq_iff, ◌∷◌, arith, List, ◌≡◌, refl, sym, ap, inl, inr, true, Option, none,
  some, String, string_eq, nat_eq, Bool-cases,
}
use rucher.Base.Result.{Result, ok, err, ok_inj}
use rucher.Store.Git.{
  head_matches, remote_matches, Git, AuthMethod, Reference, Repository, Cache, opened, missing,
  unreadable, Cloned, cloned, clone_failed, Pulled, updated, already_up_to_date, pull_failed,
  Library, auth, cache_matches, checkout_of, after_clone, last_good, after_pull, clone_with,
  pull_into, rebuild, sync_with, sync_as, sync,
}

module _ {Key : Type 0} (lib : Library Key) (g : Git) where
  -- The first URL of the origin is the configured one, and the head is on the configured branch.
  abbrev pub IsConfigured : Repository → Type 0
  IsConfigured repo =
      ((urls : List String) × (repo.remote_urls ≡ ok (g.url ∷ urls)))
      × ((hash : String) × (repo.head
            ≡ ok (record { name = lib.branch_reference g.branch; hash = hash })))

  remote_matches-first :
      (r : Result (List String))
      → remote_matches lib g r ≡ true
      → (urls : List String) × (r ≡ ok (g.url ∷ urls))
  unfolding remote_matches
  remote_matches-first (err e) h = absurd (cc)
  remote_matches-first (ok []) h = absurd (cc)
  remote_matches-first (ok (url ∷ urls)) h =
      (urls, ap (λ u. ok (u ∷ urls)) ((eq_iff url g.url).0 h))

  first-remote_matches :
      (urls : List String) (r : Result (List String))
      → r ≡ ok (g.url ∷ urls)
      → remote_matches lib g r ≡ true
  unfolding remote_matches
  first-remote_matches urls r h = rw h ((eq_iff g.url g.url).1 refl)

  head_matches-name :
      (r : Result Reference)
      → head_matches lib g r ≡ true
      → (hash : String) × (r ≡ ok (record { name = lib.branch_reference g.branch; hash = hash }))
  unfolding head_matches
  head_matches-name (err e) h = absurd (cc)
  head_matches-name (ok head) h = (
    head.hash,
    ap (λ n. ok (record head { name = n }))
        ((eq_iff head.name (lib.branch_reference g.branch)).0 h),
  )

  name-head_matches :
      (hash : String) (r : Result Reference)
      → r ≡ ok (record { name = lib.branch_reference g.branch; hash = hash })
      → head_matches lib g r ≡ true
  unfolding head_matches
  name-head_matches hash r h =
      rw h ((eq_iff (lib.branch_reference g.branch) (lib.branch_reference g.branch)).1 refl)

  cache_matches-IsConfigured :
      (repo : Repository) → cache_matches lib g repo ≡ true → IsConfigured repo
  unfolding cache_matches
  cache_matches-IsConfigured repo h = (
    remote_matches-first repo.remote_urls (ground (arith, h)),
    head_matches-name repo.head (ground (arith, h)),
  )

  IsConfigured-cache_matches :
      (repo : Repository) → IsConfigured repo → cache_matches lib g repo ≡ true
  unfolding cache_matches
  IsConfigured-cache_matches repo c =
      let remote : remote_matches lib g repo.remote_urls ≡ true =
        first-remote_matches c.0.0 repo.remote_urls c.0.1 in
      let head : head_matches lib g repo.head ≡ true = name-head_matches c.1.0 repo.head c.1.1 in
      ground (arith, remote, head)

  -- A clone that succeeds has the URL that it is given as its origin, and its head on the branch.
  abbrev pub Clones : Type 0
  Clones =
      (method : AuthMethod Key) (repo : Repository)
      → lib.clone method (lib.branch_reference g.branch) g.url ≡ cloned repo
      → IsConfigured repo

  -- A pull keeps the origin and the branch of the head, whether it fails or not.
  abbrev pub Pulls : Type 0
  Pulls =
      (method : AuthMethod Key) (repo : Repository)
      → IsConfigured repo
      → IsConfigured (lib.pull method (lib.branch_reference g.branch) repo).1

  -- the checkout and the revision are those of a repository of the configuration, which is the cache
  abbrev pub IsServed : String × String → Cache → Type 0
  IsServed r after =
      (repo : Repository) × (after ≡ opened repo)
      × IsConfigured repo
      × ((head : Reference) × (repo.head ≡ ok head) × (r ≡ (g.cache_path, head.hash)))

  checkout_of-IsServed :
      (repo : Repository) (head : Result Reference) (r : String × String) (after : Cache)
      → IsConfigured repo
      → repo.head ≡ head
      → checkout_of lib g repo head ≡ (ok r, after)
      → IsServed r after
  unfolding checkout_of
  checkout_of-IsServed repo (err e) r after m at h = absurd (cc)
  checkout_of-IsServed repo (ok head) r after m at h = (
    repo,
    sym (ap (λ p. p.1) h),
    m,
    (head, at, sym (ok_inj (g.cache_path, head.hash) r (ap (λ p. p.0) h))),
  )

  last_good-IsServed :
      (e : String) (repo : Repository) (head : Result Reference) (r : String × String)
      (after : Cache)
      → IsConfigured repo
      → repo.head ≡ head
      → last_good lib g e repo head ≡ (ok r, after)
      → IsServed r after
  unfolding last_good
  last_good-IsServed e repo (err _) r after m at h = absurd (cc)
  last_good-IsServed e repo (ok head) r after m at h = (
    repo,
    sym (ap (λ p. p.1) h),
    m,
    (head, at, sym (ok_inj (g.cache_path, head.hash) r (ap (λ p. p.0) h))),
  )

  after_pull-IsServed :
      (p : Pulled × Repository) (r : String × String) (after : Cache)
      → IsConfigured p.1
      → after_pull lib g p ≡ (ok r, after)
      → IsServed r after
  unfolding after_pull
  after_pull-IsServed (updated, repo) r after m h =
      checkout_of-IsServed repo repo.head r after m refl h
  after_pull-IsServed (already_up_to_date, repo) r after m h =
      checkout_of-IsServed repo repo.head r after m refl h
  after_pull-IsServed (pull_failed e, repo) r after m h =
      last_good-IsServed e repo repo.head r after m refl h

  after_clone-IsServed :
      (c : Cloned) (r : String × String) (after : Cache)
      → ((repo : Repository) → c ≡ cloned repo → IsConfigured repo)
      → after_clone lib g c ≡ (ok r, after)
      → IsServed r after
  unfolding after_clone
  after_clone-IsServed (clone_failed e left) r after m h = absurd (cc)
  after_clone-IsServed (cloned repo) r after m h =
      checkout_of-IsServed repo repo.head r after (m repo refl) refl h

  module _ (clones : Clones) (pulls : Pulls) where
    clone_with-IsServed :
        (method : AuthMethod Key) (r : String × String) (after : Cache)
        → clone_with lib g method ≡ (ok r, after)
        → IsServed r after
    unfolding clone_with
    clone_with-IsServed method r after =
        after_clone-IsServed (lib.clone method (lib.branch_reference g.branch) g.url) r after
          (clones method)

    pull_into-IsServed :
        (method : AuthMethod Key) (repo : Repository) (wt : Result (Unit {0})) (r : String × String)
        (after : Cache)
        → IsConfigured repo
        → pull_into lib g method repo wt ≡ (ok r, after)
        → IsServed r after
    unfolding pull_into
    pull_into-IsServed method repo (err e) r after m h = absurd (cc)
    pull_into-IsServed method repo (ok _) r after m h =
        after_pull-IsServed (lib.pull method (lib.branch_reference g.branch) repo) r after
          (pulls method repo m) h

    rebuild-IsServed :
        (method : AuthMethod Key) (fault : Option (String × Cache)) (r : String × String)
        (after : Cache)
        → rebuild lib g method fault ≡ (ok r, after)
        → IsServed r after
    unfolding rebuild
    rebuild-IsServed method none r after h = clone_with-IsServed method r after h
    rebuild-IsServed method (some (e, left)) r after h = absurd (cc)

    sync_with-IsServed :
        (method : AuthMethod Key) (cache after : Cache) (r : String × String)
        → sync_with lib g method cache ≡ (ok r, after)
        → IsServed r after
    unfolding sync_with
    sync_with-IsServed method missing after r h = clone_with-IsServed method r after h
    sync_with-IsServed method (unreadable e) after r h = absurd (cc)
    sync_with-IsServed method (opened repo) after r h =
        elim (Bool-cases (cache_matches lib g repo)) [
          | inl same ↦
              pull_into-IsServed method repo repo.worktree r after
                (cache_matches-IsConfigured repo same) (rw same at h)
          | inr other ↦ rebuild-IsServed method lib.remove_fault r after (rw other at h)
        ]

    sync_as-IsServed :
        (a : Result (AuthMethod Key)) (cache after : Cache) (r : String × String)
        → sync_as lib g a cache ≡ (ok r, after)
        → IsServed r after
    unfolding sync_as
    sync_as-IsServed (err e) cache after r h = absurd (cc)
    sync_as-IsServed (ok method) cache after r h = sync_with-IsServed method cache after r h

    -- Whatever stood in the cache, a sync that returns no error leaves a repository there whose first origin is
    -- the configured URL and whose head is on the configured branch, and returns the cache directory and the hash
    -- of that head; this holds for a fresh clone, a pull, and the last good checkout after a failed pull. A
    -- clone that succeeds is of the URL and the branch it is given, and a pull keeps both.
    pub sync-IsServed :
        (cache after : Cache) (r : String × String)
        → sync lib g cache ≡ (ok r, after)
        → IsServed r after
    unfolding sync
    sync-IsServed cache after r h = sync_as-IsServed (auth lib g) cache after r h

  result_of :
      (p : Pulled × Repository) (head : Reference)
      → p.1.head ≡ ok head
      → after_pull lib g p ≡ (ok (g.cache_path, head.hash), opened p.1)
  unfolding after_pull checkout_of last_good
  result_of (updated, repo) head at = ap (checkout_of lib g repo) at
  result_of (already_up_to_date, repo) head at = ap (checkout_of lib g repo) at
  result_of (pull_failed e, repo) head at = ap (last_good lib g e repo) at

  -- When the cache is a repository of the configured URL and branch, with a worktree, and the authentication
  -- is given, a sync returns no error whatever the pull does: the cache is the repository as the pull left it,
  -- and the revision the hash of its head, on the configured branch. A pull keeps the origin and the branch.
  pub sync-last_good :
      (pulls : Pulls) (method : AuthMethod Key) (repo : Repository)
      → auth lib g ≡ ok method
      → IsConfigured repo
      → repo.worktree ≡ ok tt
      → let after : Repository = (lib.pull method (lib.branch_reference g.branch) repo).1 in
        (hash : String) × (after.head
          ≡ ok (record { name = lib.branch_reference g.branch; hash = hash }))
        × (sync lib g (opened repo) ≡ (ok (g.cache_path, hash), opened after))
  unfolding sync sync_as sync_with pull_into
  sync-last_good pulls method repo method_is same ready =
      let pulled = lib.pull method (lib.branch_reference g.branch) repo in
      let (hash, at) = (pulls method repo same).1 in
      (
        hash,
        at,
        rw (method_is, sync)
            (rw (IsConfigured-cache_matches repo same, sync_with)
              (ap (pull_into lib g method repo) ready ∙ result_of pulled _ at)),
      )
