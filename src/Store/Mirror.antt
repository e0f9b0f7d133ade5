-- ===== src/Store/Mirror.antt =====
-- internal/store/s3.go: the cache and its state behind a sync that succeeds.
use mathlib.Core.Path.{subst}
use rucher.Base.{
  ◌≡◌, ◌∙◌, ◌==◌, ◌∷◌, refl, sym, ap, inl, inr, true, false, Option, none, some, String, List, [],
  eq_iff, string_eq, nat_eq, contains, All, Bool-cases, Distinct,
}
use rucher.Store.S3.{
  S3, ObjInfo, S3State, Disk, Bucket, download, drop_removed, save, finish, finish_with, update_in,
  start_clean, update_cache, sync_objects, sync, sync_from, listed, load_s3_state, store_identity,
  revision_of,
}
use rucher.Store.Download.{Serves, IsAccurate, AreApart, AreKnown, Downloaded, download-Downloaded}
use rucher.Store.Entries.{listed_keys}
use rucher.Base.Dict.{Dict, keys}
use rucher.Base.Result.{ok_inj, Result, ok, err}
use rucher.Store.Cache.{IsCache, Mirrors, kept-IsCache, kept-Mirrors}

module _ (s : S3) (b : Bucket) (content : String → String → String) (known : List String)
    (apart : AreApart s b content known) (objects : List ObjInfo)
    (ko : AreKnown s b content known apart objects) (serves : All (Serves s b content) objects)
    (distinct : Distinct (listed_keys objects)) where
  -- what a sync that succeeded has left
  abbrev pub IsSynced : Disk → Type 0
  IsSynced disk =
      Mirrors s b content known apart objects disk.files
      × ((load_s3_state disk).store ≡ store_identity s)
      × IsCache s b content known apart (load_s3_state disk).objects disk.files

  -- the result and the cache of a sync that succeeded
  abbrev pub Succeeds : String × String → Disk → Type 0
  Succeeds r after = (r ≡ (s.cache_path, revision_of b.sha256 objects)) × IsSynced after

  save-Succeeds :
      (fault : Option String) (next : Dict String) (disk after : Disk) (r : String × String)
      → Mirrors s b content known apart objects disk.files
      → IsCache s b content known apart next disk.files
      → save s b fault objects next disk ≡ (ok r, after)
      → Succeeds r after
  unfolding save load_s3_state
  save-Succeeds (some e) next disk after r mirrors cache h = absurd (cc)
  save-Succeeds none next disk after r mirrors cache h = (
    sym (ok_inj (s.cache_path, revision_of b.sha256 objects) r (ap (λ p. p.0) h)),
    subst IsSynced (ap (λ p. p.1) h) (mirrors, refl, cache),
  )

  finish-Succeeds :
      (prev : S3State) (disk after : Disk) (next files : Dict String) (r : String × String)
      → All (λ k. contains k known ≡ true) (keys prev.objects)
      → IsCache s b content known apart prev.objects files
      → Downloaded s b content objects [] files next disk.files
      → finish s b prev objects next disk ≡ (ok r, after)
      → Succeeds r after
  unfolding finish
  finish-Succeeds prev disk after next files r ks cache down h =
      save-Succeeds b.save_fault next
        (record disk { files = drop_removed s b (keys prev.objects) next disk.files }) after r
        (kept-Mirrors s b content known apart prev.objects files objects next disk.files ko ks
          distinct cache down)
        (kept-IsCache s b content known apart prev.objects files objects next disk.files ko ks
          distinct cache down)
        h

  finish_with-Succeeds :
      (prev : S3State) (disk after : Disk) (files : Dict String) (r : String × String)
      (d : Result (Dict String) × Dict String)
      → All (λ k. contains k known ≡ true) (keys prev.objects)
      → IsCache s b content known apart prev.objects files
      → download s b prev.objects objects [] files ≡ d
      → finish_with s b prev objects disk d ≡ (ok r, after)
      → Succeeds r after
  unfolding finish_with
  finish_with-Succeeds prev disk after files r (err e, fs) ks cache ran h = absurd (cc)
  finish_with-Succeeds prev disk after files r (ok next, fs) ks cache ran h =
      finish-Succeeds prev (record disk { files = fs }) after next files r ks cache
        (download-Downloaded s b content known apart prev.objects objects [] files next fs ko serves
          distinct (each_accurate objects) ran)
        h
    where
      each_accurate :
          (os : List ObjInfo) → All (λ o. IsAccurate s b content prev.objects files o.key) os
      each_accurate [] = tt
      each_accurate (o ∷ os) = (cache.accurate o.key, each_accurate os)

  update_in-Succeeds :
      (fault : Option String) (prev : S3State) (disk after : Disk) (r : String × String)
      → All (λ k. contains k known ≡ true) (keys prev.objects)
      → IsCache s b content known apart prev.objects disk.files
      → update_in s b fault prev objects disk ≡ (ok r, after)
      → Succeeds r after
  unfolding update_in
  update_in-Succeeds (some e) prev disk after r ks cache h = absurd (cc)
  update_in-Succeeds none prev disk after r ks cache h =
      finish_with-Succeeds prev (record disk { present = true }) after disk.files r
        (download s b prev.objects objects [] disk.files) ks cache refl h

  start_clean-Succeeds :
      (fault : Option (String × Dict String)) (disk after : Disk) (r : String × String)
      → start_clean s b fault objects disk ≡ (ok r, after)
      → Succeeds r after
  unfolding start_clean update_cache
  start_clean-Succeeds (some (e, left)) disk after r h = absurd (cc)
  start_clean-Succeeds none disk after r h =
      update_in-Succeeds b.mkdir_fault (record { store = ""; objects = [] })
        (record disk { present = false; files = [] }) after r tt
        (record {
          accurate = λ key d v at found full. absurd (cc);
          owned = λ path v removes found. absurd (cc);
        })
        h

  sync_objects-Succeeds :
      (disk after : Disk) (r : String × String)
      → All (λ k. contains k known ≡ true) (keys (load_s3_state disk).objects)
      → ((load_s3_state disk).store ≡ store_identity s
          → IsCache s b content known apart (load_s3_state disk).objects disk.files)
      → sync_objects s b objects disk ≡ (ok r, after)
      → Succeeds r after
  unfolding sync_objects update_cache
  sync_objects-Succeeds disk after r ks cache h =
      elim (Bool-cases ((load_s3_state disk).store == store_identity s)) [
        | inl same ↦
            update_in-Succeeds b.mkdir_fault (load_s3_state disk) disk after r ks
              (cache ((eq_iff (load_s3_state disk).store (store_identity s)).0 same)) (rw same at h)
        | inr other ↦ start_clean-Succeeds b.clear_fault disk after r (rw other at h)
      ]

  sync-objects :
      (disk : Disk)
      → b.client_fault ≡ none
      → listed b.listing ≡ ok objects
      → sync s b disk ≡ sync_objects s b objects disk
  unfolding sync sync_from
  sync-objects disk client listing =
      ap (λ c. sync_from s b c (listed b.listing) disk) client
      ∙ ap (λ l. sync_from s b none l disk) listing

  -- After a sync whose listing was complete and that returned no error, the checkout is the cache directory
  -- and the revision that of the listed objects; the cache holds the content of every listed object at its
  -- path, and each of its files is at the path of a listed object, but for files whose removal failed; and
  -- the state beside it says so of the next sync. Before, the files were those of the state, again but for
  -- these, if the state was of this store. Listed keys are distinct, of the listed keys and those of the
  -- state different ones have different paths, and what is fetched is the content of the listed ETag, which
  -- is not empty.
  pub sync-Succeeds :
      (disk after : Disk) (r : String × String)
      → All (λ k. contains k known ≡ true) (keys (load_s3_state disk).objects)
      → ((load_s3_state disk).store ≡ store_identity s
          → IsCache s b content known apart (load_s3_state disk).objects disk.files)
      → b.client_fault ≡ none
      → listed b.listing ≡ ok objects
      → sync s b disk ≡ (ok r, after)
      → Succeeds r after
  sync-Succeeds disk after r ks cache client listing h =
      sync_objects-Succeeds disk after r ks cache (sym (sync-objects disk client listing) ∙ h)
