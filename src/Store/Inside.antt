-- ===== src/Store/Inside.antt =====
-- internal/store/s3.go: the paths of the files that a sync writes, with `resolveDest`.
use mathlib.Core.Path.{subst}
use rucher.Base.{
  is_empty, ◌≡◌, ◌∙◌, ◌==◌, ◌&&◌, ◌∷◌, ◌++◌, refl, sym, ap, inl, inr, true, false, Option, none,
  some, String, List, [], arith, eq_iff, string_eq, nat_eq, Bool-cases, Option-cases,
}
use rucher.Base.Dict.{Dict, lookup, insert, keys, get, has, lookup-insert}
use rucher.Base.Text.{is_some}
use rucher.Base.Path.{join_path}
use rucher.Base.Result.{Result, Result-cases, ok, err, ok_inj}
use rucher.Store.S3.{
  drop_file, S3, ObjInfo, S3State, Disk, Bucket, rel_elements, elements, starts_up, escapes,
  resolve_dest, dest_of, fetch_object, place, continue_with, download, drop_removed, drop_object,
  erase, save, finish, finish_with, update_in, start_clean, update_cache, sync_objects, sync,
  sync_from, listed, list_failed, last_good, load_s3_state, store_identity,
}
use rucher.Store.Entries.{lookup-erase}

-- The elements of the path are those of the base and more, and do not go up behind it.
abbrev pub IsInside : String → String → Type 0
IsInside base path =
    (rest : List String) × (elements path ≡ elements base ++ rest) × (starts_up rest ≡ false)

rel_elements-below :
    (xs ys : List String)
    → is_empty (rel_elements xs ys).0 ≡ true
    → ys ≡ xs ++ (rel_elements xs ys).1
unfolding rel_elements
rel_elements-below [] ys h = refl
rel_elements-below (x ∷ xs) [] h = absurd (cc)
rel_elements-below (x ∷ xs) (y ∷ ys) h = elim (Bool-cases (x == y)) [
  | inl same ↦
      let head : x ≡ y = (eq_iff x y).0 same in
      let tail = rel_elements-below xs ys (rw same at h) in
      rw same (ap (λ z. z ∷ ys) (sym head) ∙ ap (◌∷◌ x) tail)
  | inr other ↦ absurd (cc (rw other at h))
]

escapes-IsInside : (base dest : String) → escapes base dest ≡ false → IsInside base dest
unfolding escapes
escapes-IsInside base dest h =
    let walk = rel_elements (elements base) (elements dest) in
    let below : is_empty walk.0 ≡ true = ground (arith, h) in
    (walk.1, rel_elements-below (elements base) (elements dest) below, ground (arith, h))

resolve_dest-IsInside :
    (base rel dest : String) → resolve_dest base rel ≡ ok dest → IsInside base dest
unfolding resolve_dest
resolve_dest-IsInside base rel dest h =
    let joined = join_path (base ∷ rel ∷ []) in
    elim (Bool-cases (escapes base joined)) [
      | inl out ↦ absurd (cc (rw out at h))
      | inr kept ↦
          let same : ok joined ≡ ok dest = rw kept at h in
          subst (IsInside base) (ok_inj joined dest same) (escapes-IsInside base joined kept)
    ]

module _ (s : S3) (b : Bucket) where
  abbrev pub IsContained : Dict String → Type 0
  IsContained files = (path v : String) → lookup path files ≡ some v → IsInside s.cache_path path

  insert-IsContained :
      (dest text : String) (files : Dict String)
      → IsInside s.cache_path dest
      → IsContained files
      → IsContained (insert dest text files)
  insert-IsContained dest text files inside c path v found = elim (Bool-cases (dest == path)) [
    | inl here ↦ subst (IsInside s.cache_path) ((eq_iff dest path).0 here) inside
    | inr other ↦ c path v (ground (arith, found, lookup-insert dest path text files, other))
  ]

  erase-IsContained :
      (dest : String) (files : Dict String) → IsContained files → IsContained (erase dest files)
  erase-IsContained dest files c path v found = elim (Bool-cases (dest == path)) [
    | inl here ↦ absurd (ground (arith, found, lookup-erase dest path files, here))
    | inr other ↦ c path v (ground (arith, found, lookup-erase dest path files, other))
  ]

  place-IsContained :
      (key dest : String) (files : Dict String) (o : Result String)
      → IsInside s.cache_path dest
      → IsContained files
      → IsContained (place key dest files o).1
  unfolding place
  place-IsContained key dest files (err e) inside c = c
  place-IsContained key dest files (ok text) inside c = insert-IsContained dest text files inside c

  fetch_object-IsContained :
      (prev : Dict String) (o : ObjInfo) (dest : String) (files : Dict String)
      → IsInside s.cache_path dest
      → IsContained files
      → IsContained (fetch_object s b prev o dest files).1
  unfolding fetch_object
  fetch_object-IsContained prev o dest files inside c =
      elim (Bool-cases (get prev o.key == o.etag && is_some (lookup dest files))) [
        | inl unchanged ↦ rw unchanged c
        | inr other ↦ rw other (place-IsContained o.key dest files (b.object o.key) inside c)
      ]

  continue_with-IsContained :
      (r : Result (Unit {0}) × Dict String)
      (next : Dict String → Result (Dict String) × Dict String)
      → IsContained r.1
      → ((files : Dict String) → IsContained files → IsContained (next files).1)
      → IsContained (continue_with r next).1
  continue_with-IsContained (err e, files) next c k = c
  continue_with-IsContained (ok _, files) next c k = k files c

  download-IsContained :
      (prev : Dict String) (os : List ObjInfo) (next files : Dict String)
      → IsContained files
      → IsContained (download s b prev os next files).1
  unfolding download dest_of
  download-IsContained prev [] next files c = c
  download-IsContained prev (o ∷ os) next files c = elim (Result-cases (dest_of s o.key)) [
    | inl (e, bad) ↦ rw (bad, download) c
    | inr (dest, at) ↦
        rw (at, download)
          (continue_with-IsContained (fetch_object s b prev o dest files)
            (λ fs. download s b prev os (insert o.key o.etag next) fs)
            (fetch_object-IsContained prev o dest files
              (resolve_dest-IsInside s.cache_path _ dest at) c)
            (λ fs k. download-IsContained prev os (insert o.key o.etag next) fs k))
  ]

  drop_file-IsContained :
      (dest : String) (files : Dict String)
      → IsContained files
      → IsContained (drop_file b.remove_fails dest files)
  unfolding drop_file
  drop_file-IsContained dest files c = elim (Bool-cases (b.remove_fails dest)) [
    | inl fails ↦ rw fails c
    | inr removes ↦ rw removes (erase-IsContained dest files c)
  ]

  drop_object-IsContained :
      (k : String) (next files : Dict String)
      → IsContained files
      → IsContained (drop_object b.remove_fails s k next files)
  unfolding drop_object
  drop_object-IsContained k next files c = elim (Bool-cases (has k next)) [
    | inl kept ↦ rw kept c
    | inr gone ↦ elim (Result-cases (dest_of s k)) [
      | inl (e, bad) ↦ rw (gone, bad) c
      | inr (dest, at) ↦ rw (gone, at) (drop_file-IsContained dest files c)
    ]
  ]

  drop_removed-IsContained :
      (old : List String) (next files : Dict String)
      → IsContained files
      → IsContained (drop_removed s b old next files)
  unfolding drop_removed
  drop_removed-IsContained [] next files c = c
  drop_removed-IsContained (k ∷ old) next files c =
      drop_removed-IsContained old next (drop_object b.remove_fails s k next files)
        (drop_object-IsContained k next files c)

  save-IsContained :
      (fault : Option String) (objects : List ObjInfo) (next : Dict String) (disk : Disk)
      → IsContained disk.files
      → IsContained (save s b fault objects next disk).1.files
  unfolding save
  save-IsContained (some e) objects next disk c = c
  save-IsContained none objects next disk c = c

  finish_with-IsContained :
      (prev : S3State) (objects : List ObjInfo) (disk : Disk)
      (d : Result (Dict String) × Dict String)
      → IsContained d.1
      → IsContained (finish_with s b prev objects disk d).1.files
  unfolding finish_with finish
  finish_with-IsContained prev objects disk (err e, files) c = c
  finish_with-IsContained prev objects disk (ok next, files) c =
      save-IsContained b.save_fault objects next
        (record disk { files = drop_removed s b (keys prev.objects) next files })
        (drop_removed-IsContained (keys prev.objects) next files c)

  update_in-IsContained :
      (fault : Option String) (prev : S3State) (objects : List ObjInfo) (disk : Disk)
      → IsContained disk.files
      → IsContained (update_in s b fault prev objects disk).1.files
  unfolding update_in
  update_in-IsContained (some e) prev objects disk c = c
  update_in-IsContained none prev objects disk c =
      finish_with-IsContained prev objects (record disk { present = true })
        (download s b prev.objects objects [] disk.files)
        (download-IsContained prev.objects objects [] disk.files c)

  -- What a failed removal leaves of the cache is in the cache directory.
  abbrev pub Leaves : Option (String × Dict String) → Type 0
  Leaves none = Unit
  Leaves (some (e, left)) = IsContained left

  start_clean-IsContained :
      (fault : Option (String × Dict String)) (objects : List ObjInfo) (disk : Disk)
      → Leaves fault
      → IsContained (start_clean s b fault objects disk).1.files
  unfolding start_clean update_cache
  start_clean-IsContained (some (e, left)) objects disk l = l
  start_clean-IsContained none objects disk l =
      update_in-IsContained b.mkdir_fault (record { store = ""; objects = [] }) objects
        (record disk { present = false; files = [] }) (λ path v found. absurd (cc))

  sync_from-IsContained :
      (client : Option String) (listing : Result (List ObjInfo)) (disk : Disk)
      → Leaves b.clear_fault
      → IsContained disk.files
      → IsContained (sync_from s b client listing disk).1.files
  unfolding sync_from sync_objects list_failed update_cache
  sync_from-IsContained (some e) listing disk l c = c
  sync_from-IsContained none (err e) disk l c =
      elim (Option-cases (last_good s b (load_s3_state disk) disk)) [
        | inl absent ↦ rw (absent, list_failed) c
        | inr (good, there) ↦ rw (there, list_failed) c
      ]
  sync_from-IsContained none (ok objects) disk l c =
      elim (Bool-cases ((load_s3_state disk).store == store_identity s)) [
        | inl same ↦
            rw same (update_in-IsContained b.mkdir_fault (load_s3_state disk) objects disk c)
        | inr other ↦ rw other (start_clean-IsContained b.clear_fault objects disk l)
      ]

  -- Whatever the bucket lists and serves, and whether the sync fails or not, every file that it leaves is in
  -- the cache directory, when those before were, and a removal that fails leaves none elsewhere: the elements
  -- of its path are those of the directory and more, and what follows does not start with "..".
  pub sync-IsInside :
      (disk : Disk)
      → Leaves b.clear_fault
      → IsContained disk.files
      → (path v : String) → lookup path (sync s b disk).1.files ≡ some v
      → IsInside s.cache_path path
  unfolding sync
  sync-IsInside disk l c = sync_from-IsContained b.client_fault (listed b.listing) disk l c
