-- ===== src/Store/S3.antt =====
-- internal/store/s3.go: the sync of a bucket into a cache directory. The state is the files of the cache by
-- their paths and the sync state beside it; directories are left out, so `pruneEmptyDirs`, which removes
-- empty ones only, does nothing here. A state file that is missing or corrupt is none.
use rucher.Base.{
  ◌==◌, ◌&&◌, ◌||◌, ◌<>◌, ◌∷◌, Bool, true, false, not, Option, none, some, String, List, [], map,
  if◌then◌else◌, string_eq, nat_eq, is_empty,
}
use rucher.Base.Dict.{Dict, lookup, insert, keys, get, has}
use rucher.Base.Text.{concat, cut_prefix, has_prefix, has_suffix, split, is_some}
use rucher.Base.Path.{join_path, clean_elements}
use rucher.Base.Sort.{sort}
use rucher.Base.Result.{Result, ok, err, ◌>>=◌}

-- `S3`; the credentials and the region go to the client only
pub record S3 : Type 0 where
  pub endpoint : String
  pub bucket : String
  pub prefix : String
  pub cache_path : String

-- `objInfo`
pub record ObjInfo : Type 0 where
  pub key : String
  pub etag : String

-- `s3State`
pub record S3State : Type 0 where
  pub store : String
  pub objects : Dict String

pub record Disk : Type 0 where
  pub present : Bool
  pub files : Dict String
  pub saved : Option S3State

-- What the client and the file system do in one sync: the listing, which ends with an error or without, the
-- object under a key, the failures of the calls, where a failed removal may leave some files, and sha256.
pub record Bucket : Type 0 where
  pub client_fault : Option String
  pub listing : List (Result ObjInfo)
  pub object : String → Result String
  pub clear_fault : Option (String × Dict String)
  pub mkdir_fault : Option String
  pub remove_fails : String → Bool
  pub save_fault : Option String
  pub sha256 : String → String

-- the elements of a path behind those of a base, or the elements up from the base
unfoldable pub rel_elements : List String → List String → List String × List String
rel_elements [] ys = ([], ys)
rel_elements (x ∷ xs) [] = (x ∷ xs, [])
rel_elements (x ∷ xs) (y ∷ ys) = if x == y then rel_elements xs ys else (x ∷ xs, y ∷ ys)

unfoldable pub elements : String → List String
elements path = clean_elements (has_prefix path "/") [] (split b'/' path)

abbrev pub starts_up : List String → Bool
starts_up [] = false
starts_up (x ∷ xs) = x == ".."

-- whether `filepath.Rel` fails or gives a path that starts with ".."
unfoldable pub escapes : String → String → Bool
escapes base dest =
    let (up, down) = rel_elements (elements base) (elements dest) in
    (if has_prefix base "/" then not (has_prefix dest "/") else has_prefix dest "/")
    || not (is_empty up)
    || starts_up down

-- `resolveDest`
unfoldable pub resolve_dest : String → String → Result String
resolve_dest base rel =
    let dest = join_path (base ∷ rel ∷ []) in
    if escapes base dest then err ("s3 object key escapes cache dir: " <> rel) else ok dest

unfoldable pub line_of : ObjInfo → String
line_of o = o.key <> ("\t" <> (o.etag <> "\n"))

-- `revisionOf`
unfoldable pub revision_of : (String → String) → List ObjInfo → String
revision_of sha256 objects = sha256 (concat (sort (map line_of objects)))

-- `storeIdentity`
unfoldable pub store_identity : S3 → String
store_identity s = s.endpoint <> ("|" <> (s.bucket <> ("|" <> s.prefix)))

-- `loadS3State`
unfoldable pub load_s3_state : Disk → S3State
load_s3_state disk = elim disk.saved [ none ↦ record { store = ""; objects = [] } | some st ↦ st ]

unfoldable pub objects_of : Dict String → List ObjInfo
objects_of [] = []
objects_of ((k, e) ∷ m) = record { key = k; etag = e } ∷ objects_of m

abbrev pub slash_end : String → String
slash_end prefix =
    if not (prefix == "") && not (has_suffix prefix "/") then prefix <> "/" else prefix

-- strings.TrimPrefix
abbrev pub trim_prefix : String → String → String
trim_prefix s prefix = elim (cut_prefix prefix s) [ none ↦ s | some t ↦ t ]

-- the path in the cache of an object's key
unfoldable pub dest_of : S3 → String → Result String
dest_of s key = resolve_dest s.cache_path (trim_prefix key (slash_end s.prefix))

-- the objects that are listed, up to the first error
unfoldable pub listed : List (Result ObjInfo) → Result (List ObjInfo)
listed [] = ok []
listed (err e ∷ rest) = err e
listed (ok o ∷ rest) = listed rest >>= λ os. ok (o ∷ os)

-- delete(m, k)
unfoldable pub erase : String → Dict String → Dict String
erase k [] = []
erase k ((j, v) ∷ m) = let rest = erase k m in if j == k then rest else (j, v) ∷ rest

-- `FGetObject` into a path
unfoldable pub place :
    String → String → Dict String → Result String → Result (Unit {0}) × Dict String
place key dest files (err e) = (err ("s3 get " <> (key <> (": " <> e))), files)
place key dest files (ok text) = (ok tt, insert dest text files)

-- the next round of the loop, if the download returned no error
abbrev pub continue_with :
    Result (Unit {0}) × Dict String
    → (Dict String → Result (Dict String) × Dict String)
    → Result (Dict String) × Dict String
continue_with (err e, files) next = (err e, files)
continue_with (ok _, files) next = next files

-- `os.Remove` of a path, whose failure is ignored
unfoldable pub drop_file : (String → Bool) → String → Dict String → Dict String
drop_file fails dest files = if fails dest then files else erase dest files

-- the file of an object, if it left the store
unfoldable pub drop_object : (String → Bool) → S3 → String → Dict String → Dict String → Dict String
drop_object fails s k next files =
    if has k next
    then files
    else elim (dest_of s k) [ err e ↦ files | ok dest ↦ drop_file fails dest files ]

module _ (s : S3) (b : Bucket) where
  -- `lastGood`
  unfoldable pub last_good : S3State → Disk → Option (String × String)
  last_good prev disk =
      if prev.store == store_identity s && disk.present
      then some (s.cache_path, revision_of b.sha256 (objects_of prev.objects))
      else none

  -- a download, unless the object is unchanged and its file is there
  unfoldable pub fetch_object :
      Dict String → ObjInfo → String → Dict String → Result (Unit {0}) × Dict String
  fetch_object prev o dest files =
      if get prev o.key == o.etag && is_some (lookup dest files)
      then (ok tt, files)
      else place o.key dest files (b.object o.key)

  -- the loop over the objects, with the keys and ETags so far
  unfoldable pub download :
      Dict String → List ObjInfo → Dict String → Dict String → Result (Dict String) × Dict String
  download prev [] next files = (ok next, files)
  download prev (o ∷ os) next files = elim (dest_of s o.key) [
    | err e ↦ (err e, files)
    | ok dest ↦
        continue_with (fetch_object prev o dest files)
          (λ fs. download prev os (insert o.key o.etag next) fs)
  ]

  -- the loop over the objects that left the store
  unfoldable pub drop_removed : List String → Dict String → Dict String → Dict String
  drop_removed [] next files = files
  drop_removed (k ∷ old) next files =
      drop_removed old next (drop_object b.remove_fails s k next files)

  -- the write of the state, at the end
  unfoldable pub save :
      Option String → List ObjInfo → Dict String → Disk → Result (String × String) × Disk
  save (some e) objects next disk = (err ("s3 save state: " <> e), disk)
  save none objects next disk = (
    ok (s.cache_path, revision_of b.sha256 objects),
    record disk { saved = some (record { store = store_identity s; objects = next }) },
  )

  unfoldable pub finish :
      S3State → List ObjInfo → Dict String → Disk → Result (String × String) × Disk
  finish prev objects next disk =
      save b.save_fault objects next
        (record disk { files = drop_removed (keys prev.objects) next disk.files })

  unfoldable pub finish_with :
      S3State
      → List ObjInfo
      → Disk
      → Result (Dict String) × Dict String
      → Result (String × String) × Disk
  finish_with prev objects disk (err e, files) = (err e, record disk { files = files })
  finish_with prev objects disk (ok next, files) =
      finish prev objects next (record disk { files = files })

  -- the cache of one store, from the creation of its directory
  unfoldable pub update_in :
      Option String → S3State → List ObjInfo → Disk → Result (String × String) × Disk
  update_in (some e) prev objects disk = (err e, disk)
  update_in none prev objects disk =
      finish_with prev objects (record disk { present = true })
        (download prev.objects objects [] disk.files)

  unfoldable pub update_cache : S3State → List ObjInfo → Disk → Result (String × String) × Disk
  update_cache = update_in b.mkdir_fault

  -- the cache after it was another store's
  unfoldable pub start_clean :
      Option (String × Dict String) → List ObjInfo → Disk → Result (String × String) × Disk
  start_clean (some (e, left)) objects disk =
      (err ("s3 clear cache: " <> e), record disk { files = left })
  start_clean none objects disk =
      update_cache (record { store = ""; objects = [] }) objects
        (record disk { present = false; files = [] })

  unfoldable pub sync_objects : List ObjInfo → Disk → Result (String × String) × Disk
  sync_objects objects disk =
      let prev = load_s3_state disk in
      if prev.store == store_identity s
      then update_cache prev objects disk
      else start_clean b.clear_fault objects disk

  unfoldable pub list_failed : String → Disk → Result (String × String) × Disk
  list_failed e disk = elim (last_good (load_s3_state disk) disk) [
    | some good ↦ (ok good, disk)
    | none ↦ (err ("s3 list: " <> e), disk)
  ]

  unfoldable pub sync_from :
      Option String → Result (List ObjInfo) → Disk → Result (String × String) × Disk
  sync_from (some e) listing disk = (err ("s3 client: " <> e), disk)
  sync_from none (err e) disk = list_failed e disk
  sync_from none (ok objects) disk = sync_objects objects disk

  -- `S3.Sync`
  unfoldable pub sync : Disk → Result (String × String) × Disk
  sync disk = sync_from b.client_fault (listed b.listing) disk
