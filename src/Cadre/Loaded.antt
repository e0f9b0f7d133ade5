-- ===== src/Cadre/Loaded.antt =====
-- What a cadre that `Load` returns is like.
use rucher.Base.{
  All-append, contains-append, Distinct, ◌≡◌, ◌∙◌, ◌∷◌, ◌++◌, refl, sym, ap, inl, inr, false, not,
  String, List, [], arith, eq_iff, if◌then◌else◌, string_eq, nat_eq, contains, All, Bool-cases,
}
use rucher.Base.Result.{ok, reject, with_context, >>=-eq-ok}
use rucher.Manifest.{load_manifest}
use rucher.Manifest.Validate.{validate as validate_manifest}
use rucher.Cadre.{file_names-append, File, Cadre, file_names, IsClassified, IsLoaded, IsFree}
use rucher.Cadre.Validate.{validate}
use rucher.Cadre.Valid.{validate-reserved}
use rucher.Cadre.Load.{
  load_kind, Kind, directory, regular, irregular, is_regular, Entry, Directory, entry_names,
  is_service, note_secrets, Loader, file_of, add_file, load_entry, load_entries, load,
}

append_one-Distinct :
    (xs : List String) (a : String) → Distinct xs → contains a xs ≡ false → Distinct (xs ++ a ∷ [])
append_one-Distinct [] a d h = ground arith
append_one-Distinct (x ∷ xs) a d h =
    ground
      (arith, append_one-Distinct xs a d.1, contains-append x xs (a ∷ []), eq_iff x a, eq_iff a x)

-- the files are well formed, and none of them has one of these names
record Growing (fs : List File) (names : List String) : Type 0 where
  distinct : Distinct (file_names fs)
  classified : All IsClassified fs
  absent : All (λ n. contains n (file_names fs) ≡ false) names

-- the entry left the files alone, or added its file
data Added (loader : Loader) (e : Entry) (c c' : Cadre) : Type 0 where
  kept : c'.files ≡ c.files → Added loader e c c'
  grown :
      (content : String)
      → c'.files ≡ c.files ++ file_of loader e.name content ∷ []
      → Added loader e c c'

absent-append :
    (xs : List String) (n : String) (names : List String)
    → contains n names ≡ false
    → All (λ k. contains k xs ≡ false) names
    → All (λ k. contains k (xs ++ n ∷ []) ≡ false) names
absent-append xs n [] new h = tt
absent-append xs n (k ∷ names) new h = (
  ground (arith, h.0, contains-append k xs (n ∷ []), eq_iff n k),
  absent-append xs n names (ground arith) h.1,
)

none_absent : (names : List String) → All (λ n. contains n [] ≡ false) names
none_absent [] = tt
none_absent (n ∷ names) = (refl, none_absent names)

module _ (loader : Loader) where
  note_secrets-files :
      (path : String) (e : Entry) (c : Cadre) → (note_secrets path e c).files ≡ c.files
  unfolding note_secrets
  note_secrets-files path e c = ground arith

  add_file-Added : (e : Entry) (c c' : Cadre) → add_file loader e c ≡ ok c' → Added loader e c c'
  unfolding add_file
  add_file-Added e c c' h =
      let (content, _, h1) = >>=-eq-ok e.content _ h in
      let same : record c { files = c.files ++ file_of loader e.name content ∷ [] } ≡ c' = cc h1 in
      grown content (ap (λ (d : Cadre). d.files) (sym same))

  load_regular-Added :
      (path : String) (e : Entry) (c c' : Cadre)
      → (if is_service c.manifest e.name then ok (note_secrets path e c) else add_file loader e c)
        ≡ ok c'
      → Added loader e c c'
  load_regular-Added path e c c' h = elim (Bool-cases (is_service c.manifest e.name)) [
    | inl s ↦
        let same : note_secrets path e c ≡ c' = cc (rw s at h) in
        kept (ap (λ (d : Cadre). d.files) (sym same) ∙ note_secrets-files path e c)
    | inr s ↦ add_file-Added e c c' (rw s at h)
  ]

  load_kind-Added :
      (kind : Kind) (path : String) (e : Entry) (c c' : Cadre)
      → load_kind loader kind path e c ≡ ok c'
      → Added loader e c c'
  unfolding load_kind
  load_kind-Added directory path e c c' h =
      let same : c ≡ c' = cc h in kept (ap (λ (d : Cadre). d.files) (sym same))
  load_kind-Added irregular path e c c' h = cc h
  load_kind-Added regular path e c c' h = load_regular-Added path e c c' h

  grown-Growing :
      (fs : List File) (n content : String) (names : List String)
      → contains n names ≡ false
      → Growing fs (n ∷ names)
      → Growing (fs ++ file_of loader n content ∷ []) names
  unfolding file_of
  grown-Growing fs n content names new g = record {
    distinct = rw file_names-append (append_one-Distinct (file_names fs) n g.distinct g.absent.0);
    classified =
        All-append IsClassified fs _ g.classified (record { unit = refl; systemd = refl }, tt);
    absent = rw file_names-append (absent-append (file_names fs) n names new g.absent.1);
  }

  Added-Growing :
      (e : Entry) (c c' : Cadre) (names : List String)
      → contains e.name names ≡ false
      → Added loader e c c'
      → Growing c.files (e.name ∷ names)
      → Growing c'.files names
  Added-Growing e c c' names new (kept same) g =
      rw same (record { distinct = g.distinct; classified = g.classified; absent = g.absent.1 })
  Added-Growing e c c' names new (grown content same) g =
      rw same (grown-Growing c.files e.name content names new g)

  load_entries-Growing :
      (path : String) (es : List Entry) (c c' : Cadre)
      → Distinct (entry_names es)
      → Growing c.files (entry_names es)
      → load_entries loader path es c ≡ ok c'
      → Growing c'.files []
  unfolding load_entries load_entry
  load_entries-Growing path [] c c' d g h = let same : c ≡ c' = cc h in rw (← same) g
  load_entries-Growing path (e ∷ es) c c' d g h =
      let (c1, e1, h1) = >>=-eq-ok (load_entry loader path e c) (load_entries loader path es) h in
      load_entries-Growing path es c1 c' d.1
        (Added-Growing e c c1 (entry_names es) d.0 (load_kind-Added e.kind path e c c1 e1) g) h1

  -- A cadre that is loaded from a directory whose entries have distinct names has a file of each name
  -- at most once, with the flags that its name asks for, and takes no reserved name.
  pub load-IsLoaded :
      (dir : Directory) (c : Cadre)
      → ((es : List Entry) → dir.entries ≡ ok es → Distinct (entry_names es))
      → load loader dir ≡ ok c
      → IsLoaded c × IsFree c
  unfolding load
  load-IsLoaded dir c names h =
      let (kind, _, h1) = >>=-eq-ok (with_context "read manifest" dir.manifest_kind) _ h in
      let (_, _, h2) = >>=-eq-ok (reject (not (is_regular kind)) _) _ h1 in
      let (text, _, h3) = >>=-eq-ok (with_context "read manifest" dir.manifest_text) _ h2 in
      let (m, _, h4) = >>=-eq-ok (load_manifest loader.decode text) _ h3 in
      let (_, _, h5) = >>=-eq-ok (validate_manifest loader.is_duration m) _ h4 in
      let (es, listed, h6) = >>=-eq-ok dir.entries _ h5 in
      let (c1, built, h7) = >>=-eq-ok (load_entries loader dir.path es _) _ h6 in
      let (_, valid, h8) = >>=-eq-ok (validate c1) _ h7 in
      let same : c1 ≡ c = cc h8 in
      let g =
        load_entries-Growing dir.path es _ c1 (names es listed)
          (record { distinct = tt; classified = tt; absent = none_absent (entry_names es) })
          built in
      rw (← same)
        (record { names = g.distinct; classified = g.classified }, validate-reserved c1 valid)
