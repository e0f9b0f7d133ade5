-- ===== src/Store/Download.antt =====
-- internal/store/s3.go: what the download loop of a sync leaves in the cache.
use rucher.Base.{
  ◌≡◌, ◌∙◌, ◌==◌, ◌&&◌, ◌∷◌, refl, sym, ap, inl, inr, true, false, some, String, List, [], arith,
  eq_iff, string_eq, nat_eq, contains, All, Bool-cases, Option-cases, any, Distinct,
}
use rucher.Store.Entries.{is_at, listed_keys, insert_all}
use rucher.Store.S3.{S3, ObjInfo, Bucket, dest_of, fetch_object, place, continue_with, download}
use rucher.Base.Dict.{Dict, lookup, insert, get, lookup-insert}
use rucher.Base.Text.{is_some}
use rucher.Base.Result.{Result-cases, ok_inj, Result, ok, err}

module _ (s : S3) (b : Bucket) (content : String → String → String) where
  -- The object of a key, if it can be fetched, is the content of its ETag, which is not empty.
  abbrev pub Serves : ObjInfo → Type 0
  Serves o =
      ((o.etag == "") ≡ false)
      × ((text : String) → b.object o.key ≡ ok text → text ≡ content o.key o.etag)

  -- the file of a key has the content of an ETag
  abbrev pub Holds : Dict String → String → String → Type 0
  Holds files key etag =
      (d : String) → dest_of s key ≡ ok d → lookup d files ≡ some (content key etag)

  -- the file of a key that was recorded, if it is there, has the content of its ETag
  abbrev pub IsAccurate : Dict String → Dict String → String → Type 0
  IsAccurate prev files key =
      (d v : String)
      → dest_of s key ≡ ok d
      → lookup d files ≡ some v
      → (get prev key == "") ≡ false
      → v ≡ content key (get prev key)

  place-Holds :
      (o : ObjInfo) (d : String) (files after : Dict String) (r : Result String)
      → b.object o.key ≡ r
      → Serves o
      → place o.key d files r ≡ (ok tt, after)
      → (lookup d after ≡ some (content o.key o.etag))
        × ((path : String) → (d == path) ≡ false → lookup path after ≡ lookup path files)
  unfolding place
  place-Holds o d files after (err e) got serves h = cc
  place-Holds o d files after (ok text) got serves h =
      let same : insert d text files ≡ after = ap (λ r. r.1) h in
      (
        rw (← same)
            (lookup-insert d d text files ∙ rw ((eq_iff d d).1 refl) (ap some (serves.1 text got))),
        λ path other. rw (← same) (lookup-insert d path text files ∙ rw other refl),
      )

  kept-Holds :
      (prev : Dict String) (o : ObjInfo) (d : String) (files : Dict String)
      → Serves o
      → dest_of s o.key ≡ ok d
      → IsAccurate prev files o.key
      → (get prev o.key == o.etag && is_some (lookup d files)) ≡ true
      → lookup d files ≡ some (content o.key o.etag)
  kept-Holds prev o d files serves at accurate kept = elim (Option-cases (lookup d files)) [
    | inl missing ↦ ground (arith, kept, ap is_some missing)
    | inr (v, found) ↦
        let same : get prev o.key ≡ o.etag =
          (eq_iff (get prev o.key) o.etag).0 (ground (arith, kept)) in
        found ∙ ap some (accurate d v at found (rw same serves.0) ∙ ap (content o.key) same)
  ]

  fetch_object-Holds :
      (prev : Dict String) (o : ObjInfo) (d : String) (files after : Dict String)
      → Serves o
      → dest_of s o.key ≡ ok d
      → IsAccurate prev files o.key
      → fetch_object s b prev o d files ≡ (ok tt, after)
      → (lookup d after ≡ some (content o.key o.etag))
        × ((path : String) → (d == path) ≡ false → lookup path after ≡ lookup path files)
  unfolding fetch_object
  fetch_object-Holds prev o d files after serves at accurate h =
      elim (Bool-cases (get prev o.key == o.etag && is_some (lookup d files))) [
        | inl kept ↦
            let same : files ≡ after = ap (λ r. r.1) (rw kept at h) in
            (
              rw (← same) (kept-Holds prev o d files serves at accurate kept),
              λ path other. rw (← same) refl,
            )
        | inr fetched ↦ place-Holds o d files after (b.object o.key) refl serves (rw fetched at h)
      ]

  -- Different keys have different paths.
  abbrev pub Apart : String → String → Type 0
  Apart k j = (d : String) → dest_of s k ≡ ok d → dest_of s j ≡ ok d → k ≡ j

  -- the path of no listed object
  abbrev pub IsFree : List ObjInfo → String → Type 0
  IsFree os path = any (λ o. is_at s path o.key) os ≡ false

  pub is_at-false : (path key e : String) → dest_of s key ≡ err e → is_at s path key ≡ false
  unfolding is_at
  is_at-false path key e bad = rw (bad, is_at) refl

  pub is_at-true : (path key d : String) → dest_of s key ≡ ok d → is_at s path key ≡ (d == path)
  unfolding is_at
  is_at-true path key d e = rw (e, is_at) refl

  continue_with-ok :
      (r : Result (Unit {0}) × Dict String) (f : Dict String → Result (Dict String) × Dict String)
      (all_next after : Dict String)
      → continue_with r f ≡ (ok all_next, after)
      → (files : Dict String) × (r ≡ (ok tt, files)) × (f files ≡ (ok all_next, after))
  continue_with-ok (err e, files) f all_next after h = cc
  continue_with-ok (ok tt, files) f all_next after h = (files, refl, h)

  abbrev pub Placed : Dict String → ObjInfo → Type 0
  Placed after o =
      (d : String) × (dest_of s o.key ≡ ok d) × (lookup d after ≡ some (content o.key o.etag))

  -- what the loop does when it ends
  abbrev pub Downloaded :
      List ObjInfo → Dict String → Dict String → Dict String → Dict String → Type 0
  Downloaded os next files all_next after =
      (all_next ≡ insert_all os next)
      × All (Placed after) os
      × ((path : String) → IsFree os path → lookup path after ≡ lookup path files)

  -- Of the keys that matter, different ones have different paths.
  abbrev pub AreApart : List String → Type 0
  AreApart known = (k j : String) → contains k known ≡ true → contains j known ≡ true → Apart k j

  module _ (known : List String) (apart : AreApart known) where
    abbrev pub AreKnown : List ObjInfo → Type 0
    AreKnown = All (λ o. contains o.key known ≡ true)

    pub not_at :
        (key j d : String)
        → contains key known ≡ true
        → contains j known ≡ true
        → dest_of s key ≡ ok d
        → (j == key) ≡ false
        → is_at s d j ≡ false
    not_at key j d kk kj at other = elim (Result-cases (dest_of s j)) [
      | inl (e, bad) ↦ is_at-false d j e bad
      | inr (i, found) ↦ elim (Bool-cases (i == d)) [
        | inl same ↦
            let equal : j ≡ key = apart j key kj kk i found (rw ((eq_iff i d).0 same) at) in
            ground (arith, other, eq_iff j key)
        | inr differs ↦ is_at-true d j i found ∙ differs
      ]
    ]

    -- the path of a key is free of the objects of other keys
    pub dest-IsFree :
        (key d : String) (os : List ObjInfo)
        → contains key known ≡ true
        → AreKnown os
        → dest_of s key ≡ ok d
        → contains key (listed_keys os) ≡ false
        → IsFree os d
    dest-IsFree key d [] kk ks at absent = refl
    dest-IsFree key d (o ∷ os) kk ks at absent =
        rw (not_at key o.key d kk ks.0 at (ground (arith, absent)))
          (dest-IsFree key d os kk ks.1 at (ground (arith, absent)))

    -- a write to the path of another key keeps what is known of the files
    All-IsAccurate :
        (prev files fs : Dict String) (key d : String) (os : List ObjInfo)
        → contains key known ≡ true
        → AreKnown os
        → dest_of s key ≡ ok d
        → contains key (listed_keys os) ≡ false
        → ((path : String) → (d == path) ≡ false → lookup path fs ≡ lookup path files)
        → All (λ o. IsAccurate prev files o.key) os
        → All (λ o. IsAccurate prev fs o.key) os
    All-IsAccurate prev files fs key d [] kk ks at absent frame h = tt
    All-IsAccurate prev files fs key d (o ∷ os) kk ks at absent frame h = (
      λ i v there found full.
          h.0 i v there
            (sym (
                frame i (
                  sym (is_at-true i key d at)
                  ∙ not_at o.key key i ks.0 kk there
                      (ground (arith, absent, eq_iff o.key key, eq_iff key o.key))))
              ∙ found)
            full,
      All-IsAccurate prev files fs key d os kk ks.1 at (ground (arith, absent)) frame h.1,
    )

    download-nil :
        (prev next files : Dict String) → download s b prev [] next files ≡ (ok next, files)
    unfolding download
    download-nil prev next files = refl

    download-step :
        (prev : Dict String) (o : ObjInfo) (os : List ObjInfo) (next files : Dict String)
        (d : String)
        → dest_of s o.key ≡ ok d
        → download s b prev (o ∷ os) next files
          ≡ continue_with
              (fetch_object s b prev o d files)
              (λ fs. download s b prev os (insert o.key o.etag next) fs)
    unfolding download
    download-step prev o os next files d at = rw (at, download) refl

    download_bad :
        (prev : Dict String) (o : ObjInfo) (os : List ObjInfo)
        (next files all_next after : Dict String) (e : String)
        → dest_of s o.key ≡ err e
        → download s b prev (o ∷ os) next files ≡ (ok all_next, after)
        → ⊥
    unfolding download
    download_bad prev o os next files all_next after e bad h =
        let stopped : download s b prev (o ∷ os) next files ≡ (err e, files) =
          rw (bad, download) refl in
        cc

    pub download-Downloaded :
        (prev : Dict String) (os : List ObjInfo) (next files all_next after : Dict String)
        → AreKnown os
        → All Serves os
        → Distinct (listed_keys os)
        → All (λ o. IsAccurate prev files o.key) os
        → download s b prev os next files ≡ (ok all_next, after)
        → Downloaded os next files all_next after
    unfolding insert_all
    download-Downloaded prev [] next files all_next after ks serves distinct accurate h =
        let done = sym (download-nil prev next files) ∙ h in
        (
          sym (ok_inj next all_next (ap (λ r. r.0) done)),
          tt,
          λ path free. ap (λ (r : Result (Dict String) × Dict String). lookup path r.1) (sym done),
        )
    download-Downloaded prev (o ∷ os) next files all_next after ks serves distinct accurate h =
        elim (Result-cases (dest_of s o.key)) [
          | inl (e, bad) ↦ absurd (download_bad prev o os next files all_next after e bad h)
          | inr (d, at) ↦
              let (fs, fetched, rest) =
                continue_with-ok (fetch_object s b prev o d files)
                  (λ fs. download s b prev os (insert o.key o.etag next) fs) all_next after
                  (sym (download-step prev o os next files d at) ∙ h) in
              let (here, frame) =
                fetch_object-Holds prev o d files fs serves.0 at accurate.0 fetched in
              let (same, placed, frames) =
                download-Downloaded prev os (insert o.key o.etag next) fs all_next after ks.1
                  serves.1 distinct.1
                  (All-IsAccurate prev files fs o.key d os ks.0 ks.1 at distinct.0 frame accurate.1)
                  rest in
              (
                same,
                ((d, at, frames d (dest-IsFree o.key d os ks.0 ks.1 at distinct.0) ∙ here), placed),
                λ path free.
                    frames path (ground (arith, free))
                    ∙ frame path (sym (is_at-true path o.key d at) ∙ ground (arith, free)),
              )
        ]
