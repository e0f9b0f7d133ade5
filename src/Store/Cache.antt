-- ===== src/Store/Cache.antt =====
-- internal/store/s3.go: what is kept of a cache when the files of the keys that left the store are dropped.
use mathlib.Core.Path.{subst}
use rucher.Base.{
  ◌≡◌, ◌∙◌, ◌==◌, ◌&&◌, ◌∷◌, refl, sym, ap, inl, inr, Bool, true, false, not, Option, none, some,
  String, List, [], arith, eq_iff, if◌then◌else◌, string_eq, nat_eq, contains, All, Bool-cases, any,
  Distinct,
}
use rucher.Store.S3.{drop_file, S3, ObjInfo, Bucket, dest_of, drop_removed, drop_object, listed}
use rucher.Store.Download.{
  is_at-true, is_at-false, not_at, IsAccurate, AreApart, AreKnown, Placed, Downloaded,
}
use rucher.Store.Entries.{
  lookup-erase, is_at, listed_keys, lookup-insert_all, lookup-insert_all_other,
}
use rucher.Base.Dict.{Dict, lookup, keys, get, has, lookup-has, lookup-not_has}
use rucher.Base.Result.{Result-cases, ok_inj, ok}

abbrev text_or : Option String → String
text_or o = elim o [ none ↦ "" | some v ↦ v ]

lookup-drop_file :
    (fails : String → Bool) (path dest : String) (files : Dict String)
    → lookup path (drop_file fails dest files)
      ≡ (if not (fails path) && (dest == path) then none else lookup path files)
unfolding drop_file
lookup-drop_file fails path dest files = elim (Bool-cases (dest == path)) [
  | inl here ↦
      rw ((eq_iff dest path).0 here)
        (ground (arith, lookup-erase path path files, eq_iff path path))
  | inr other ↦ ground (arith, lookup-erase dest path files, other)
]

module _ (s : S3) (b : Bucket) (content : String → String → String) (known : List String)
    (apart : AreApart s b content known) where
  lookup-drop_object :
      (path k : String) (next files : Dict String)
      → lookup path (drop_object b.remove_fails s k next files) ≡ (
          if not (has k next) && (not (b.remove_fails path) && is_at s path k)
          then none
          else lookup path files)
  unfolding drop_object
  lookup-drop_object path k next files = elim (Bool-cases (has k next)) [
    | inl kept ↦ rw kept refl
    | inr gone ↦ elim (Result-cases (dest_of s k)) [
      | inl (e, bad) ↦
          rw (is_at-false s b content path k e bad) (rw gone (rw (bad, drop_object) (ground arith)))
      | inr (d, at) ↦
          rw (is_at-true s b content path k d at)
            (rw gone (rw (at, drop_object) (lookup-drop_file b.remove_fails path d files)))
    ]
  ]

  -- whether a key that left the store is kept at a path that can be removed
  abbrev is_dropped : String → Dict String → String → Bool
  is_dropped path next k = not (has k next) && (not (b.remove_fails path) && is_at s path k)

  -- what the loop keeps
  lookup-drop_removed :
      (path : String) (old : List String) (next files : Dict String)
      → lookup path (drop_removed s b old next files)
        ≡ (if any (is_dropped path next) old then none else lookup path files)
  unfolding drop_removed
  lookup-drop_removed path [] next files = refl
  lookup-drop_removed path (k ∷ old) next files =
      lookup-drop_removed path old next (drop_object b.remove_fails s k next files)
      ∙ ground (arith, lookup-drop_object path k next files)

  -- The path of a key that is recorded is not dropped.
  not_dropped :
      (key d : String) (old : List String) (next : Dict String)
      → contains key known ≡ true
      → All (λ k. contains k known ≡ true) old
      → dest_of s key ≡ ok d
      → has key next ≡ true
      → any (is_dropped d next) old ≡ false
  not_dropped key d [] next kk ks at kept = refl
  not_dropped key d (k ∷ old) next kk ks at kept = elim (Bool-cases (k == key)) [
    | inl same ↦ ground (arith, not_dropped key d old next kk ks.1 at kept, eq_iff k key, kept)
    | inr other ↦ ground (
      arith,
      not_dropped key d old next kk ks.1 at kept,
      not_at s b content known apart key k d kk ks.0 at other,
    )
  ]

  -- a key that is kept at the path and left the store
  any-is_dropped :
      (path k : String) (old : List String) (next : Dict String)
      → b.remove_fails path ≡ false
      → contains k old ≡ true
      → is_at s path k ≡ true
      → has k next ≡ false
      → any (is_dropped path next) old ≡ true
  any-is_dropped path k [] next removes c at gone = cc
  any-is_dropped path k (j ∷ old) next removes c at gone =
      ground (arith, eq_iff j k, any-is_dropped path k old next, removes, c, at, gone)

  -- what the state says of the cache: its files, where a removal does not fail, are those of the recorded
  -- keys, and the files of these have the recorded contents
  pub record IsCache (objects files : Dict String) : Type 0 where
    pub accurate : (key : String) → IsAccurate s b content objects files key
    pub owned :
        (path v : String)
        → b.remove_fails path ≡ false
        → lookup path files ≡ some v
        → (k : String) × (contains k (keys objects) ≡ true) × (is_at s path k ≡ true)

  -- the listed objects are in the cache, and each of its files is one of them or cannot be removed
  abbrev pub Mirrors : List ObjInfo → Dict String → Type 0
  Mirrors objects files =
      All (Placed s b content files) objects
      × ((path v : String)
          → b.remove_fails path ≡ false
          → lookup path files ≡ some v
          → any (λ o. is_at s path o.key) objects ≡ true)

  abbrev Recorded : Dict String → ObjInfo → Type 0
  Recorded next o = lookup o.key next ≡ some o.etag

  has-listed :
      (k : String) (os : List ObjInfo) (next : Dict String)
      → All (Recorded next) os
      → contains k (listed_keys os) ≡ true
      → has k next ≡ true
  has-listed k [] next r c = cc
  has-listed k (o ∷ os) next r c = elim (Bool-cases (o.key == k)) [
    | inl same ↦ rw (← (eq_iff o.key k).0 same) (lookup-has o.key next r.0)
    | inr other ↦ has-listed k os next r.1 (ground (arith, c, other))
  ]

  any-is_at :
      (path k : String) (os : List ObjInfo)
      → contains k (listed_keys os) ≡ true
      → is_at s path k ≡ true
      → any (λ o. is_at s path o.key) os ≡ true
  any-is_at path k [] c at = cc
  any-is_at path k (o ∷ os) c at = elim (Bool-cases (o.key == k)) [
    | inl same ↦ rw ((eq_iff o.key k).0 same) (rw at refl)
    | inr other ↦ ground (arith, any-is_at path k os (ground (arith, c, other)) at)
  ]

  listed_at :
      (path : String) (os : List ObjInfo)
      → any (λ o. is_at s path o.key) os ≡ true
      → (k : String) × (contains k (listed_keys os) ≡ true) × (is_at s path k ≡ true)
  listed_at path [] h = absurd (cc)
  listed_at path (o ∷ os) h = elim (Bool-cases (is_at s path o.key)) [
    | inl here ↦ (o.key, ground (arith, eq_iff o.key o.key), here)
    | inr other ↦
        let (k, c, at) = listed_at path os (ground (arith, h, other)) in (k, ground (arith, c), at)
  ]

  content_here :
      (o : ObjInfo) (d v : String) (next files : Dict String)
      → Recorded next o
      → Placed s b content files o
      → lookup d files ≡ some v
      → dest_of s o.key ≡ ok d
      → v ≡ content o.key (get next o.key)
  content_here o d v next files r p found at =
      let same : d ≡ p.0 = ok_inj d p.0 (sym at ∙ p.1) in
      let whole : some v ≡ some (content o.key o.etag) =
        sym found ∙ ap (λ x. lookup x files) same ∙ p.2 in
      let etag : get next o.key ≡ o.etag = ap text_or r in
      ap text_or whole ∙ ap (content o.key) (sym etag)

  -- the content of a listed key is the one that is recorded
  content_found :
      (key d v : String) (os : List ObjInfo) (next files : Dict String)
      → All (Recorded next) os
      → All (Placed s b content files) os
      → contains key (listed_keys os) ≡ true
      → dest_of s key ≡ ok d
      → lookup d files ≡ some v
      → v ≡ content key (get next key)
  content_found key d v [] next files r p c at found = cc
  content_found key d v (o ∷ os) next files r p c at found = elim (Bool-cases (o.key == key)) [
    | inl same ↦
        subst (λ k. dest_of s k ≡ ok d → v ≡ content k (get next k)) ((eq_iff o.key key).0 same)
          (content_here o d v next files r.0 p.0 found) at
    | inr other ↦ content_found key d v os next files r.1 p.1 (ground (arith, c, other)) at found
  ]

  module _ (old files : Dict String) (objects : List ObjInfo) (next after : Dict String)
      (ko : AreKnown s b content known apart objects)
      (ks : All (λ k. contains k known ≡ true) (keys old))
      (distinct : Distinct (listed_keys objects)) (cache : IsCache old files)
      (down : Downloaded s b content objects [] files next after) where
    abbrev kept : Dict String
    kept = drop_removed s b (keys old) next after

    recorded : All (Recorded next) objects
    recorded = rw down.0 (lookup-insert_all objects [] distinct)

    each_kept :
        (os : List ObjInfo)
        → All (Placed s b content after) os
        → All (Recorded next) os
        → AreKnown s b content known apart os
        → All (Placed s b content kept) os
    each_kept [] p r k = tt
    each_kept (o ∷ os) p r k = (
      (
        p.0.0,
        p.0.1,
        lookup-drop_removed p.0.0 (keys old) next after
            ∙ rw (not_dropped o.key p.0.0 (keys old) next k.0 ks p.0.1 (lookup-has o.key next r.0))
                p.0.2,
      ),
      each_kept os p.1 r.1 k.1,
    )

    kept-Placed : All (Placed s b content kept) objects
    kept-Placed = each_kept objects down.1 recorded ko

    not_listed : (k : String) → contains k (listed_keys objects) ≡ false → lookup k next ≡ none
    not_listed k c = rw down.0 (lookup-insert_all_other k objects [] c)

    kept_found :
        (path v : String)
        → lookup path kept ≡ some v
        → (any (is_dropped path next) (keys old) ≡ false) × (lookup path after ≡ some v)
    kept_found path v found = elim (Bool-cases (any (is_dropped path next) (keys old))) [
      | inl gone ↦ ground (arith, found, lookup-drop_removed path (keys old) next after)
      | inr there ↦
          (there, sym (lookup-drop_removed path (keys old) next after ∙ rw there refl) ∙ found)
    ]

    -- the key that was at a path is listed, or its file is dropped
    listed_still :
        (path k : String)
        → b.remove_fails path ≡ false
        → contains k (keys old) ≡ true
        → is_at s path k ≡ true
        → any (is_dropped path next) (keys old) ≡ false
        → any (λ o. is_at s path o.key) objects ≡ true
    listed_still path k removes c at there = elim (Bool-cases (contains k (listed_keys objects))) [
      | inl listed ↦ any-is_at path k objects listed at
      | inr gone ↦
          let dropped =
            any-is_dropped path k (keys old) next removes c at
              (lookup-not_has k next (not_listed k gone)) in
          ground (arith, dropped, there)
    ]

    kept_origin :
        (path v : String)
        → b.remove_fails path ≡ false
        → lookup path kept ≡ some v
        → any (λ o. is_at s path o.key) objects ≡ true
    kept_origin path v removes found = elim (Bool-cases (any (λ o. is_at s path o.key) objects)) [
      | inl listed ↦ listed
      | inr free ↦
          let (there, before) = kept_found path v found in
          let (k, c, at) = cache.owned path v removes (sym (down.2 path free) ∙ before) in
          listed_still path k removes c at there
    ]

    pub kept-IsCache : IsCache next kept
    kept-IsCache = record {
      accurate = λ key d v at found full. elim (Bool-cases (contains key (listed_keys objects))) [
        | inl listed ↦ content_found key d v objects next kept recorded kept-Placed listed at found
        | inr gone ↦
            let empty : get next key ≡ "" = ap text_or (not_listed key gone) in
            ground (arith, full, (eq_iff (get next key) "").1 empty)
      ];
      owned = λ path v removes found.
          let (k, c, at) = listed_at path objects (kept_origin path v removes found) in
          (k, has-listed k objects next recorded c, at);
    }

    pub kept-Mirrors : Mirrors objects kept
    kept-Mirrors = (kept-Placed, kept_origin)
