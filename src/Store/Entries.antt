-- ===== src/Store/Entries.antt =====
-- internal/store/s3.go: the paths of the listed objects, and the keys and ETags that a sync records.
use rucher.Base.{
  ◌≡◌, ◌∙◌, ◌==◌, ◌∷◌, refl, Bool, false, none, some, String, List, [], map, arith, eq_iff,
  if◌then◌else◌, string_eq, nat_eq, contains, All, Distinct,
}
use rucher.Store.S3.{S3, ObjInfo, dest_of, erase}
use rucher.Base.Dict.{Dict, lookup, insert, lookup-insert}
use rucher.Base.Result.{ok, err}

pub lookup-erase :
    (k j : String) (m : Dict String) → lookup j (erase k m) ≡ (if k == j then none else lookup j m)
unfolding erase
lookup-erase k j [] = ground arith
lookup-erase k j ((i, v) ∷ m) =
    ground (arith, lookup-erase k j m, eq_iff i k, eq_iff i j, eq_iff k j)

-- whether the object of a key is kept at a path
unfoldable pub is_at : S3 → String → String → Bool
is_at s path key = elim (dest_of s key) [ err e ↦ false | ok d ↦ d == path ]

abbrev pub listed_keys : List ObjInfo → List String
listed_keys = map (λ o. o.key)

-- the keys and ETags that the loop records
unfoldable pub insert_all : List ObjInfo → Dict String → Dict String
insert_all [] next = next
insert_all (o ∷ os) next = insert_all os (insert o.key o.etag next)

pub lookup-insert_all_other :
    (k : String) (os : List ObjInfo) (next : Dict String)
    → contains k (listed_keys os) ≡ false
    → lookup k (insert_all os next) ≡ lookup k next
unfolding insert_all
lookup-insert_all_other k [] next h = refl
lookup-insert_all_other k (o ∷ os) next h =
    lookup-insert_all_other k os (insert o.key o.etag next) (ground (arith, h))
    ∙ lookup-insert o.key k o.etag next
    ∙ ground (arith, h)

pub lookup-insert_all :
    (os : List ObjInfo) (next : Dict String)
    → Distinct (listed_keys os)
    → All (λ o. lookup o.key (insert_all os next) ≡ some o.etag) os
unfolding insert_all
lookup-insert_all [] next d = tt
lookup-insert_all (o ∷ os) next d = (
  lookup-insert_all_other o.key os (insert o.key o.etag next) d.0
      ∙ lookup-insert o.key o.key o.etag next
      ∙ ground (arith, eq_iff o.key o.key),
  lookup-insert_all os (insert o.key o.etag next) d.1,
)
