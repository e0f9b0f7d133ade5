-- ===== src/Plan/Desired.antt =====
-- The map of the desired files.
use rucher.Base.{false, ◌≡◌, refl, String, List, [], ◌∷◌, some, arith, eq_iff}
use rucher.Base.{string_eq, contains, All, Distinct}
use rucher.Base.Dict.{Dict, lookup, insert, keys, lookup-insert, keys-insert-Distinct}
use rucher.Cadre.{File, file_names}
use rucher.Plan.{desired_from}

pub lookup-desired_from_absent :
    (n : String) (d : Dict File) (fs : List File)
    → contains n (file_names fs) ≡ false
    → lookup n (desired_from d fs) ≡ lookup n d
unfolding desired_from
lookup-desired_from_absent n d [] h = refl
lookup-desired_from_absent n d (f ∷ fs) h =
    ground (arith, lookup-desired_from_absent n (insert f.name f d) fs, lookup-insert f.name n f d)

-- With distinct names every file is found under its name.
pub All-lookup-desired_from :
    (d : Dict File) (fs : List File)
    → Distinct (file_names fs)
    → All (λ f. lookup f.name (desired_from d fs) ≡ some f) fs
unfolding desired_from
All-lookup-desired_from d [] h = tt
All-lookup-desired_from d (f ∷ fs) h = (
  ground (
    arith,
    lookup-desired_from_absent f.name (insert f.name f d) fs,
    eq_iff f.name f.name,
    lookup-insert f.name f.name f d,
  ),
  All-lookup-desired_from (insert f.name f d) fs h.1,
)

pub keys-desired_from-Distinct :
    (d : Dict File) (fs : List File) → Distinct (keys d) → Distinct (keys (desired_from d fs))
unfolding desired_from
keys-desired_from-Distinct d [] h = h
keys-desired_from-Distinct d (f ∷ fs) h =
    keys-desired_from-Distinct (insert f.name f d) fs (keys-insert-Distinct f.name f d h)
