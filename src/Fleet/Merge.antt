-- ===== src/Fleet/Merge.antt =====
-- `deepMerge` of internal/nodecfg/nodecfg.go over decoded YAML documents: a value is a map or anything else.
use mathlib.Core.Path.{subst}
use rucher.Base.{
  ◌≡◌, ◌∙◌, ◌==◌, ◌||◌, ◌∷◌, refl, inl, inr, Bool, false, Option, none, some, String, List, [],
  arith, eq_iff, if◌then◌else◌, string_eq, nat_eq, Bool-cases,
}

mutual
  pub data Value : Type 0 where
    leaf : String → Value
    mapping : Entries → Value

  -- a Go map with string keys
  pub data Entries : Type 0 where
    nil : Entries
    entry : String → Value → Entries → Entries

abbrev pub get : String → Entries → Option Value
get k nil = none
get k (entry j v m) = if j == k then some v else get k m

-- out[k] = v
abbrev pub set : String → Value → Entries → Entries
set k v nil = entry k v nil
set k v (entry j w m) = if j == k then entry k v m else entry j w (set k v m)

-- the loop over the entries of `over`, and the choice between a merge and a replacement
unfoldable mutual
  pub merge : Entries → Entries → Entries
  merge out nil = out
  merge out (entry k v over) = merge (set k (merge_value (get k out) v) out) over

  pub merge_value : Option Value → Value → Value
  merge_value none v = v
  merge_value (some base) (leaf v) = leaf v
  merge_value (some (leaf w)) (mapping over) = mapping over
  merge_value (some (mapping base)) (mapping over) = mapping (merge base over)

-- no key twice
abbrev pub is_key : String → Entries → Bool
is_key k nil = false
is_key k (entry j v m) = j == k || is_key k m

unfoldable mutual
  pub IsMap : Entries → Type 0
  IsMap nil = Unit
  IsMap (entry k v m) = (is_key k m ≡ false) × IsValue v × IsMap m

  pub IsValue : Value → Type 0
  IsValue (leaf s) = Unit
  IsValue (mapping m) = IsMap m

-- the value at a path of keys
abbrev pub find : List String → Value → Option Value
find [] v = some v
find (k ∷ path) (leaf s) = none
find (k ∷ path) (mapping m) = elim (get k m) [ none ↦ none | some v ↦ find path v ]

abbrev pub find_in : List String → Option Value → Option Value
find_in path none = none
find_in path (some v) = find path v

-- how far a document goes along a path: to a value, to something that is not a map, or to a missing key
pub data Followed : Type 0 where
  found : Value → Followed
  blocked : Followed
  absent : Followed

abbrev pub follow : List String → Value → Followed
follow [] v = found v
follow (k ∷ path) (leaf s) = blocked
follow (k ∷ path) (mapping m) = elim (get k m) [ none ↦ absent | some v ↦ follow path v ]

-- What a merged document holds at a path, from what the base and the document over it hold there: what is
-- under a map that both have is said by the longer paths.
abbrev pub Overrides : Followed → Option Value → Option Value → Type 0
Overrides (found (leaf s)) base merged = merged ≡ some (leaf s)
Overrides (found (mapping over)) none merged = merged ≡ some (mapping over)
Overrides (found (mapping over)) (some (leaf w)) merged = merged ≡ some (mapping over)
Overrides (found (mapping over)) (some (mapping base)) merged =
    (out : Entries) × (merged ≡ some (mapping out))
Overrides blocked base merged = merged ≡ none
Overrides absent base merged = merged ≡ base

get-set :
    (k j : String) (v : Value) (m : Entries)
    → get k (set j v m) ≡ (if j == k then some v else get k m)
get-set k j v nil = refl
get-set k j v (entry i w m) = ground (arith, get-set k j v m, eq_iff i j, eq_iff i k, eq_iff j k)

get_absent : (k : String) (m : Entries) → is_key k m ≡ false → get k m ≡ none
get_absent k nil h = refl
get_absent k (entry j v m) h = ground (arith, get_absent k m)

abbrev override : Option Value → Option Value → Option Value
override base none = base
override base (some v) = some (merge_value base v)

get-merge :
    (k : String) (base over : Entries)
    → IsMap over
    → get k (merge base over) ≡ override (get k base) (get k over)
unfolding merge IsMap
get-merge k base nil h = refl
get-merge k base (entry j v over) h =
    get-merge k (set j (merge_value (get j base) v) base) over h.2 ∙ elim (Bool-cases (j == k)) [
      | inl e ↦
          let same : j ≡ k = (eq_iff j k).0 e in
          let gone : get k over ≡ none = rw (← same) (get_absent j over h.0) in
          rw (gone, get-set k j (merge_value (get j base) v) base, e, same) refl
      | inr e ↦ rw (get-set k j (merge_value (get j base) v) base, e) refl
    ]

IsMap-get : (k : String) (m : Entries) (v : Value) → IsMap m → get k m ≡ some v → IsValue v
unfolding IsMap
IsMap-get k nil v h e = absurd (cc e)
IsMap-get k (entry j w m) v h e = elim (Bool-cases (j == k)) [
  | inl same ↦ subst IsValue (let f : some w ≡ some v = rw same at e in cc f) h.1
  | inr other ↦ IsMap-get k m v h.2 (rw other at e)
]

-- a step along a path, when the document over the base has the key or has it not
find-step :
    (path : List String) (r : Option Value) (base : Option Value)
    → ((v : Value)
        → r ≡ some v
        → Overrides (follow path v) (find_in path base) (find path (merge_value base v)))
    → Overrides
        (elim r [ none ↦ absent | some v ↦ follow path v ])
        (find_in path base)
        (elim (override base r) [ none ↦ none | some v ↦ find path v ])
find-step path none none h = refl
find-step path none (some b) h = refl
find-step path (some v) base h = h v refl

override-none : (r : Option Value) → override none r ≡ r
unfolding merge_value
override-none none = refl
override-none (some v) = refl

find_in-elim :
    (path : List String) (r : Option Value)
    → find_in path r ≡ elim r [ none ↦ none | some v ↦ find path v ]
find_in-elim path none = refl
find_in-elim path (some v) = refl

-- A merged document holds at every path what the document over the base says: a map where both have a map,
-- with what is at the longer paths; its own value in place of the base's otherwise; nothing where it has
-- something that is no map on the way; and the base's value where it has no such key. The document over the
-- base has no key twice.
pub find-merge_value :
    (path : List String) (base : Option Value) (v : Value)
    → IsValue v
    → Overrides (follow path v) (find_in path base) (find path (merge_value base v))
unfolding merge_value IsMap
find-merge_value [] none (leaf s) h = refl
find-merge_value [] (some (leaf w)) (leaf s) h = refl
find-merge_value [] (some (mapping base)) (leaf s) h = refl
find-merge_value [] none (mapping over) h = refl
find-merge_value [] (some (leaf w)) (mapping over) h = refl
find-merge_value [] (some (mapping base)) (mapping over) h = (merge base over, refl)
find-merge_value (k ∷ path) none (leaf s) h = refl
find-merge_value (k ∷ path) (some (leaf w)) (leaf s) h = refl
find-merge_value (k ∷ path) (some (mapping base)) (leaf s) h = refl
find-merge_value (k ∷ path) none (mapping over) h =
    subst
      (λ r.
        Overrides (follow (k ∷ path) (mapping over)) none
          (elim r [ none ↦ none | some v ↦ find path v ]))
      (override-none (get k over))
      (find-step path (get k over) none
        (λ v e. find-merge_value path none v (IsMap-get k over v h e)))
find-merge_value (k ∷ path) (some (leaf w)) (mapping over) h =
    subst
      (λ r.
        Overrides (follow (k ∷ path) (mapping over)) none
          (elim r [ none ↦ none | some v ↦ find path v ]))
      (override-none (get k over))
      (find-step path (get k over) none
        (λ v e. find-merge_value path none v (IsMap-get k over v h e)))
find-merge_value (k ∷ path) (some (mapping base)) (mapping over) h =
    rw (get-merge k base over h, ← find_in-elim path (get k base))
      (find-step path (get k over) (get k base)
        (λ v e. find-merge_value path (get k base) v (IsMap-get k over v h e)))
