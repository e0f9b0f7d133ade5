-- ===== src/Base/Dict.antt =====
-- A Go map with string keys: its entries in the order of one iteration. A missing key reads as the
-- zero value; `insert` keeps every key once.
use Prim.Native.String.{String}
use mathlib.Core.Path.{◌≡◌, refl}
use mathlib.Core.Bool.{true, Bool, false, ◌||◌}
use mathlib.Core.Option.{Option, none, some}
use mathlib.Core.List.{List, [], ◌∷◌}
use native.Mathlib.Omega.{arith}
use text.Mathlib.TextEquality.{eq_iff}
use rucher.Base.Tests.{◌==◌, string_eq, if◌then◌else◌}
use rucher.Base.Lists.{contains, Distinct, All}

abbrev pub Dict {ℓ} : Type ℓ → Type ℓ
Dict V = List (String × V)

module _ {ℓ} {V : Type ℓ} where
  -- v, ok := m[k]
  abbrev pub lookup : String → Dict V → Option V
  lookup k [] = none
  lookup k ((j, v) ∷ m) = if j == k then some v else lookup k m

  -- m[k] = v
  abbrev pub insert : String → V → Dict V → Dict V
  insert k v [] = (k, v) ∷ []
  insert k v ((j, w) ∷ m) = if j == k then (k, v) ∷ m else (j, w) ∷ insert k v m

  abbrev pub keys : Dict V → List String
  keys [] = []
  keys ((k, v) ∷ m) = k ∷ keys m

  abbrev pub has : String → Dict V → Bool
  has k m = contains k (keys m)

  pub lookup-insert :
      (k j : String) (v : V) (m : Dict V)
      → lookup j (insert k v m) ≡ (if k == j then some v else lookup j m)
  lookup-insert k j v [] = refl
  lookup-insert k j v ((i, w) ∷ m) =
      ground (arith, eq_iff k j, eq_iff i k, eq_iff i j, lookup-insert k j v m)

  pub contains-keys-insert :
      (k j : String) (v : V) (m : Dict V)
      → contains j (keys (insert k v m)) ≡ (k == j || contains j (keys m))
  contains-keys-insert k j v [] = refl
  contains-keys-insert k j v ((i, w) ∷ m) =
      ground (arith, eq_iff k j, eq_iff i k, eq_iff i j, contains-keys-insert k j v m)

  pub keys-insert-Distinct :
      (k : String) (v : V) (m : Dict V) → Distinct (keys m) → Distinct (keys (insert k v m))
  keys-insert-Distinct k v [] d = ground arith
  keys-insert-Distinct k v ((i, w) ∷ m) d =
      ground (
        arith,
        eq_iff i k,
        eq_iff k i,
        contains-keys-insert k i v m,
        keys-insert-Distinct k v m d.1,
      )

  pub lookup_absent : (k : String) (m : Dict V) → contains k (keys m) ≡ false → lookup k m ≡ none
  lookup_absent k [] h = refl
  lookup_absent k ((j, v) ∷ m) h = ground (arith, lookup_absent k m)

module _ {ℓ} {V : Type ℓ} where
  -- a key that is found is a key
  pub lookup-has : (k : String) (m : Dict V) {v : V} → lookup k m ≡ some v → has k m ≡ true
  lookup-has k [] h = ground arith
  lookup-has k ((j, w) ∷ m) {v} h = ground (arith, lookup-has k m {v = v})

  -- a key that is not found is none
  pub lookup-not_has : (k : String) (m : Dict V) → lookup k m ≡ none → has k m ≡ false
  lookup-not_has k [] h = refl
  lookup-not_has k ((j, w) ∷ m) h = ground (arith, lookup-not_has k m)

  -- In a map with distinct keys every entry is found under its key.
  pub All-lookup :
      (m big : Dict V)
      → Distinct (keys m)
      → ((k : String) → contains k (keys m) ≡ true → lookup k big ≡ lookup k m)
      → All (λ (e : String × V). lookup e.0 big ≡ some e.1) m
  All-lookup [] big d h = tt
  All-lookup ((k, v) ∷ m) big d h = (
    ground (arith, h k, eq_iff k k),
    All-lookup m big d.1 (λ j c. ground (arith, h j, eq_iff k j)),
  )

-- m[k], with the zero value "" of a missing key
abbrev pub get : Dict String → String → String
get m k = elim (lookup k m) [ none ↦ "" | some v ↦ v ]
