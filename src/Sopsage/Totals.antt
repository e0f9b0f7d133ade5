-- ===== src/Sopsage/Totals.antt =====
-- Two maps of which one holds no value that the other does not, and whose values have the same length
-- together, agree on every key.
use rucher.Base.{
  ℕ, ◌+◌, ◌≤◌, ◌≡◌, ◌∙◌, ◌==◌, ◌∷◌, refl, sym, ap, inl, inr, true, false, some, String, [], map,
  arith, eq_iff, if◌then◌else◌, string_eq, nat_eq, contains, All, Bool-cases, Distinct,
}
use Prim.Native.String.{count}
use text.Mathlib.TextLemmas.{length-append, length-eq-zero_iff, length-nil}
use rucher.Base.Text.{concat}
use rucher.Base.Dict.{Dict, lookup, keys, get}

unfoldable pub total : Dict String → ℕ
total [] = 0
total ((k, v) ∷ m) = count v + total m

pub count-concat : (m : Dict String) → count (concat (map (λ e. e.1) m)) ≡ total m
unfolding total concat
count-concat [] = length-nil
count-concat ((k, v) ∷ m) =
    rw (length-append v (concat (map (λ e. e.1) m))) (rw (count-concat m) refl)

without : String → Dict String → Dict String
without k [] = []
without k ((j, v) ∷ m) = let rest = without k m in if j == k then rest else (j, v) ∷ rest

without_absent : (k : String) (m : Dict String) → contains k (keys m) ≡ false → without k m ≡ m
unfolding without
without_absent k [] h = refl
without_absent k ((j, v) ∷ m) h = ground (arith, without_absent k m)

contains-keys-without :
    (k j : String) (m : Dict String)
    → contains j (keys m) ≡ false
    → contains j (keys (without k m)) ≡ false
unfolding without
contains-keys-without k j [] h = refl
contains-keys-without k j ((i, v) ∷ m) h = ground (arith, contains-keys-without k j m)

without-Distinct :
    (k : String) (m : Dict String) → Distinct (keys m) → Distinct (keys (without k m))
unfolding without
without-Distinct k [] d = tt
without-Distinct k ((j, v) ∷ m) d = elim (Bool-cases (j == k)) [
  | inl e ↦ rw e (without-Distinct k m d.1)
  | inr e ↦ rw e (contains-keys-without k j m d.0, without-Distinct k m d.1)
]

lookup-without :
    (k j : String) (m : Dict String) → (j == k) ≡ false → lookup j (without k m) ≡ lookup j m
unfolding without
lookup-without k j [] h = refl
lookup-without k j ((i, v) ∷ m) h =
    ground (arith, lookup-without k j m, eq_iff i k, eq_iff i j, eq_iff j k)

get_here : (j k v : String) (m : Dict String) → (j == k) ≡ true → get ((j, v) ∷ m) k ≡ v
get_here j k v m e = rw (e, get) refl

get_there : (j k v : String) (m : Dict String) → (j == k) ≡ false → get ((j, v) ∷ m) k ≡ get m k
get_there j k v m e = rw (e, get) refl

total-without :
    (k : String) (m : Dict String)
    → Distinct (keys m)
    → total m ≡ count (get m k) + total (without k m)
unfolding total without
total-without k [] d = omega (arith, length-nil)
total-without k ((j, v) ∷ m) d = elim (Bool-cases (j == k)) [
  | inl e ↦
      let absent = without_absent k m (ground (arith, eq_iff j k, d.0)) in
      rw (get_here j k v m e) (rw (e, without) (rw absent refl))
  | inr e ↦ rw (get_there j k v m e) (rw (e, without) (omega (arith, total-without k m d.1)))
]

get-total_zero : (k : String) (m : Dict String) → total m ≡ 0 → get m k ≡ ""
unfolding total
get-total_zero k [] h = refl
get-total_zero k ((j, v) ∷ m) h = elim (Bool-cases (j == k)) [
  | inl e ↦ rw (get_here j k v m e) (length-eq-zero_iff.0 (omega arith))
  | inr e ↦ rw (get_there j k v m e) (get-total_zero k m (omega arith))
]

-- every value that is not empty is that of the other map
abbrev pub IsPartOf : Dict String → Dict String → Type 0
IsPartOf m big = All (λ (e : String × String). (e.1 == "") ≡ false → lookup e.0 big ≡ some e.1) m

IsPartOf-without :
    (j : String) (m big : Dict String)
    → contains j (keys m) ≡ false
    → IsPartOf m big
    → IsPartOf m (without j big)
IsPartOf-without j [] big h p = tt
IsPartOf-without j ((k, v) ∷ m) big h p = (
  λ full. lookup-without j k big (ground (arith, eq_iff k j)) ∙ p.0 full,
  IsPartOf-without j m big (ground arith) p.1,
)

-- the value of one entry against the value of its key
value-get :
    (j v : String) (big : Dict String)
    → ((v == "") ≡ false → lookup j big ≡ some v)
    → (count v ≤ count (get big j)) × (count v ≡ count (get big j) → v ≡ get big j)
value-get j v big p = elim (Bool-cases (v == "")) [
  | inl empty ↦ rw ((eq_iff v "").0 empty) (omega arith, λ h. sym (length-eq-zero_iff.0 (sym h)))
  | inr full ↦ rw (p full, get) (omega arith, λ h. refl)
]

pub IsPartOf-get :
    (m big : Dict String)
    → Distinct (keys m)
    → Distinct (keys big)
    → IsPartOf m big
    → (total m ≤ total big) × (total m ≡ total big → (k : String) → get m k ≡ get big k)
unfolding total
IsPartOf-get [] big d b p = (omega arith, λ h k. sym (get-total_zero k big (sym h)))
IsPartOf-get ((j, v) ∷ m) big d b p =
    let (below, here) = value-get j v big p.0 in
    let (rest_below, rest) =
      IsPartOf-get m (without j big) d.1 (without-Distinct j big b)
        (IsPartOf-without j m big d.0 p.1) in
    let split = total-without j big b in
    (
      omega arith,
      λ h k. elim (Bool-cases (j == k)) [
        | inl e ↦ get_here j k v m e ∙ here (omega arith) ∙ ap (get big) ((eq_iff j k).0 e)
        | inr e ↦
            get_there j k v m e
            ∙ rest (omega arith) k
            ∙ rw (lookup-without j k big (ground (arith, eq_iff j k, eq_iff k j)), get) refl
      ],
    )
