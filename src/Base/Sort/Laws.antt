-- ===== src/Base/Sort/Laws.antt =====
-- Lemmas on sorting by a name.
use mathlib.Core.Path.{◌≡◌, refl, ap, ◌∙◌}
use mathlib.Core.Bool.{Bool, true, false, ◌||◌}
use mathlib.Core.Option.{Option, none, some}
use mathlib.Core.List.{List, [], ◌∷◌}
use Prim.Native.String.{String}
use native.Mathlib.Omega.{arith}
use text.Mathlib.TextEquality.{eq_iff}
use rucher.Base.Tests.{◌==◌, string_eq, if◌then◌else◌}
use rucher.Base.Lists.{any, contains, is_empty}
use rucher.Base.Sort.{
  str_leb, str_leb_total, str_leb_antisym, str_leb_trans, insert_by, sort_by, sort,
}

str_leb_refl : (a : String) → str_leb a a ≡ true
str_leb_refl a = ground (arith, str_leb_total a a)

module _ {ℓ} {A : Type ℓ} (name : A → String) (p : A → Bool) where
  any-insert_by : (a : A) (l : List A) → any p (insert_by name a l) ≡ (p a || any p l)
  unfolding insert_by
  any-insert_by a [] = refl
  any-insert_by a (b ∷ l) = ground (arith, any-insert_by a l)

  pub any-sort_by : (l : List A) → any p (sort_by name l) ≡ any p l
  unfolding sort_by
  any-sort_by [] = refl
  any-sort_by (a ∷ l) = any-insert_by a (sort_by name l) ∙ ap (λ b. p a || b) (any-sort_by l)

module _ {ℓ} {A : Type ℓ} (name : A → String) where
  is_empty-insert_by : (a : A) (l : List A) → is_empty (insert_by name a l) ≡ false
  unfolding insert_by
  is_empty-insert_by a [] = refl
  is_empty-insert_by a (b ∷ l) = ground arith

  pub is_empty-sort_by : (l : List A) → is_empty (sort_by name l) ≡ is_empty l
  unfolding sort_by
  is_empty-sort_by [] = refl
  is_empty-sort_by (a ∷ l) = is_empty-insert_by a (sort_by name l)

  -- the first member of a name
  abbrev pub find : String → List A → Option A
  find k [] = none
  find k (a ∷ l) = if name a == k then some a else find k l

  find-insert_by :
      (k : String) (a : A) (l : List A)
      → find k (insert_by name a l) ≡ (if name a == k then some a else find k l)
  unfolding insert_by
  find-insert_by k a [] = refl
  find-insert_by k a (b ∷ l) =
      ground (arith, find-insert_by k a l, eq_iff (name a) k, eq_iff (name b) k, str_leb_refl k)

  pub find-sort_by : (k : String) (l : List A) → find k (sort_by name l) ≡ find k l
  unfolding sort_by
  find-sort_by k [] = refl
  find-sort_by k (a ∷ l) = ground (arith, find-insert_by k a (sort_by name l), find-sort_by k l)

contains-insert_by :
    (k a : String) (l : List String)
    → contains k (insert_by (λ s. s) a l) ≡ (a == k || contains k l)
unfolding insert_by
contains-insert_by k a [] = refl
contains-insert_by k a (b ∷ l) = ground (arith, contains-insert_by k a l)

pub contains-sort : (k : String) (l : List String) → contains k (sort l) ≡ contains k l
unfolding sort_by
contains-sort k [] = refl
contains-sort k (a ∷ l) = ground (arith, contains-insert_by k a (sort l), contains-sort k l)

-- Two insertions commute.
insert_by_comm :
    (a b : String) (l : List String)
    → insert_by (λ s. s) a (insert_by (λ s. s) b l) ≡ insert_by (λ s. s) b (insert_by (λ s. s) a l)
unfolding insert_by
insert_by_comm a b [] = ground (arith, str_leb_total a b, str_leb_antisym a b)
insert_by_comm a b (c ∷ l) = ground (
  arith,
  insert_by_comm a b l,
  str_leb_total a b,
  str_leb_antisym a b,
  str_leb_total b a,
  str_leb_trans a b c,
  str_leb_trans b a c,
  str_leb_total a c,
  str_leb_total b c,
  str_leb_trans c a b,
  str_leb_trans c b a,
  str_leb_trans a c b,
  str_leb_trans b c a,
)
