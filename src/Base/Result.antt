-- ===== src/Base/Result.antt =====
-- A Go call that returns a value and an `error`: the value, or the error's text.
use mathlib.Core.Bool.{Bool, true, false}
use mathlib.Core.Logic.{◌⊎◌, inl, inr}
use mathlib.Core.Path.{◌≡◌, refl}
use mathlib.Core.List.{List, [], ◌∷◌}
use rucher.Base.Lists.{All}
use Prim.Native.String.{String, ◌++◌ as ◌<>◌}

pub data Result {ℓ} (A : Type ℓ) : Type ℓ where
  ok : A → Result A
  err : String → Result A

infixl 5 ◌>>=◌ ◌>>◌
abbrev pub ◌>>=◌ {ℓ κ} :
    {A : Type ℓ} {B : Type κ} → (result : Result A) (next : A → Result B) → Result B
err e >>= next = err e
ok a >>= next = next a

-- the next call, when this one returned no error
abbrev pub ◌>>◌ {ℓ} : {B : Type ℓ} (checked : Result (Unit {0})) (next : Result B) → Result B
checked >> next = checked >>= λ _. next

-- `if bad { return fmt.Errorf(...) }`
abbrev pub reject : Bool → String → Result (Unit {0})
reject true e = err e
reject false e = ok tt

abbrev pub is_ok {ℓ} : {A : Type ℓ} → Result A → Bool
is_ok (ok a) = true
is_ok (err e) = false

-- `for _, x := range xs { if err := f(x); err != nil { return err } }`
abbrev pub check_each {ℓ} : {A : Type ℓ} → (A → Result (Unit {0})) → List A → Result (Unit {0})
check_each f [] = ok tt
check_each f (x ∷ xs) = f x >> check_each f xs

-- a check that passed, in two parts
pub >>-eq-ok :
    (m : Result (Unit {0})) (k : Result (Unit {0})) → (m >> k) ≡ ok tt → (m ≡ ok tt) × (k ≡ ok tt)
>>-eq-ok (ok tt) k h = (refl, h)
>>-eq-ok (err e) k h = cc

pub check_each-All {ℓ} :
    {A : Type ℓ} (f : A → Result (Unit {0})) (xs : List A)
    → check_each f xs ≡ ok tt
    → All (λ x. f x ≡ ok tt) xs
check_each-All f [] h = tt
check_each-All f (x ∷ xs) h =
    let (here, there) = >>-eq-ok (f x) (check_each f xs) h in (here, check_each-All f xs there)

pub reject-eq-ok : (b : Bool) (e : String) → reject b e ≡ ok tt → b ≡ false
reject-eq-ok true e h = cc
reject-eq-ok false e h = refl

-- a step and the rest, when both returned
pub >>=-eq-ok {ℓ κ} :
    {A : Type ℓ} {B : Type κ} (step : Result A) (rest : A → Result B) {out : B}
    (h : (step >>= rest) ≡ ok out)
    → (first : A) × (step ≡ ok first) × (rest first ≡ ok out)
>>=-eq-ok (err e) rest failed = cc
>>=-eq-ok (ok first) rest returned = (first, refl, returned)

-- fmt.Errorf("<what>: %w", err)
abbrev pub with_context {ℓ} : {A : Type ℓ} → String → Result A → Result A
with_context what (ok a) = ok a
with_context what (err e) = err (what <> (": " <> e))

pub ok_inj {ℓ} : {A : Type ℓ} (a b : A) → ok a ≡ ok b → a ≡ b
ok_inj a b h = cc

pub Result-cases {ℓ} :
    {A : Type ℓ} (r : Result A) → ((e : String) × (r ≡ err e)) ⊎ ((a : A) × (r ≡ ok a))
Result-cases (err e) = inl (e, refl)
Result-cases (ok a) = inr (a, refl)
