-- ===== src/Host/Quiet.antt =====
-- Computations that leave the state files alone, whatever they return.
use rucher.Base.{
  ap, ◌≡◌, ◌∙◌, ◌∷◌, refl, Bool, true, false, String, List, [], if◌then◌else◌, string_eq, nat_eq,
}
use rucher.Base.Result.{Result, ok, err}
use rucher.Host.{
  Command, World, Env, Exec, pure, throw, lift, throw_if, continue, ◌>>=◌, each, failures, run,
}

pub record Quiet {ℓ} {A : Type ℓ} (m : World → Result A × World) : Type 0 where
  pub at : (w : World) → (m w).1.states ≡ w.states

module _ {ℓ} {A : Type ℓ} where
  pub Quiet-pure : (a : A) → Quiet (pure a)
  Quiet-pure a = record { at = λ w. refl }

  pub Quiet-throw : (e : String) → Quiet (throw {A = A} e)
  Quiet-throw e = record { at = λ w. refl }

  pub Quiet-lift : (r : Result A) → Quiet (lift r)
  Quiet-lift r = record { at = λ w. refl }

  pub Quiet-if : (b : Bool) (m n : Exec A) → Quiet m → Quiet n → Quiet (if b then m else n)
  Quiet-if true m n km kn = km
  Quiet-if false m n km kn = kn

pub Quiet-throw_if : (b : Bool) (e : String) → Quiet (throw_if b e)
Quiet-throw_if b e = record { at = λ w. refl }

pub Quiet-run : (env : Env) (c : Command) → Quiet (run env c)
unfolding run
Quiet-run env c = record { at = λ w. refl }

module _ {ℓ κ} {A : Type ℓ} {B : Type κ} where
  continue-states :
      (r : Result A) (f : A → Exec B) (w : World)
      → ((a : A) → Quiet (f a))
      → (continue r f w).1.states ≡ w.states
  continue-states (ok a) f w h = (h a).at w
  continue-states (err e) f w h = refl

  pub Quiet-bind :
      (m : Exec A) (f : A → Exec B) → Quiet m → ((a : A) → Quiet (f a)) → Quiet (m >>= f)
  Quiet-bind m f hm hf = record { at = λ w. continue-states (m w).0 f (m w).1 hf ∙ hm.at w }

module _ {ℓ} {A : Type ℓ} (f : A → Exec (Unit {0})) (h : (a : A) → Quiet (f a)) where
  pub Quiet-each : (xs : List A) → Quiet (each f xs)
  unfolding each
  Quiet-each [] = record { at = λ w. refl }
  Quiet-each (x ∷ xs) = record {
    at =
        λ w. continue-states (f x w).0 (λ _. each f xs) (f x w).1 (λ _. Quiet-each xs) ∙ (h x).at w;
  }

  pub failures-states : (xs : List A) (w : World) → (failures f xs w).1.states ≡ w.states
  unfolding failures
  failures-states [] w = refl
  failures-states (x ∷ xs) w = failures-states xs (f x w).1 ∙ (h x).at w

pub ruleset quiet_rules = (
  Quiet-pure, Quiet-throw, Quiet-lift, Quiet-if, Quiet-throw_if, Quiet-run, Quiet-bind, Quiet-each,
)

-- Computations that leave the state files alone when they fail.
pub record Atomic {ℓ} {A : Type ℓ} (m : World → Result A × World) : Type ℓ where
  pub at : (w : World) (e : String) → (m w).0 ≡ err e → (m w).1.states ≡ w.states

module _ {ℓ κ} {A : Type ℓ} {B : Type κ} where
  continue-Atomic :
      (r : Result A) (f : A → Exec B) (w : World) (e : String)
      → ((a : A) → Atomic (f a))
      → (continue r f w).0 ≡ err e
      → (continue r f w).1.states ≡ w.states
  continue-Atomic (ok a) f w e h x = (h a).at w e x
  continue-Atomic (err b) f w e h x = refl

  pub Atomic-bind :
      (m : Exec A) (f : A → Exec B) → Quiet m → ((a : A) → Atomic (f a)) → Atomic (m >>= f)
  Atomic-bind m f hm hf = record {
    at = λ w e x. continue-Atomic (m w).0 f (m w).1 e hf x ∙ hm.at w;
  }

  continue-eq-ok :
      (r : Result A) (f : A → Exec B) (w : World) {b : B} {w' : World}
      → continue r f w ≡ (ok b, w')
      → (a : A) × (r ≡ ok a) × (f a w ≡ (ok b, w'))
  continue-eq-ok (ok a) f w h = (a, refl, h)
  continue-eq-ok (err e) f w h = cc (ap (λ (x : Result B × World). x.0) h)

  -- Inversion of a computation that returned.
  pub >>=-eq-ok :
      (m : Exec A) (f : A → Exec B) (w : World) {b : B} {w' : World}
      → (m >>= f) w ≡ (ok b, w')
      → (a : A) × ((m w).0 ≡ ok a) × (f a (m w).1 ≡ (ok b, w'))
  >>=-eq-ok m f w h = continue-eq-ok (m w).0 f (m w).1 h

  continue-result-ok :
      (r : Result A) (f : A → Exec B) (w : World) {b : B}
      → (continue r f w).0 ≡ ok b
      → (a : A) × (r ≡ ok a) × ((f a w).0 ≡ ok b)
  continue-result-ok (ok a) f w h = (a, refl, h)
  continue-result-ok (err e) f w h = cc

  -- the same for the result alone
  pub >>=-result-ok :
      (m : Exec A) (f : A → Exec B) (w : World) {b : B}
      → ((m >>= f) w).0 ≡ ok b
      → (a : A) × ((m w).0 ≡ ok a) × ((f a (m w).1).0 ≡ ok b)
  >>=-result-ok m f w h = continue-result-ok (m w).0 f (m w).1 h

-- Whatever `m` returns is `b`.
pub record Returns {ℓ} {B : Type ℓ} (b : B) (m : World → Result B × World) : Type ℓ where
  pub at : (w : World) (x : B) → (m w).0 ≡ ok x → x ≡ b

pub Returns-pure {ℓ} : {B : Type ℓ} (b : B) → Returns b (pure b)
Returns-pure b = record { at = λ w x h. cc }

pub Returns-bind {ℓ κ} :
    {A : Type ℓ} {B : Type κ} (b : B) (m : Exec A) (f : A → Exec B)
    → ((a : A) → Returns b (f a))
    → Returns b (m >>= f)
Returns-bind b m f h = record {
  at = λ w x e. let (a, e1, e2) = >>=-result-ok m f w e in (h a).at (m w).1 x e2;
}
