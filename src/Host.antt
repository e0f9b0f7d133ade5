-- ===== src/Host.antt =====
-- The host as the program sees it: internal/node/runner.go (the interface `Runner`), the files that
-- internal/state keeps, and what stands outside the program. A computation threads the commands run
-- so far and the state files; what a command answers may depend on everything that ran before it.
pub mod Quiet
use rucher.Base.Int.{ℤ, pos, int_eq}
use rucher.Base.Dict.{Dict}
use rucher.Base.Result.{Result, ok, err}
use rucher.State.{State}
use rucher.Manifest.{Login}
use rucher.Base.{
  ◌==◌, ◌∷◌, Bool, true, not, Option, none, some, String, List, [], if◌then◌else◌, string_eq,
  nat_eq,
}

-- a call of Runner.Root or Runner.User; no text stands for a nil stdin
pub data Command : Type 0 where
  root : List String → Option String → Command
  user : String → ℤ → List String → Option String → Command

-- `Result` of internal/node beside the error, which tells that the command did not run.
pub record Answer : Type 0 where
  pub stdout : String
  pub stderr : String
  pub code : ℤ
  pub fault : Option String

-- `err != nil || res.Code != 0`
abbrev pub failed : Answer → Bool
failed a = elim a.fault [ some e ↦ true | none ↦ not (a.code == pos 0) ]

-- what a read of a state file finds, if the file is there
pub data StateFile : Type 0 where
  stored : State → StateFile
  unreadable : String → StateFile

pub record World : Type 0 where
  -- the commands, the last one first
  pub trace : List Command
  pub states : Dict StateFile

-- What the program does not implement: the host's answers, the failures of a write of a state file,
-- the environment variables, the files that are read, sha256, the JSON encoder, and the decryption
-- of a SOPS file from the contents of the identity and of the file (internal/sopsage).
pub record Env : Type 0 where
  pub answer : List Command → Command → Answer
  pub save_fault : List Command → Option String
  pub cadres_dir : String
  pub state_dir : String
  pub hash : String → String
  pub marshal : List Login → String
  pub read_file : List Command → String → Result String
  pub decrypt : String → String → Result (Dict String)

abbrev pub Exec {ℓ} : Type ℓ → Type ℓ
Exec A = World → Result A × World

module _ {ℓ} {A : Type ℓ} where
  abbrev pub pure : A → Exec A
  pure a w = (ok a, w)

  abbrev pub throw : String → Exec A
  throw e w = (err e, w)

  abbrev pub lift : Result A → Exec A
  lift r w = (r, w)

module _ {ℓ κ} {A : Type ℓ} {B : Type κ} where
  abbrev pub continue : Result A → (A → World → Result B × World) → World → Result B × World
  continue (ok a) f w = f a w
  continue (err e) f w = (err e, w)

infixl 5 ◌>>=◌ ◌>>◌
abbrev pub ◌>>=◌ {ℓ κ} :
    {A : Type ℓ} {B : Type κ}
    → (World → Result A × World)
    → (A → World → Result B × World)
    → World
    → Result B × World
◌>>=◌ m f w = continue (m w).0 f (m w).1

abbrev pub ◌>>◌ {ℓ} : {B : Type ℓ} → Exec (Unit {0}) → Exec B → Exec B
m >> n = m >>= λ _. n

abbrev pub throw_if : Bool → String → Exec (Unit {0})
throw_if b e w = (if b then err e else ok tt, w)

-- `for _, x := range xs { if err := f(x); err != nil { return err } }`
unfoldable pub each {ℓ} : {A : Type ℓ} → (A → Exec (Unit {0})) → List A → Exec (Unit {0})
each f [] w = (ok tt, w)
each f (x ∷ xs) w = continue (f x w).0 (λ _. each f xs) (f x w).1

-- the members whose action failed; the failures do not end the loop
unfoldable pub failures {ℓ} : {A : Type ℓ} → (A → Exec (Unit {0})) → List A → World → List A × World
failures f [] w = ([], w)
failures f (x ∷ xs) w =
    let (r, w') = f x w in
    let (bad, w'') = failures f xs w' in (elim r [ ok _ ↦ bad | err _ ↦ x ∷ bad ], w'')

module _ (env : Env) where
  unfoldable pub run : Command → Exec Answer
  run c w = (ok (env.answer w.trace c), record w { trace = c ∷ w.trace })
