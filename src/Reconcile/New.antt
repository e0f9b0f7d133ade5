-- ===== src/Reconcile/New.antt =====
-- `New` and `Recipient` of internal/reconcile/reconcile.go, and `GenerateAgeKey` of internal/ops/ops.go: the
-- age identity of a cadre.
use rucher.Host.{user, root}
use rucher.Base.Path.{dir}
use rucher.Base.Int.{int_eq}
use rucher.Base.Text.{trim_space}
use rucher.Reconcile.Apply.{identity_path, user_write}
use rucher.Base.Int.{pos, ℤ}
use rucher.Ops.{wrapped, Ops}
use rucher.Provision.{ensure_user, user_name, home_dir}
use rucher.Base.Result.{with_context, ok, err, Result}
use rucher.Base.{
  ◌≡◌, ◌==◌, ◌<>◌, ◌∷◌, sym, ap, Bool, true, false, none, some, String, List, [], if◌then◌else◌,
  string_eq, nat_eq,
}
use rucher.Host.{Command, root, lift, pure, run, World, Exec, Env, Answer, ◌>>=◌, ◌>>◌}
use rucher.Host.Quiet.{>>=-eq-ok}

-- the age library: a new identity with its recipient, and the recipient of an identity
pub record Keys : Type 0 where
  pub generate : Result (String × String)
  pub recipient_for : String → Result String

unfoldable pub recipient_answer : String → Answer → Result String
recipient_answer name a = elim a.fault [
  | some e ↦ err e
  | none ↦
      if a.code == pos 0
      then ok (trim_space a.stdout)
      else err ("recipient for " <> (name <> (": " <> a.stderr)))
]

unfoldable pub identity_answer : String → Answer → Result String
identity_answer name a = elim a.fault [
  | some e ↦ err e
  | none ↦
      if a.code == pos 0
      then ok (trim_space a.stdout)
      else err ("read identity for " <> (name <> (": " <> a.stderr)))
]

module _ (env : Env) where
  unfoldable pub age_dir : String → String
  age_dir name = home_dir env name <> "/.config/rucher/age"

  unfoldable pub recipient_path : String → String
  recipient_path name = age_dir name <> "/recipient.txt"

  -- `Recipient`
  unfoldable pub recipient : String → Exec String
  recipient name = do
    a ← run env (root ("cat" ∷ recipient_path name ∷ []) none)
    lift (recipient_answer name a)

  unfoldable pub store_recipient : String → Ops → String → Exec String
  store_recipient name o r = do
    user_write env o ("tee" ∷ recipient_path name ∷ []) (some (r <> "\n"))
    pure r

module _ (env : Env) (keys : Keys) where
  unfoldable pub generate_age_key : Ops → String → Exec String
  generate_age_key o path = do
    (identity, r) ← lift keys.generate
    wrapped env o ("mkdir" ∷ "-p" ∷ dir path ∷ []) none
    wrapped env o ("sh" ∷ "-c" ∷ "umask 077 && cat > \"$1\"" ∷ "sh" ∷ path ∷ [])
        (some (identity <> "\n"))
    pure r

  unfoldable pub first_key : String → Ops → Exec String
  first_key name o = do
    r ← generate_age_key o (identity_path env name)
    store_recipient env name o r

  -- The identity exists already.
  unfoldable pub same_key : String → Ops → Exec String
  same_key name o = do
    a ← run env (root ("cat" ∷ identity_path env name ∷ []) none)
    identity ← lift (identity_answer name a)
    r ← lift (with_context ("derive recipient for " <> name) (keys.recipient_for identity))
    store_recipient env name o r

  unfoldable pub new_as : String → ℤ → Exec String
  new_as name uid = do
    let o : Ops = record { name = user_name name; uid = uid }
    user_write env o ("mkdir" ∷ "-p" ∷ age_dir env name ∷ []) none
    probe ← run env (user o.name o.uid ("test" ∷ "-f" ∷ identity_path env name ∷ []) none)
    if probe.code == pos 0 then same_key name o else first_key name o

  -- `New`
  unfoldable pub new_cadre : String → Exec String
  new_cadre name = do uid ← ensure_user env name; new_as name uid

  -- The recipient that a computation returns is what it wrote to the file last.
  record Stores (name : String) (m : World → Result String × World) : Type 0 where
    at :
        (w w' : World) (r : String)
        → m w ≡ (ok r, w')
        → (o : Ops) × (before : List Command) × (w'.trace
            ≡ user o.name o.uid ("tee" ∷ recipient_path env name ∷ []) (some (r <> "\n")) ∷ before)

  Stores-bind {ℓ} :
      {A : Type ℓ} (name : String) (m : World → Result A × World)
      (f : A → World → Result String × World)
      → ((a : A) → Stores name (f a))
      → Stores name (m >>= f)
  Stores-bind name m f h = record {
    at = λ w w' r e. let (a, e1, e2) = >>=-eq-ok m f w e in (h a).at (m w).1 w' r e2;
  }

  store_recipient-Stores :
      (name : String) (o : Ops) (r : String) → Stores name (store_recipient env name o r)
  unfolding store_recipient user_write run
  store_recipient-Stores name o r = record {
    at = λ w w' x e.
        let (u, e1, e2) =
          >>=-eq-ok (user_write env o ("tee" ∷ recipient_path env name ∷ []) (some (r <> "\n")))
            (λ _. pure r) w e in
        let same : r ≡ x = cc (ap (λ (p : Result String × World). p.0) e2) in
        (o, w.trace, rw (← same) (sym (ap (λ (p : Result String × World). p.1.trace) e2)));
  }

  Stores-if :
      (name : String) (b : Bool) (m n : Exec String)
      → Stores name m
      → Stores name n
      → Stores name (if b then m else n)
  Stores-if name true m n hm hn = hm
  Stores-if name false m n hm hn = hn

  ruleset stores_rules = (Stores-bind, Stores-if, store_recipient-Stores)

  same_key-Stores : (name : String) (o : Ops) → Stores name (same_key name o)
  unfolding same_key
  same_key-Stores name o = search stores_rules

  first_key-Stores : (name : String) (o : Ops) → Stores name (first_key name o)
  unfolding first_key
  first_key-Stores name o = search stores_rules

  new_as-Stores : (name : String) (uid : ℤ) → Stores name (new_as name uid)
  unfolding new_as
  new_as-Stores name uid = search (stores_rules, same_key-Stores, first_key-Stores)

  new_cadre-Stores : (name : String) → Stores name (new_cadre name)
  unfolding new_cadre
  new_cadre-Stores name = search (stores_rules, new_as-Stores)

  -- `New` is read back by `Recipient`: on a host where `cat` shows what the last `tee` to the file was
  -- given, the recipient that `New` returned, if it has no space at its ends, is the one that `Recipient`
  -- reads.
  pub recipient-new_cadre :
      (name : String) (w w' : World) (r : String)
      → ((o : Ops) (before : List Command) (content : String)
          → env.answer
              (user o.name o.uid ("tee" ∷ recipient_path env name ∷ []) (some content) ∷ before)
              (root ("cat" ∷ recipient_path env name ∷ []) none)
            ≡ record { stdout = content; stderr = ""; code = pos 0; fault = none })
      → trim_space (r <> "\n") ≡ r
      → new_cadre name w ≡ (ok r, w')
      → (recipient env name w').0 ≡ ok r
  unfolding recipient run recipient_answer
  recipient-new_cadre name w w' r shows trimmed e =
      let (o, before, last) = (new_cadre-Stores name).at w w' r e in
      rw (last, shows o before (r <> "\n")) (ap ok trimmed)
