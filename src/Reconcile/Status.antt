-- ===== src/Reconcile/Status.antt =====
-- `Status` of internal/reconcile/reconcile.go: the runtime state of the units of the last applied state.
use rucher.Base.{
  code, ◌≡◌, ◌∙◌, ◌==◌, ◌&&◌, ◌∷◌, ◌++◌, refl, sym, ap, inl, inr, none, some, String, List, [], map,
  if◌then◌else◌, string_eq, nat_eq, Option-cases,
}
use rucher.Base.Text.{split}
use rucher.Base.Result.{Result, ok, err}
use rucher.State.{State}
use rucher.Fileset.{unit_service}
use rucher.Provision.{user_name}
use rucher.Ops.{Ops}
use rucher.Host.{World, user, Answer, Env, Exec, pure, lift, ◌>>=◌, run}
use rucher.Host.Quiet.{>>=-result-ok}
use rucher.Reconcile.Apply.{state_path, state_at, load_state}

pub record UnitStatus : Type 0 where
  pub unit : String
  pub active : String
  pub sub : String

-- strings.TrimRight(s, "\n")
unfoldable pub trim_newlines : String → String
trim_newlines String.[] = ""
trim_newlines (String.◌∷◌ c s) =
    let rest = trim_newlines s in if code c == b'\n' && rest == "" then "" else String.◌∷◌ c rest

unfoldable pub unit_status : String → List String → UnitStatus
unit_status unit [] = record { unit = unit; active = ""; sub = "" }
unit_status unit (active ∷ []) = record { unit = unit; active = active; sub = "" }
unit_status unit (active ∷ sub ∷ lines) = record { unit = unit; active = active; sub = sub }

-- The exit code is not looked at.
unfoldable pub shown_status : String → Answer → Result UnitStatus
unfolding unit_status trim_newlines
shown_status unit a = elim a.fault [
  | some e ↦ err e
  | none ↦ ok (unit_status unit (split b'\n' (trim_newlines a.stdout)))
]

module _ (env : Env) where
  -- the closure `show`
  unfoldable pub show_unit : Ops → String → String → Exec UnitStatus
  show_unit o unit target = do
    a ← run env (
        user o.name o.uid
          ("systemctl" ∷ "--user" ∷ "show" ∷ target ∷ "-p" ∷ "ActiveState" ∷ "-p" ∷ "SubState"
            ∷ "--value" ∷ [])
          none)
    lift (shown_status unit a)

  -- one of the two loops, with the systemd name of each unit
  unfoldable pub show_units : Ops → (String → String) → List String → Exec (List UnitStatus)
  show_units o target [] = pure []
  show_units o target (u ∷ us) =
      show_unit o u (target u) >>= λ row. show_units o target us >>= λ rows. pure (row ∷ rows)

  unfoldable pub status_of : String → State → Exec (List UnitStatus)
  status_of name prior =
      let o : Ops = record { name = user_name name; uid = prior.uid } in
      show_units o unit_service prior.units >>= λ quadlets.
      show_units o (λ u. u) prior.systemd_units >>= λ natives. pure (quadlets ++ natives)

  unfoldable pub status : String → Exec (List UnitStatus)
  status name = load_state env (state_path env name) >>= status_of name

abbrev pub rows : List UnitStatus → List String
rows = map (λ s. s.unit)

rows-append : (xs ys : List UnitStatus) → rows (xs ++ ys) ≡ rows xs ++ rows ys
rows-append [] ys = refl
rows-append (x ∷ xs) ys = ap (◌∷◌ x.unit) (rows-append xs ys)

unit_status-unit : (unit : String) (lines : List String) → (unit_status unit lines).unit ≡ unit
unfolding unit_status
unit_status-unit unit [] = refl
unit_status-unit unit (a ∷ []) = refl
unit_status-unit unit (a ∷ b ∷ lines) = refl

shown_status-unit :
    (unit : String) (a : Answer) (s : UnitStatus) → shown_status unit a ≡ ok s → s.unit ≡ unit
unfolding shown_status
shown_status-unit unit a s h = elim (Option-cases a.fault) [
  | inl e ↦
      let same : unit_status unit (split b'\n' (trim_newlines a.stdout)) ≡ s = cc (rw e at h) in
      ap (λ (x : UnitStatus). x.unit) (sym same)
      ∙ unit_status-unit unit (split b'\n' (trim_newlines a.stdout))
  | inr (f, e) ↦ cc (rw e at h)
]

module _ (env : Env) where
  show_unit-unit :
      (o : Ops) (unit target : String) (w : World) (s : UnitStatus)
      → (show_unit env o unit target w).0 ≡ ok s
      → s.unit ≡ unit
  unfolding show_unit
  show_unit-unit o unit target w s h =
      let (a, _, h1) = >>=-result-ok (run env _) (λ a. lift (shown_status unit a)) w h in
      shown_status-unit unit a s h1

  show_units-rows :
      (o : Ops) (target : String → String) (us : List String) (w : World) (out : List UnitStatus)
      → (show_units env o target us w).0 ≡ ok out
      → rows out ≡ us
  unfolding show_units
  show_units-rows o target [] w out h = let same : [] ≡ out = cc h in ap rows (sym same)
  show_units-rows o target (u ∷ us) w out h =
      let (row, e, h1) = >>=-result-ok (show_unit env o u (target u)) _ w h in
      let (more, e2, h2) =
        >>=-result-ok (show_units env o target us) _ (show_unit env o u (target u) w).1 h1 in
      let same : row ∷ more ≡ out = cc h2 in
      ap rows (sym same)
      ∙ ap (λ x. x ∷ rows more) (show_unit-unit o u (target u) w row e)
      ∙ ap (◌∷◌ u) (show_units-rows o target us _ more e2)

  -- A status that succeeds has one row for each unit of the saved state, Quadlet units first, in the
  -- order of the state.
  rows-status :
      (name : String) (w : World) (prior : State) (out : List UnitStatus)
      → state_at env (state_path env name) w ≡ ok prior
      → (status env name w).0 ≡ ok out
      → rows out ≡ prior.units ++ prior.systemd_units
  unfolding status load_state status_of
  rows-status name w prior out loaded h =
      let (p, e, h1) =
        >>=-result-ok (load_state env (state_path env name)) (status_of env name) w h in
      let same : p ≡ prior = cc (e, loaded) in
      let o : Ops = record { name = user_name name; uid = p.uid } in
      let (q, eq, h2) = >>=-result-ok (show_units env o unit_service p.units) _ w h1 in
      let (n, en, h3) = >>=-result-ok (show_units env o (λ u. u) p.systemd_units) _ _ h2 in
      let all_rows : q ++ n ≡ out = cc h3 in
      ap rows (sym all_rows)
      ∙ rows-append q n
      ∙ ap (λ x. x ++ rows n) (show_units-rows o unit_service p.units _ q eq)
      ∙ ap (λ x. p.units ++ x) (show_units-rows o (λ u. u) p.systemd_units _ n en)
      ∙ ap (λ (x : State). x.units ++ x.systemd_units) same
