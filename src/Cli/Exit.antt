-- ===== src/Cli/Exit.antt =====
-- What the exit codes of the commands promise, and which directories they go over.
use mathlib.Core.Path.{subst}
use rucher.Base.{
  is_empty, Distinct, ◌≡◌, ◌∙◌, ◌&&◌, ◌∷◌, refl, sym, ap, inl, inr, true, false, not, Option, none,
  some, String, List, [], map, arith, eq_iff, string_eq, nat_eq, contains, All, Bool-cases,
}
use rucher.Base.Path.{join_path}
use rucher.Base.Result.{Result-cases, Result, ok, err, ok_inj}
use rucher.Agent.{DirEntry}
use rucher.Cadre.{Cadre}
use rucher.Cadre.Load.{Loader, load}
use rucher.Host.{Env, World}
use rucher.Plan.{Plan}
use rucher.Reconcile.Apply.{apply}
use rucher.Cli.Commands.{
  Step, subdirs, pick, discover, for_each, over, locked, quadlets, Desk, linted, validate_loaded,
  validate_step, cmd_validate, applied, apply_loaded, apply_step, cmd_apply,
}

abbrev pub paths : String → List String → List String
paths dir = map (λ d. join_path (dir ∷ d ∷ []))

-- the requested names, each of them once, are found
abbrev pub IsPicked : List String → List String → List String → List String → Type 0
IsPicked found seen names picked =
    Distinct picked
    × ((x : String) → contains x picked ≡ (contains x names && not (contains x seen)))
    × All (λ x. contains x found ≡ true) picked

pick-IsPicked :
    (dir : String) (found seen names ds : List String)
    → pick dir found seen names ≡ ok ds
    → (picked : List String) × (ds ≡ paths dir picked) × IsPicked found seen names picked
unfolding pick
pick-IsPicked dir found seen [] ds h = ([], sym (ok_inj [] ds h), (tt, λ x. refl, tt))
pick-IsPicked dir found seen (name ∷ names) ds h = elim (Bool-cases (contains name found)) [
  | inr absent ↦ absurd (cc (rw absent at h))
  | inl there ↦ elim (Bool-cases (contains name seen)) [
    | inl again ↦
        let (picked, same, (distinct, members, known)) =
          pick-IsPicked dir found seen names ds (rw (there, again) at h) in
        (picked, same, (distinct, λ x. ground (arith, members x, again, eq_iff name x), known))
    | inr first ↦ elim (Result-cases (pick dir found (name ∷ seen) names)) [
      | inl (e, bad) ↦ absurd (cc (rw (there, first, bad) at h))
      | inr (rest, got) ↦
          let (picked, same, (distinct, members, known)) =
            pick-IsPicked dir found (name ∷ seen) names rest got in
          let all : ok (join_path (dir ∷ name ∷ []) ∷ rest) ≡ ok ds = rw (there, first, got) at h in
          (
            name ∷ picked,
            sym (ok_inj (join_path (dir ∷ name ∷ []) ∷ rest) ds all)
                ∙ ap (◌∷◌ (join_path (dir ∷ name ∷ []))) same,
            (
              (ground (arith, members name, eq_iff name name), distinct),
              λ x. ground (arith, members x, first, eq_iff name x),
              (there, known),
            ),
          )
    ]
  ]
]

-- No step of the loop fails.
abbrev pub Passes {ℓ} : {W : Type ℓ} → (String → W → Step × W) → List String → W → Type 0
Passes f [] w = Unit
Passes f (d ∷ ds) w = ((f d w).0.0 ≡ false) × Passes f ds (f d w).1

for_each-Passes {ℓ} :
    {W : Type ℓ} (f : String → W → Step × W) (ds : List String) (w : W)
    → (for_each f ds w).0.0 ≡ 0
    → Passes f ds w
unfolding for_each
for_each-Passes f [] w h = tt
for_each-Passes f (d ∷ ds) w h =
    (ground (arith, h), for_each-Passes f ds (f d w).1 (ground (arith, h)))

over-code {ℓ} :
    {W : Type ℓ} (dir : String) (f : String → W → Step × W) (found : Result (List String)) (w : W)
    → (over dir found (for_each f) w).0.0 ≡ 0
    → (ds : List String) × (found ≡ ok ds) × Passes f ds w
unfolding over
over-code dir f (err e) w h = absurd (cc)
over-code dir f (ok []) w h = ([], refl, tt)
over-code dir f (ok (d ∷ ds)) w h = (d ∷ ds, refl, for_each-Passes f (d ∷ ds) w h)

not-is_empty : (xs : List String) → not (is_empty xs) ≡ false → xs ≡ []
not-is_empty [] h = refl
not-is_empty (x ∷ xs) h = absurd (cc)

module _ (desk : Desk) (loader : Loader) (env : Env) where
  -- a directory that loads, with units that quadletlint has no error for
  abbrev pub IsValid : String → Type 0
  IsValid d =
      (c : Cadre) × (load loader (desk.directory d) ≡ ok c)
      × ((desk.lint (quadlets c.files)).1 ≡ [])

  validate_loaded-IsValid :
      (d : String) (r : Result Cadre)
      → load loader (desk.directory d) ≡ r
      → (validate_loaded desk loader env d r).0 ≡ false
      → IsValid d
  unfolding validate_loaded linted
  validate_loaded-IsValid d (err e) at h = absurd (cc)
  validate_loaded-IsValid d (ok c) at h = (c, at, not-is_empty (desk.lint (quadlets c.files)).1 h)

  Passes-IsValid :
      (ds : List String) (w : World) → Passes (validate_step desk loader env) ds w → All IsValid ds
  unfolding validate_step
  Passes-IsValid [] w p = tt
  Passes-IsValid (d ∷ ds) w p =
      (validate_loaded-IsValid d (load loader (desk.directory d)) refl p.0, Passes-IsValid ds w p.1)

  -- When `ops validate` exits with 0, it found the directories, every one of them loads, which validates its
  -- manifest and its units, and quadletlint has no error for its Quadlet units.
  pub cmd_validate-IsValid :
      (dir : String) (names : List String) (w : World)
      → (cmd_validate desk loader env dir names w).0.0 ≡ 0
      → (ds : List String) × (discover (desk.read_dir dir) dir names ≡ ok ds) × All IsValid ds
  unfolding cmd_validate
  cmd_validate-IsValid dir names w h =
      let (ds, found, passes) =
        over-code dir (validate_step desk loader env) (discover (desk.read_dir dir) dir names) w
          h in
      (ds, found, Passes-IsValid ds w passes)

  -- the directories are applied one behind the other, each of them loads, and no apply fails
  abbrev pub Applies : List String → World → World → Type 0
  Applies [] w after = after ≡ w
  Applies (d ∷ ds) w after =
      (c : Cadre) × (p : Plan) × (load loader (desk.directory d) ≡ ok c)
      × ((apply env c w).0 ≡ ok p)
      × Applies ds (apply env c w).1 after

  apply_loaded-Applies :
      (d : String) (r : Result Cadre) (w : World)
      → (apply_loaded desk loader env d r w).0.0 ≡ false
      → (c : Cadre) × (p : Plan) × (r ≡ ok c)
        × ((apply env c w).0 ≡ ok p)
        × ((apply_loaded desk loader env d r w).1 ≡ (apply env c w).1)
  unfolding apply_loaded applied
  apply_loaded-Applies d (err e) w h = absurd (cc)
  apply_loaded-Applies d (ok c) w h = elim (Result-cases (apply env c w).0) [
    | inl (e, bad) ↦ absurd (cc (rw bad at h))
    | inr (p, good) ↦ (c, p, refl, good, refl)
  ]

  Passes-Applies :
      (ds : List String) (w : World)
      → Passes (apply_step desk loader env) ds w
      → Applies ds w (for_each (apply_step desk loader env) ds w).1
  unfolding for_each apply_step
  Passes-Applies [] w p = refl
  Passes-Applies (d ∷ ds) w p =
      let (c, plan, loaded, good, next) =
        apply_loaded-Applies d (load loader (desk.directory d)) w p.0 in
      (
        c,
        plan,
        loaded,
        good,
        subst (λ v. Applies ds v (for_each (apply_step desk loader env) (d ∷ ds) w).1) next
            (Passes-Applies ds (apply_step desk loader env d w).1 p.1),
      )

  over-Applies :
      (dir : String) (found : Result (List String)) (fault : Option String) (w : World)
      → (over dir found (λ ds. locked fault (for_each (apply_step desk loader env) ds)) w).0.0 ≡ 0
      → (ds : List String) × (found ≡ ok ds)
        × Applies ds w
            (over dir found (λ ds. locked fault (for_each (apply_step desk loader env) ds)) w).1
  unfolding over locked
  over-Applies dir (err e) fault w h = absurd (cc)
  over-Applies dir (ok []) fault w h = ([], refl, refl)
  over-Applies dir (ok (d ∷ ds)) (some e) w h = absurd (cc)
  over-Applies dir (ok (d ∷ ds)) none w h = (
    d ∷ ds,
    refl,
    Passes-Applies (d ∷ ds) w (for_each-Passes (apply_step desk loader env) (d ∷ ds) w h),
  )

  -- When `node cadre apply` exits with 0, it found the directories, and from the host as it was it came to the
  -- host as it is by applying the cadre of every one of them in turn, each of which loaded and was applied
  -- without an error.
  pub cmd_apply-Applies :
      (dir : String) (names : List String) (w : World)
      → (cmd_apply desk loader env dir names w).0.0 ≡ 0
      → (ds : List String) × (discover (desk.read_dir dir) dir names ≡ ok ds)
        × Applies ds w (cmd_apply desk loader env dir names w).1
  unfolding cmd_apply
  cmd_apply-Applies dir names w h =
      over-Applies dir (discover (desk.read_dir dir) dir names) desk.lock_fault w h

-- When names are given and are found, the directories are those of the names, each name once whatever its
-- repetitions, and every one is a subdirectory.
pub discover-IsPicked :
    (es : List DirEntry) (dir name : String) (names ds : List String)
    → discover (ok es) dir (name ∷ names) ≡ ok ds
    → (picked : List String) × (ds ≡ paths dir picked)
      × IsPicked (subdirs es) [] (name ∷ names) picked
unfolding discover
discover-IsPicked es dir name names ds h = pick-IsPicked dir (subdirs es) [] (name ∷ names) ds h
