-- ===== src/Parallel/Invariant.antt =====
-- What every interleaving of `Map` keeps.
use rucher.Base.{
  ℕ, ◌≡◌, ◌∙◌, ◌∷◌, refl, Bool, true, false, Option, List, [], map, if◌then◌else◌, string_eq,
  nat_eq,
}
use rucher.Parallel.{
  Phase, waiting, running, written, released, finished, Cell, Spawn, first, later, kept, Act, call,
  release, finish, Some, here, there, spawn, act, Run, start, next, fresh, Waited, results,
}

abbrev has_result : Phase → Bool
has_result waiting = false
has_result running = false
has_result written = true
has_result released = true
has_result finished = true

module _ {T R : Type 0} (fn : T → Option R) (blank : R) where
  -- what the element of the slice is, by how far the goroutine has come
  abbrev expected : T → Phase → R
  expected t p = if has_result p then kept blank (fn t) else blank

  -- the cells belong to the items, and hold what is expected
  abbrev Fits : List T → List (Cell T R) → Type 0
  Fits [] [] = Unit
  Fits [] (c ∷ cs) = ⊥
  Fits (t ∷ ts) [] = ⊥
  Fits (t ∷ ts) (c ∷ cs) = (c.item ≡ t) × (c.out ≡ expected t c.phase) × Fits ts cs

  fresh-Fits : (ts : List T) → Fits ts (fresh blank ts)
  fresh-Fits [] = tt
  fresh-Fits (t ∷ ts) = (refl, refl, fresh-Fits ts)

  Spawn-Fits : (ts : List T) {cs ds : List (Cell T R)} → Spawn cs ds → Fits ts cs → Fits ts ds
  Spawn-Fits [] (first c cs w) f = f
  Spawn-Fits [] (later c w s) f = f
  Spawn-Fits (t ∷ ts) (first c cs w) f = (f.0, rw w at f.1, f.2)
  Spawn-Fits (t ∷ ts) (later c w s) f = (f.0, f.1, Spawn-Fits ts s f.2)

  Act-item : {c d : Cell T R} → Act fn blank c d → d.item ≡ c.item
  Act-item (call c e) = refl
  Act-item (release c e) = refl
  Act-item (finish c e) = refl

  Act-expected :
      (t : T) {c d : Cell T R}
      → Act fn blank c d
      → c.item ≡ t
      → c.out ≡ expected t c.phase
      → d.out ≡ expected t d.phase
  Act-expected t (call c e) i o = let o' : c.out ≡ blank = rw e at o in rw (o', i) refl
  Act-expected t (release c e) i o = rw e at o
  Act-expected t (finish c e) i o = rw e at o

  Some-Fits :
      (ts : List T) {cs ds : List (Cell T R)} → Some fn blank cs ds → Fits ts cs → Fits ts ds
  Some-Fits [] (here cs a) f = f
  Some-Fits [] (there c s) f = f
  Some-Fits (t ∷ ts) (here cs a) f = (Act-item a ∙ f.0, Act-expected t a f.0 f.1, f.2)
  Some-Fits (t ∷ ts) (there c s) f = (f.0, f.1, Some-Fits ts s f.2)

  Run-Fits :
      (ts : List T) {limit n : ℕ} {cs : List (Cell T R)}
      → Run fn blank limit (fresh blank ts) n cs
      → Fits ts cs
  Run-Fits ts start = fresh-Fits ts
  Run-Fits ts (next r (spawn room s)) = Spawn-Fits ts s (Run-Fits ts r)
  Run-Fits ts (next r (act s)) = Some-Fits ts s (Run-Fits ts r)

  results-Fits :
      (ts : List T) (cs : List (Cell T R))
      → Fits ts cs
      → Waited cs
      → results cs ≡ map (λ t. kept blank (fn t)) ts
  results-Fits [] [] f w = refl
  results-Fits [] (c ∷ cs) f w = elim f [ ]
  results-Fits (t ∷ ts) [] f w = elim f [ ]
  results-Fits (t ∷ ts) (c ∷ cs) f w =
      let o : c.out ≡ kept blank (fn t) = rw w.0 at f.1 in rw (o, results-Fits ts cs f.2 w.1) refl

  -- However the goroutines interleave and whatever the limit is, when the wait group lets `Map` go on
  -- the slice holds, in the order of the items, what the calls returned, and the blank value for a call
  -- that panicked.
  pub Run-results :
      (items : List T) (limit n : ℕ) (cs : List (Cell T R))
      → Run fn blank limit (fresh blank items) n cs
      → Waited cs
      → results cs ≡ map (λ t. kept blank (fn t)) items
  Run-results items limit n cs r w = results-Fits items cs (Run-Fits items r) w
