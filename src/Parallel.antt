-- ===== src/Parallel.antt =====
-- internal/parallel/parallel.go: `Map` as a step relation. A goroutine is a cell with its item, how far
-- it has come, and its element of the result slice. A call of `fn` that panics is `none`.
pub mod Invariant
pub mod Progress
use rucher.Base.{
  ltb, ℕ, zero, suc, ◌+◌, ◌≤◌, ◌<◌, ◌≡◌, ◌≢◌, ◌↔◌, ◌⊎◌, ◌∙◌, ◌==◌, ◌&&◌, ◌||◌, ◌<>◌, ◌∷◌, ◌++◌,
  refl, sym, ap, inl, inr, Bool, true, false, not, Option, none, some, String, List, [], map, arith,
  eq_iff, if◌then◌else◌, string_eq, nat_eq, contains, All, Bool-cases, Option-cases,
}
use rucher.Base.Int.{ℤ, pos, negsuc}

-- The loop has not reached the item; the goroutine has a slot and has not called `fn`; it has called
-- it; it has given the slot back; it has told the wait group.
pub data Phase : Type 0 where
  waiting : Phase
  running : Phase
  written : Phase
  released : Phase
  finished : Phase

pub record Cell (T R : Type 0) : Type 0 where
  pub item : T
  pub phase : Phase
  pub out : R

-- the capacity of the channel `sem`
unfoldable pub capacity : ℕ → ℤ → ℕ
capacity n (negsuc limit) = n
capacity n (pos limit) = if limit == 0 || ltb n limit then n else limit

abbrev pub holds_slot : Phase → Bool
holds_slot waiting = false
holds_slot running = true
holds_slot written = true
holds_slot released = false
holds_slot finished = false

-- what `fn` leaves in the slice: a panic is recovered, and the element keeps its zero value
abbrev pub kept : {R : Type 0} → R → Option R → R
kept blank none = blank
kept blank (some r) = r

module _ {T R : Type 0} where
  -- the number of values in the channel `sem`
  unfoldable pub slots : List (Cell T R) → ℕ
  slots [] = 0
  slots (c ∷ cs) = (if holds_slot c.phase then 1 else 0) + slots cs

  abbrev pub set_phase : Phase → Cell T R → Cell T R
  set_phase p c = record c { phase = p }

  -- the loop starts the goroutine of the first item that it has not reached
  pub data Spawn : List (Cell T R) → List (Cell T R) → Type 0 where
    first :
        (c : Cell T R) (cs : List (Cell T R))
        → c.phase ≡ waiting
        → Spawn (c ∷ cs) (set_phase running c ∷ cs)
    later :
        (c : Cell T R) {cs ds : List (Cell T R)}
        → c.phase ≢ waiting
        → Spawn cs ds
        → Spawn (c ∷ cs) (c ∷ ds)

  module _ (fn : T → Option R) (blank : R) where
    -- one action of one goroutine, in the order of its body and its deferred calls
    pub data Act : Cell T R → Cell T R → Type 0 where
      call :
          (c : Cell T R)
          → c.phase ≡ running
          → Act c (record c { phase = written; out = kept c.out (fn c.item) })
      release : (c : Cell T R) → c.phase ≡ written → Act c (set_phase released c)
      finish : (c : Cell T R) → c.phase ≡ released → Act c (set_phase finished c)

    pub data Some : List (Cell T R) → List (Cell T R) → Type 0 where
      here : {c d : Cell T R} (cs : List (Cell T R)) → Act c d → Some (c ∷ cs) (d ∷ cs)
      there : (c : Cell T R) {cs ds : List (Cell T R)} → Some cs ds → Some (c ∷ cs) (c ∷ ds)

    -- any interleaving: the loop sends to `sem` when there is room, or some goroutine acts
    pub data Step (limit : ℕ) : List (Cell T R) → List (Cell T R) → Type 0 where
      spawn : {cs ds : List (Cell T R)} → slots cs < limit → Spawn cs ds → Step limit cs ds
      act : {cs ds : List (Cell T R)} → Some cs ds → Step limit cs ds

    -- what has happened after a number of steps
    pub data Run (limit : ℕ) (cs : List (Cell T R)) : ℕ → List (Cell T R) → Type 0 where
      start : Run limit cs 0 cs
      next :
          {n : ℕ} {ds es : List (Cell T R)}
          → Run limit cs n ds
          → Step limit ds es
          → Run limit cs (suc n) es

  -- make([]R, len(items)), before the loop
  abbrev pub fresh : R → List T → List (Cell T R)
  fresh blank items = map (λ t. record { item = t; phase = waiting; out = blank }) items

  abbrev pub IsFinished : Cell T R → Type 0
  IsFinished c = c.phase ≡ finished

  -- wg.Wait() returns
  abbrev pub Waited : List (Cell T R) → Type 0
  Waited cs = All IsFinished cs

  abbrev pub results : List (Cell T R) → List R
  results cs = map (λ c. c.out) cs
