-- ===== src/Parallel/Progress.antt =====
-- How many goroutines of `Map` hold a slot, and that every interleaving goes on to its end.
use rucher.Base.{
  if◌then◌else◌, ℕ, zero, suc, ◌+◌, ◌≤◌, ◌<◌, ◌≡◌, ◌⊎◌, ◌∷◌, refl, inl, inr, Option, List, [],
  arith, string_eq, nat_eq,
}
use rucher.Base.{length, ◌*◌}
use rucher.Base.Int.{ℤ, pos, negsuc}
use rucher.Parallel.{
  holds_slot, Phase, waiting, running, written, released, finished, Cell, capacity, slots, Spawn,
  first, later, call, release, finish, Some, here, there, Step, spawn, act, Run, start, next, fresh,
  Waited,
}

-- the steps that a goroutine has left
abbrev left : Phase → ℕ
left waiting = 4
left running = 3
left written = 2
left released = 1
left finished = 0

abbrev pub is_calling : Phase → ℕ
is_calling waiting = 0
is_calling running = 1
is_calling written = 0
is_calling released = 0
is_calling finished = 0

phase-slots : (p : Phase) (m n : ℕ) → m ≤ n → is_calling p + m ≤ (if holds_slot p then 1 else 0) + n
phase-slots waiting m n h = omega arith
phase-slots running m n h = omega arith
phase-slots written m n h = omega arith
phase-slots released m n h = omega arith
phase-slots finished m n h = omega arith

module _ {T R : Type 0} where
  abbrev total : List (Cell T R) → ℕ
  total [] = 0
  total (c ∷ cs) = left c.phase + total cs

  -- the goroutines whose call of `fn` has begun or may begin, and is not over
  abbrev pub calling : List (Cell T R) → ℕ
  calling [] = 0
  calling (c ∷ cs) = is_calling c.phase + calling cs

  calling-slots : (cs : List (Cell T R)) → calling cs ≤ slots cs
  unfolding slots
  calling-slots [] = omega arith
  calling-slots (c ∷ cs) = phase-slots c.phase (calling cs) (slots cs) (calling-slots cs)

  Spawn-slots : {cs ds : List (Cell T R)} → Spawn cs ds → slots ds ≡ suc (slots cs)
  unfolding slots
  Spawn-slots (first c cs w) = ground (arith, w)
  Spawn-slots (later c w s) = ground (arith, Spawn-slots s)

  Spawn-total : {cs ds : List (Cell T R)} → Spawn cs ds → suc (total ds) ≡ total cs
  Spawn-total (first c cs w) = ground (arith, w)
  Spawn-total (later c w s) = ground (arith, Spawn-total s)

  total-fresh : (blank : R) (items : List T) → total (fresh blank items) ≡ 4 * length items
  total-fresh blank [] = refl
  total-fresh blank (t ∷ ts) = ground (arith, total-fresh blank ts)

  slots-fresh : (blank : R) (items : List T) → slots (fresh blank items) ≡ 0
  unfolding slots
  slots-fresh blank [] = refl
  slots-fresh blank (t ∷ ts) = ground (arith, slots-fresh blank ts)

module _ {T R : Type 0} (fn : T → Option R) (blank : R) where
  Some-slots : {cs ds : List (Cell T R)} → Some fn blank cs ds → slots ds ≤ slots cs
  unfolding slots
  Some-slots (here cs (call c e)) = ground (arith, e)
  Some-slots (here cs (release c e)) = ground (arith, e)
  Some-slots (here cs (finish c e)) = ground (arith, e)
  Some-slots (there c s) = ground (arith, Some-slots s)

  Some-total : {cs ds : List (Cell T R)} → Some fn blank cs ds → suc (total ds) ≡ total cs
  Some-total (here cs (call c e)) = ground (arith, e)
  Some-total (here cs (release c e)) = ground (arith, e)
  Some-total (here cs (finish c e)) = ground (arith, e)
  Some-total (there c s) = ground (arith, Some-total s)

  -- Never do more goroutines hold a slot than the channel has room for.
  Run-slots :
      (items : List T) (limit n : ℕ) (cs : List (Cell T R))
      → Run fn blank limit (fresh blank items) n cs
      → slots cs ≤ limit
  Run-slots items limit n cs start = rw slots-fresh (omega arith)
  Run-slots items limit n cs (next r (spawn room s)) = ground (arith, Spawn-slots s)
  Run-slots items limit n cs (next {ds = ds} r (act s)) =
      ground (arith, Some-slots s, Run-slots items limit _ ds r)

  -- Every interleaving ends: each step is one of the four that an item has, so the steps taken and the
  -- steps left are four for each item.
  Run-bounded :
      (items : List T) (limit n : ℕ) (cs : List (Cell T R))
      → Run fn blank limit (fresh blank items) n cs
      → n + total cs ≡ 4 * length items
  Run-bounded items limit n cs start = ground (arith, total-fresh blank items)
  Run-bounded items limit n cs (next {ds = ds} r (spawn room s)) =
      ground (arith, Spawn-total s, Run-bounded items limit _ ds r)
  Run-bounded items limit n cs (next {ds = ds} r (act s)) =
      ground (arith, Some-total s, Run-bounded items limit _ ds r)

  -- Some goroutine can act, or no slot is held and the loop is over or can go on.
  data Ahead (cs : List (Cell T R)) : Type 0 where
    acts : (ds : List (Cell T R)) → Some fn blank cs ds → Ahead cs
    over : slots cs ≡ 0 → Waited cs → Ahead cs
    goes_on : slots cs ≡ 0 → (ds : List (Cell T R)) → Spawn cs ds → Ahead cs

  Ahead-waiting :
      (c : Cell T R) (cs : List (Cell T R)) → c.phase ≡ waiting → Ahead cs → Ahead (c ∷ cs)
  unfolding slots
  Ahead-waiting c cs w (acts ds s) = acts (c ∷ ds) (there c s)
  Ahead-waiting c cs w (over z all) = goes_on (ground (arith, w)) _ (first c cs w)
  Ahead-waiting c cs w (goes_on z ds s) = goes_on (ground (arith, w)) _ (first c cs w)

  Ahead-finished :
      (c : Cell T R) (cs : List (Cell T R)) → c.phase ≡ finished → Ahead cs → Ahead (c ∷ cs)
  unfolding slots
  Ahead-finished c cs w (acts ds s) = acts (c ∷ ds) (there c s)
  Ahead-finished c cs w (over z all) = over (ground (arith, w)) (w, all)
  Ahead-finished c cs w (goes_on z ds s) =
      goes_on (ground (arith, w)) (c ∷ ds) (later c (λ e. cc (e, w)) s)

  Ahead-phase :
      (p : Phase) (c : Cell T R) (cs : List (Cell T R)) → c.phase ≡ p → Ahead cs → Ahead (c ∷ cs)
  Ahead-phase waiting c cs e h = Ahead-waiting c cs e h
  Ahead-phase running c cs e h = acts _ (here cs (call c e))
  Ahead-phase written c cs e h = acts _ (here cs (release c e))
  Ahead-phase released c cs e h = acts _ (here cs (finish c e))
  Ahead-phase finished c cs e h = Ahead-finished c cs e h

  ahead : (cs : List (Cell T R)) → Ahead cs
  unfolding slots
  ahead [] = over refl tt
  ahead (c ∷ cs) = Ahead-phase c.phase c cs refl (ahead cs)

  -- With a channel that has room for one value `Map` never gets stuck: in every state the wait group
  -- lets it return, or a step is possible.
  pub Step-progress :
      (limit : ℕ) (cs : List (Cell T R))
      → 0 < limit
      → Waited cs ⊎ ((ds : List (Cell T R)) × Step fn blank limit cs ds)
  Step-progress limit cs room = elim (ahead cs) [
    | acts ds s ↦ inr (ds, act s)
    | over z all ↦ inl all
    | goes_on z ds s ↦ inr (ds, spawn (omega arith) s)
  ]

-- The channel that `Map` makes for a list of items that is not empty has room.
capacity-positive : (n : ℕ) (limit : ℤ) → 0 < n → 0 < capacity n limit
unfolding capacity
capacity-positive n (pos limit) h = ground arith
capacity-positive n (negsuc limit) h = h

module _ {T R : Type 0} (fn : T → Option R) (blank : R) where
  Run-progress :
      (items : List T) (limit : ℤ) (n : ℕ) (cs : List (Cell T R))
      → Run fn blank (capacity (length items) limit) (fresh blank items) n cs
      → Waited cs ⊎ ((ds : List (Cell T R)) × Step fn blank (capacity (length items) limit) cs ds)
  Run-progress [] limit zero cs start = inl tt
  Run-progress [] limit (suc n) cs r =
      absurd (ground (arith, Run-bounded fn blank [] (capacity 0 limit) (suc n) cs r))
  Run-progress (t ∷ ts) limit n cs r =
      Step-progress fn blank _ cs (capacity-positive (length (t ∷ ts)) limit (omega arith))

  -- However the goroutines interleave, `Map` returns, for every limit: a run of any length has at most four
  -- steps for each item, and where the wait group does not let `Map` go on yet, another step is possible. So no
  -- run is without end, and none is stuck before the end.
  pub Map-returns :
      (items : List T) (limit : ℤ) (n : ℕ) (cs : List (Cell T R))
      → Run fn blank (capacity (length items) limit) (fresh blank items) n cs
      → (n ≤ 4 * length items)
        × (Waited cs
            ⊎ ((ds : List (Cell T R)) × Step fn blank (capacity (length items) limit) cs ds))
  Map-returns items limit n cs r = (
    ground (arith, Run-bounded fn blank items (capacity (length items) limit) n cs r),
    Run-progress items limit n cs r,
  )

  -- Never are more calls of `fn` begun and not over than a limit that is positive.
  pub Run-calls :
      (items : List T) (limit n : ℕ) (cs : List (Cell T R))
      → 0 < limit
      → Run fn blank (capacity (length items) (pos limit)) (fresh blank items) n cs
      → calling cs ≤ limit
  unfolding capacity
  Run-calls items limit n cs positive r = ground (
    arith,
    calling-slots cs,
    Run-slots fn blank items (capacity (length items) (pos limit)) n cs r,
  )
