-- ===== src/Placement.antt =====
-- internal/placement/placement.go: the cadres that a placement file assigns to a node.
use rucher.Base.{
  Distinct, ◌≡◌, ◌∙◌, ◌∷◌, refl, Bool, false, none, some, String, List, [], arith, eq_iff,
  if◌then◌else◌, string_eq, nat_eq, contains,
}
use rucher.Base.Dict.{Dict, lookup, keys, lookup_absent}
use rucher.Base.Sort.{sort}
use rucher.Base.Sort.Laws.{contains-sort}
use rucher.Base.Result.{Result, ok, with_context, ◌>>=◌}

-- the loop over f.Placements
unfoldable pub placed_on : String → Dict (List String) → List String
placed_on node [] = []
placed_on node ((name, nodes) ∷ placements) =
    let rest = placed_on node placements in if contains node nodes then name ∷ rest else rest

-- `Assigned`, over the YAML decoder that refuses unknown keys
unfoldable pub assigned :
    (String → Result (Dict (List String))) → String → String → Result (List String)
unfolding placed_on
assigned decode text node = do
  placements ← with_context "parse placement.yml" (decode text)
  ok (sort (placed_on node placements))

-- the file places the cadre on the node
abbrev pub is_placed : String → String → Dict (List String) → Bool
is_placed node name placements = elim (lookup name placements) [
  | none ↦ false
  | some nodes ↦ contains node nodes
]

contains-placed_on :
    (node name : String) (placements : Dict (List String))
    → Distinct (keys placements)
    → contains name (placed_on node placements) ≡ is_placed node name placements
unfolding placed_on
contains-placed_on node name [] d = refl
contains-placed_on node name ((k, nodes) ∷ placements) d =
    ground (
      arith,
      contains-placed_on node name placements d.1,
      eq_iff k name,
      lookup_absent k placements,
    )

-- For a placement file that decodes to a map, exactly the cadres whose list names the node are
-- assigned to it.
contains-assigned :
    (decode : String → Result (Dict (List String))) (text node name : String)
    (placements : Dict (List String)) (out : List String)
    → decode text ≡ ok placements
    → Distinct (keys placements)
    → assigned decode text node ≡ ok out
    → contains name out ≡ is_placed node name placements
unfolding assigned
contains-assigned decode text node name placements out e d h =
    let same : sort (placed_on node placements) ≡ out = cc (rw e at h) in
    rw (← same)
      (contains-sort name (placed_on node placements) ∙ contains-placed_on node name placements d)
