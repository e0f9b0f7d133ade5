-- ===== src/Fleet/Status/Clean.antt =====
-- What the operator's terminal is shown of a node's output.
use rucher.Base.Text.{char_cons}
use rucher.Fleet.Status.{Row, clean_row, sanitize, is_shown}
use rucher.Base.{
  ℕ, ◌==◌, ◌||◌, ltb, leb, not, ℕ, all, code, ◌≡◌, ◌&&◌, ◌∷◌, refl, ap, inl, inr, Bool, true,
  String, List, [], map, arith, string_eq, nat_eq, Bool-cases,
}

-- A newline, a tab, or a character neither below the space, nor DEL, nor from 128 to 159
abbrev pub is_harmless : ℕ → Bool
is_harmless c = c == 10 || c == 9 || (leb 32 c && not (c == 127) && (ltb c 128 || leb 160 c))

unfoldable pub all_shown : String → Bool
all_shown String.[] = true
all_shown (String.◌∷◌ c s) = is_harmless (code c) && all_shown s

shown-is_harmless : (c : ℕ) → is_shown c ≡ true → is_harmless c ≡ true
shown-is_harmless c h = ground (arith, h)

harmless-is_shown : (c : ℕ) → is_harmless c ≡ true → is_shown c ≡ true
harmless-is_shown c h = ground (arith, h)

sanitize-all_shown : (s : String) → all_shown (sanitize s) ≡ true
unfolding sanitize all_shown
sanitize-all_shown String.[] = refl
sanitize-all_shown (String.◌∷◌ c s) = elim (Bool-cases (is_shown (code c))) [
  | inl e ↦ rw (e, sanitize) (rw (shown-is_harmless (code c) e) (sanitize-all_shown s))
  | inr e ↦ rw (e, sanitize) (sanitize-all_shown s)
]

sanitize_clean : (s : String) → all_shown s ≡ true → sanitize s ≡ s
unfolding sanitize all_shown
sanitize_clean String.[] h = refl
sanitize_clean (String.◌∷◌ c s) h =
    let e : is_shown (code c) ≡ true = harmless-is_shown (code c) (ground arith) in
    rw e (ap (char_cons c) (sanitize_clean s (ground arith)))

map-sanitize-shown : (errors : List String) → all all_shown (map sanitize errors) ≡ true
map-sanitize-shown [] = refl
map-sanitize-shown (e ∷ errors) = rw (sanitize-all_shown e) (map-sanitize-shown errors)

map-sanitize-clean :
    (errors : List String) → all all_shown errors ≡ true → map sanitize errors ≡ errors
map-sanitize-clean [] h = refl
map-sanitize-clean (e ∷ errors) h =
    rw (sanitize_clean e (ground arith), map-sanitize-clean errors (ground arith)) refl

-- Whatever a node sent, the live status and the errors of its row have no character below the space but the
-- newline and the tab, no DEL and none from 128 to 159, and texts that have none to begin with are left as
-- they are.
pub clean_row-shown :
    (row : Row)
    → (all_shown (clean_row row).live ≡ true)
      × (all all_shown (clean_row row).errors ≡ true)
      × (all_shown row.live ≡ true → all all_shown row.errors ≡ true → clean_row row ≡ row)
unfolding clean_row
clean_row-shown row = (
  sanitize-all_shown row.live,
  map-sanitize-shown row.errors,
  λ l e. rw (sanitize_clean row.live l, map-sanitize-clean row.errors e) refl,
)
