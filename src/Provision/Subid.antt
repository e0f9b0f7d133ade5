-- ===== src/Provision/Subid.antt =====
-- `nextSubidStart` and `hasSubid` of internal/provision/provision.go: the blocks of subordinate ids
-- that /etc/subuid and /etc/subgid give away.
use rucher.Base.Int.{int_ltb_asym, not_int_ltb_trans, int_ltb_irrefl, ℤ, pos, add64, int_ltb}
use rucher.Base.Decimal.{atoi}
use rucher.Base.Text.{trim_space, split, has_prefix}
use rucher.Base.{
  ap, inr, eq_iff, inl, ◌==◌, arith, Bool-cases, ◌||◌, true, false, contains, ◌≡◌, any, ◌<>◌, ◌∷◌,
  Bool, Option, none, some, String, List, [], if◌then◌else◌, string_eq, nat_eq,
}

abbrev pub subid_count : ℤ
subid_count = pos 65536

abbrev pub subid_base : ℤ
subid_base = pos 100000

-- the block of a line with two colons and two numbers
unfoldable pub block_of : List String → Option (ℤ × ℤ)
block_of (name ∷ start ∷ count ∷ []) = elim (atoi start) [
  | none ↦ none
  | some s ↦ elim (atoi count) [ none ↦ none | some n ↦ some (s, n) ]
]
block_of _ = none

unfoldable pub parse_block : String → Option (ℤ × ℤ)
unfolding block_of
parse_block line = block_of (split b':' (trim_space line))

-- `if end > max { max = end }`
unfoldable pub max_int : ℤ → ℤ → ℤ
max_int top end = if int_ltb top end then end else top

abbrev raise_block : ℤ → Option (ℤ × ℤ) → ℤ
raise_block top none = top
raise_block top (some (start, count)) = max_int top (add64 start count)

-- one round of the inner loop
unfoldable pub raise_max : ℤ → String → ℤ
unfolding max_int
raise_max top line = raise_block top (parse_block line)

unfoldable pub scan_blocks : ℤ → List String → ℤ
scan_blocks top [] = top
scan_blocks top (line ∷ lines) = scan_blocks (raise_max top line) lines

unfoldable pub next_subid_start : String → String → ℤ
next_subid_start subuid subgid =
    scan_blocks (scan_blocks subid_base (split b'\n' subuid)) (split b'\n' subgid)

unfoldable pub has_subid : String → String → Bool
has_subid subuid name =
    any (λ line. has_prefix (trim_space line) (name <> ":")) (split b'\n' subuid)

max_int_grows : (a b : ℤ) → int_ltb (max_int a b) a ≡ false
unfolding max_int
max_int_grows a b = elim (Bool-cases (int_ltb a b)) [
  | inl g ↦ rw g (int_ltb_asym a b g)
  | inr g ↦ rw g (int_ltb_irrefl a)
]

max_int_covers : (a b : ℤ) → int_ltb (max_int a b) b ≡ false
unfolding max_int
max_int_covers a b = elim (Bool-cases (int_ltb a b)) [
  | inl g ↦ rw g (int_ltb_irrefl b)
  | inr g ↦ rw g g
]

raise_block_grows : (top : ℤ) (b : Option (ℤ × ℤ)) → int_ltb (raise_block top b) top ≡ false
raise_block_grows top none = int_ltb_irrefl top
raise_block_grows top (some (start, count)) = max_int_grows top (add64 start count)

raise_max_grows : (top : ℤ) (line : String) → int_ltb (raise_max top line) top ≡ false
unfolding raise_max
raise_max_grows top line = raise_block_grows top (parse_block line)

scan_blocks_grows : (top : ℤ) (lines : List String) → int_ltb (scan_blocks top lines) top ≡ false
unfolding scan_blocks
scan_blocks_grows top [] = int_ltb_irrefl top
scan_blocks_grows top (line ∷ lines) =
    not_int_ltb_trans top (raise_max top line) (scan_blocks (raise_max top line) lines)
      (raise_max_grows top line) (scan_blocks_grows (raise_max top line) lines)

raise_max-block :
    (top : ℤ) (line : String) (start count : ℤ)
    → parse_block line ≡ some (start, count)
    → raise_max top line ≡ max_int top (add64 start count)
unfolding raise_max
raise_max-block top line start count e = ap (raise_block top) e

raise_max_covers :
    (top : ℤ) (line : String) (start count : ℤ)
    → parse_block line ≡ some (start, count)
    → int_ltb (raise_max top line) (add64 start count) ≡ false
raise_max_covers top line start count e =
    rw (raise_max-block top line start count e) (max_int_covers top (add64 start count))

scan_blocks_covers :
    (top : ℤ) (lines : List String) (line : String) (start count : ℤ)
    → contains line lines ≡ true
    → parse_block line ≡ some (start, count)
    → int_ltb (scan_blocks top lines) (add64 start count) ≡ false
unfolding scan_blocks
scan_blocks_covers top [] line start count c e = ground arith
scan_blocks_covers top (l ∷ lines) line start count c e = elim (Bool-cases (l == line)) [
  | inl same ↦
      not_int_ltb_trans (add64 start count) (raise_max top l) (scan_blocks (raise_max top l) lines)
        (raise_max_covers top l start count (rw ((eq_iff l line).0 same) e))
        (scan_blocks_grows (raise_max top l) lines)
  | inr other ↦ scan_blocks_covers (raise_max top l) lines line start count (ground arith) e
]

-- The block that is given to a new user begins at or behind the end of every block that a line of
-- either map gives away (the end on 64 bits), and at or behind 100000.
pub next_subid_start_covers :
    (subuid subgid line : String) (start count : ℤ)
    → (contains line (split b'\n' subuid) || contains line (split b'\n' subgid)) ≡ true
    → parse_block line ≡ some (start, count)
    → (int_ltb (next_subid_start subuid subgid) (add64 start count) ≡ false)
      × (int_ltb (next_subid_start subuid subgid) subid_base ≡ false)
unfolding next_subid_start
next_subid_start_covers subuid subgid line start count c e =
    let first = scan_blocks subid_base (split b'\n' subuid) in
    let grows = scan_blocks_grows first (split b'\n' subgid) in
    (
      elim (Bool-cases (contains line (split b'\n' subuid))) [
        | inl here ↦
            not_int_ltb_trans _ first _
              (scan_blocks_covers subid_base (split b'\n' subuid) line start count here e) grows
        | inr there ↦
            scan_blocks_covers first (split b'\n' subgid) line start count (ground arith) e
      ],
      not_int_ltb_trans subid_base first _ (scan_blocks_grows subid_base (split b'\n' subuid))
          grows,
    )
