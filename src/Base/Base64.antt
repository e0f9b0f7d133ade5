-- ===== src/Base/Base64.antt =====
-- encoding/base64 with the standard alphabet, over lists of byte values. The position in the text of a
-- decoding error is left out.
use Prim.Native.Nat.{ℕ, zero, suc, ◌+◌, ◌*◌, ◌/◌, ◌%◌, ◌<◌}
use Prim.Native.Char.{Char, code, nul}
use Prim.Native.String.{String}
use mathlib.Core.Path.{◌≡◌, refl, ap, ◌∙◌}
use mathlib.Core.Bool.{Bool, true, false, ◌&&◌, ◌||◌, not}
use mathlib.Core.List.{List, [], ◌∷◌}
use native.Mathlib.Omega.{arith}
use rucher.Base.Tests.{◌==◌, string_eq, nat_eq, nat_beq_iff, if◌then◌else◌}
use rucher.Base.Lists.{All}
use rucher.Base.Text.{char_cons}
use rucher.Base.Result.{Result, ok, err, ◌>>=◌}

abbrev pub Bytes : Type 0
Bytes = List ℕ

abbrev pub IsBytes : Bytes → Type 0
IsBytes = All (λ b. b < 256)

alphabet : String
alphabet = "ABCDEFGHIJKLMNOPQRSTUVWXYZabcdefghijklmnopqrstuvwxyz0123456789+/"

char_in : String → ℕ → Char
char_in String.[] n = nul
char_in (String.◌∷◌ c s) zero = c
char_in (String.◌∷◌ c s) (suc n) = char_in s n

digit : ℕ → Char
unfolding char_in alphabet
digit n = char_in alphabet n

value_in : String → ℕ → Char → Result ℕ
value_in String.[] n c = err "illegal base64 data"
value_in (String.◌∷◌ d s) n c =
    let rest = value_in s (n + 1) c in if code d == code c then ok n else rest

value : Char → Result ℕ
unfolding value_in alphabet
value c = value_in alphabet 0 c

pub encode : Bytes → String
unfolding digit
encode [] = ""
encode (a ∷ []) = char_cons (digit (a / 4)) (char_cons (digit (a % 4 * 16)) "==")
encode (a ∷ b ∷ []) =
    char_cons (digit (a / 4))
      (char_cons (digit (a % 4 * 16 + b / 16)) (char_cons (digit (b % 16 * 4)) "="))
encode (a ∷ b ∷ c ∷ rest) = char_cons (digit (a / 4)) (
    char_cons (digit (a % 4 * 16 + b / 16))
      (char_cons (digit (b % 16 * 4 + c / 64)) (char_cons (digit (c % 64)) (encode rest))))

bad : Result Bytes
bad = err "illegal base64 data"

-- the bytes of a group of four whose third character stands for z
decode_three : ℕ → ℕ → ℕ → Char → Result Bytes → Bool → Result Bytes
decode_three x y z d rest last =
    if code d == b'='
    then if last then ok ((x * 4 + y / 16) ∷ (y % 16 * 16 + z / 4) ∷ []) else bad
    else do
      w ← value d
      bytes ← rest
      ok ((x * 4 + y / 16) ∷ (y % 16 * 16 + z / 4) ∷ (z % 4 * 64 + w) ∷ bytes)

-- the bytes of a group of four whose first two characters stand for x and y
decode_two : ℕ → ℕ → Char → Char → Result Bytes → Bool → Result Bytes
decode_two x y c d rest last =
    if code c == b'='
    then if code d == b'=' && last then ok ((x * 4 + y / 16) ∷ []) else bad
    else do z ← value c; decode_three x y z d rest last

decode_groups : String → Result Bytes
decode_groups String.[] = ok []
decode_groups (String.◌∷◌ a (String.◌∷◌ b (String.◌∷◌ c (String.◌∷◌ d rest)))) = do
  x ← value a
  y ← value b
  decode_two x y c d (decode_groups rest) (rest == "")
decode_groups _ = bad

-- Newlines are skipped.
without_newlines : String → String
without_newlines String.[] = ""
without_newlines (String.◌∷◌ c s) =
    let rest = without_newlines s in
    if code c == b'\n' || code c == b'\r' then rest else char_cons c rest

pub decode : String → Result Bytes
unfolding decode_groups without_newlines
decode s = decode_groups (without_newlines s)

decode_runs : decode "UnVj\naGVyIQ==" ≡ ok (82 ∷ 117 ∷ 99 ∷ 104 ∷ 101 ∷ 114 ∷ 33 ∷ [])
unfolding decode decode_groups decode_two decode_three value
decode_runs = refl

-- what is used of the digits, checked for each of the 64
all_below : ℕ → (ℕ → Bool) → Bool
all_below zero p = true
all_below (suc n) p = p n && all_below n p

all_below_lem : (n x : ℕ) (p : ℕ → Bool) → all_below n p ≡ true → x < n → p x ≡ true
unfolding all_below
all_below_lem zero x p h lt = absurd (omega arith)
all_below_lem (suc n) x p h lt = ground (arith, all_below_lem n x p)

abbrev reads_back : ℕ → Result ℕ → Bool
reads_back n (ok m) = m == n
reads_back n (err e) = false

reads_back-ok : (n : ℕ) (r : Result ℕ) → reads_back n r ≡ true → r ≡ ok n
reads_back-ok n (ok m) h = ap ok ((nat_beq_iff m n).0 h)
reads_back-ok n (err e) h = cc

abbrev is_plain : Char → Bool
is_plain c = not (code c == b',' || code c == b'\n' || code c == b'\r')

digits_table :
    all_below 64
      (λ n. reads_back n (value (digit n)) && not (code (digit n) == b'=') && is_plain (digit n))
    ≡ true
unfolding all_below value digit
digits_table = refl

digit_lem :
    (n : ℕ)
    → n < 64
    → (reads_back n (value (digit n)) && not (code (digit n) == b'=') && is_plain (digit n)) ≡ true
digit_lem n lt = all_below_lem 64 n _ digits_table lt

value-digit : (n : ℕ) → n < 64 → value (digit n) ≡ ok n
value-digit n lt = reads_back-ok n (value (digit n)) (ground (arith, digit_lem n lt))

digit-is_plain : (n : ℕ) → n < 64 → is_plain (digit n) ≡ true
digit-is_plain n lt = ground (arith, digit_lem n lt)

digit-ne-pad : (n : ℕ) → n < 64 → (code (digit n) == b'=') ≡ false
digit-ne-pad n lt = ground (arith, digit_lem n lt)

-- no comma and no line break
abbrev pub IsPlain : String → Type 0
IsPlain String.[] = Unit
IsPlain (String.◌∷◌ c s) = (is_plain c ≡ true) × IsPlain s

pub encode-IsPlain : (bs : Bytes) → IsBytes bs → IsPlain (encode bs)
unfolding encode
encode-IsPlain [] h = tt
encode-IsPlain (a ∷ []) h = (
  digit-is_plain (a / 4) (omega arith),
  (digit-is_plain (a % 4 * 16) (omega arith), (refl, (refl, tt))),
)
encode-IsPlain (a ∷ b ∷ []) h = (
  digit-is_plain (a / 4) (omega arith),
  (
    digit-is_plain (a % 4 * 16 + b / 16) (omega arith),
    (digit-is_plain (b % 16 * 4) (omega arith), (refl, tt)),
  ),
)
encode-IsPlain (a ∷ b ∷ c ∷ rest) h = (
  digit-is_plain (a / 4) (omega arith),
  (
    digit-is_plain (a % 4 * 16 + b / 16) (omega arith),
    (
      digit-is_plain (b % 16 * 4 + c / 64) (omega arith),
      (digit-is_plain (c % 64) (omega arith), encode-IsPlain rest h.1.1.1),
    ),
  ),
)

without_newlines-IsPlain : (s : String) → IsPlain s → without_newlines s ≡ s
unfolding without_newlines
without_newlines-IsPlain String.[] h = refl
without_newlines-IsPlain (String.◌∷◌ c s) h =
    rw (without_newlines-IsPlain s h.1) (ground (arith, h.0))

decode_three-digit :
    (x y z w : ℕ) (rest : Result Bytes) (last : Bool)
    → w < 64
    → decode_three x y z (digit w) rest last
      ≡ (rest >>= λ bytes. ok ((x * 4 + y / 16) ∷ (y % 16 * 16 + z / 4) ∷ (z % 4 * 64 + w) ∷ bytes))
unfolding decode_three
decode_three-digit x y z w rest last lt = rw (digit-ne-pad w lt) (rw (value-digit w lt) refl)

decode_two-digit :
    (x y z : ℕ) (d : Char) (rest : Result Bytes) (last : Bool)
    → z < 64
    → decode_two x y (digit z) d rest last ≡ decode_three x y z d rest last
unfolding decode_two
decode_two-digit x y z d rest last lt = rw (digit-ne-pad z lt) (rw (value-digit z lt) refl)

decode_groups-digits :
    (x y : ℕ) (c d : Char) (rest : String)
    → x < 64
    → y < 64
    → decode_groups (char_cons (digit x) (char_cons (digit y) (char_cons c (char_cons d rest))))
      ≡ decode_two x y c d (decode_groups rest) (rest == "")
unfolding decode_groups
decode_groups-digits x y c d rest lt lu = rw (value-digit x lt) (rw (value-digit y lu) refl)

decode_groups-encode : (bs : Bytes) → IsBytes bs → decode_groups (encode bs) ≡ ok bs
unfolding encode
decode_groups-encode [] h = unfold decode_groups in refl
decode_groups-encode (a ∷ []) h =
    decode_groups-digits (a / 4) (a % 4 * 16) _ _ _ (omega arith) (omega arith)
    ∙ unfold decode_two in ground arith
decode_groups-encode (a ∷ b ∷ []) h =
    decode_groups-digits (a / 4) (a % 4 * 16 + b / 16) _ _ _ (omega arith) (omega arith)
    ∙ decode_two-digit _ _ (b % 16 * 4) _ _ _ (omega arith)
    ∙ unfold decode_three in ground arith
decode_groups-encode (a ∷ b ∷ c ∷ rest) h =
    decode_groups-digits (a / 4) (a % 4 * 16 + b / 16) _ _ _ (omega arith) (omega arith)
    ∙ decode_two-digit _ _ (b % 16 * 4 + c / 64) _ _ _ (omega arith)
    ∙ decode_three-digit _ _ _ (c % 64) _ _ (omega arith)
    ∙ rw (decode_groups-encode rest h.1.1.1) (ground arith)

pub decode-encode : (bs : Bytes) → IsBytes bs → decode (encode bs) ≡ ok bs
unfolding decode
decode-encode bs h =
    rw (without_newlines-IsPlain (encode bs) (encode-IsPlain bs h)) (decode_groups-encode bs h)
