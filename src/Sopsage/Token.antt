-- ===== src/Sopsage/Token.antt =====
-- internal/sopsage/cipher.go: the text of an encrypted value, and the regular expression that reads it.
use text.Mathlib.TextLemmas.{nil-append, cons-append, append-nil}
use rucher.Base.{
  ◌≡◌, ◌∙◌, ◌==◌, ◌<>◌, refl, ap, Bool, true, false, Option, none, some, String, arith,
  if◌then◌else◌, string_eq, nat_eq, code, Char,
}
use rucher.Base.Base64.{IsPlain}
use rucher.Base.Text.{is_some, cut_prefix, char_cons}

module _ {ℓ} {R : Type ℓ} (sep : String) (next : String → Option R) where
  -- the separator and what follows it
  behind_sep : String → Option (String × R)
  behind_sep s = elim (cut_prefix sep s) [
    | none ↦ none
    | some t ↦ elim (next t) [ none ↦ none | some r ↦ some ("", r) ]
  ]

  -- a group `(.*)` with its separator, as long as what follows can still match
  group : String → Option (String × R)
  unfolding behind_sep
  group String.[] = behind_sep ""
  group (String.◌∷◌ c s) = elim (if code c == b'\n' then none else group s) [
    | some (g, r) ↦ some (char_cons c g, r)
    | none ↦ behind_sep (char_cons c s)
  ]

-- `\]$`
at_end : String → Option (Unit {0})
at_end s = if s == "" then some tt else none

pub record Token : Type 0 where
  pub text : String
  pub iv : String
  pub tag : String
  pub typ : String

token_of : String × (String × (String × (String × Unit {0}))) → Token
token_of (d, (i, (t, (y, _)))) = record { text = d; iv = i; tag = t; typ = y }

read_groups : String → Option (String × (String × (String × (String × Unit {0}))))
unfolding group at_end
read_groups = group ",iv:" (group ",tag:" (group ",type:" (group "]" at_end)))

token_from : Option (String × (String × (String × (String × Unit {0})))) → Option Token
unfolding token_of
token_from none = none
token_from (some g) = some (token_of g)

read_behind : Option String → Option Token
unfolding read_groups token_from
read_behind none = none
read_behind (some t) = token_from (read_groups t)

-- encRE.FindStringSubmatch
unfoldable pub read_token : String → Option Token
unfolding read_behind cut_prefix
read_token s = read_behind (cut_prefix "ENC[AES256_GCM,data:" s)

-- `isEncValue`
unfoldable pub is_enc_value : String → Bool
is_enc_value s = is_some (read_token s)

print_fields : Token → String
print_fields t =
    t.text <> (",iv:" <> (t.iv <> (",tag:" <> (t.tag <> (",type:" <> (t.typ <> "]"))))))

-- the text that `encryptScalar` formats
unfoldable pub print_token : Token → String
unfolding print_fields
print_token t = "ENC[AES256_GCM,data:" <> print_fields t

read_token_runs :
    read_token "ENC[AES256_GCM,data:aa==,iv:bb,tag:,type:str]"
    ≡ some (record { text = "aa=="; iv = "bb"; tag = ""; typ = "str" })
unfolding read_token cut_prefix
read_token_runs = refl

cut_prefix-append : (p s : String) → cut_prefix p (p <> s) ≡ some s
unfolding cut_prefix
cut_prefix-append String.[] s = rw nil-append refl
cut_prefix-append (String.◌∷◌ c p) s = rw cons-append (rw (cut_prefix-append p s) (ground (arith)))

module _ {ℓ} {R : Type ℓ} (sep : String) (next : String → Option R) where
  group-append :
      (x s : String) {g : String} {r : R}
      → IsPlain x
      → group sep next s ≡ some (g, r)
      → group sep next (x <> s) ≡ some (x <> g, r)
  unfolding group
  group-append String.[] s {g} h e = rw (nil-append s) (rw (nil-append g) e)
  group-append (String.◌∷◌ c x) s {g} {r} h e =
      rw (cons-append c x s)
        (rw (cons-append c x g) (rw (group-append x s h.1 e, group) (ground (arith, h.0))))

module _ {ℓ} {R : Type ℓ} (sep : String) (next : String → Option R) where
  -- A separator that starts with a comma is not found in a text without one.
  group-none :
      (x s : String)
      → IsPlain x
      → group (char_cons "," sep) next s ≡ none
      → group (char_cons "," sep) next (x <> s) ≡ none
  unfolding group behind_sep cut_prefix
  group-none String.[] s h e = rw nil-append e
  group-none (String.◌∷◌ c x) s h e =
      rw (cons-append c x s) (rw (group-none x s h.1 e, group) (ground (arith, h.0)))

  -- The first place of the separator, when there is no other.
  group_here :
      (s : String) {r : R}
      → IsPlain sep
      → next s ≡ some r
      → group (char_cons "," sep) next s ≡ none
      → group (char_cons "," sep) next (char_cons "," sep <> s) ≡ some ("", r)
  unfolding group behind_sep cut_prefix
  group_here s {r} h e absent =
      rw (cons-append "," sep s)
        (rw (group-none sep s h absent, group) (rw (cut_prefix-append sep s) (rw e refl)))

  -- Another separator in front does not help.
  group_other :
      (other s : String)
      → IsPlain other
      → cut_prefix sep (other <> s) ≡ none
      → group (char_cons "," sep) next s ≡ none
      → group (char_cons "," sep) next (char_cons "," other <> s) ≡ none
  unfolding group behind_sep cut_prefix
  group_other other s h differs absent =
      rw (cons-append "," other s) (rw (group-none other s h absent, group) (rw differs refl))

  none_at_end : (y : String) → IsPlain y → group (char_cons "," sep) next (y <> "]") ≡ none
  unfolding group behind_sep cut_prefix
  none_at_end y h = group-none y "]" h refl

cut_prefix_other :
    (c d : Char) (p q s : String)
    → (code c == code d) ≡ false
    → cut_prefix (char_cons c p) (char_cons d q <> s) ≡ none
unfolding cut_prefix
cut_prefix_other c d p q s h = rw (cons-append d q s) (rw h refl)

abbrev pub IsPlainToken : Token → Type 0
IsPlainToken t = IsPlain t.text × IsPlain t.iv × IsPlain t.tag × IsPlain t.typ

type_group : (y : String) → IsPlain y → group "]" at_end (y <> "]") ≡ some (y, tt)
unfolding group behind_sep at_end cut_prefix
type_group y h = group-append "]" at_end y "]" h refl ∙ rw append-nil refl

tag_type : (s : String) → cut_prefix "tag:" ("type:" <> s) ≡ none
unfolding cut_prefix
tag_type s = rw (cons-append "t" "ype:" s) (rw (cut_prefix_other "a" "y" "g:" "pe:" s refl) refl)

module _ (y : String) (Y : IsPlain y) where
  no_type : group ",type:" (group "]" at_end) (y <> "]") ≡ none
  no_type = none_at_end "type:" _ y Y

  tag_groups :
      (t : String)
      → IsPlain t
      → group ",type:" (group "]" at_end) (t <> (",type:" <> (y <> "]"))) ≡ some (t, (y, tt))
  tag_groups t T =
      group-append ",type:" _ t _ T (
        group_here "type:" _ (y <> "]") (refl, (refl, (refl, (refl, (refl, tt))))) (type_group y Y)
          no_type)
      ∙ rw append-nil refl

  no_tag :
      (t : String)
      → IsPlain t
      → group ",tag:" (group ",type:" (group "]" at_end)) (t <> (",type:" <> (y <> "]"))) ≡ none
  no_tag t T = group-none "tag:" _ t _ T (
      group_other "tag:" _ "type:" (y <> "]") (refl, (refl, (refl, (refl, (refl, tt)))))
        (tag_type (y <> "]")) (none_at_end "tag:" _ y Y))

  iv_groups :
      (i t : String)
      → IsPlain i
      → IsPlain t
      → group ",tag:"
          (group ",type:" (group "]" at_end))
          (i <> (",tag:" <> (t <> (",type:" <> (y <> "]")))))
        ≡ some (i, (t, (y, tt)))
  iv_groups i t I T =
      group-append ",tag:" _ i _ I (
        group_here "tag:" _ (t <> (",type:" <> (y <> "]"))) (refl, (refl, (refl, (refl, tt))))
          (tag_groups t T) (no_tag t T))
      ∙ rw append-nil refl

  no_iv :
      (i t : String)
      → IsPlain i
      → IsPlain t
      → group ",iv:"
          (group ",tag:" (group ",type:" (group "]" at_end)))
          (i <> (",tag:" <> (t <> (",type:" <> (y <> "]")))))
        ≡ none
  no_iv i t I T = group-none "iv:" _ i _ I (
      group_other "iv:" _ "tag:" _ (refl, (refl, (refl, (refl, tt))))
        (cut_prefix_other "i" "t" "v:" "ag:" _ refl)
        (group-none "iv:" _ t _ T (
          group_other "iv:" _ "type:" _ (refl, (refl, (refl, (refl, (refl, tt)))))
            (cut_prefix_other "i" "t" "v:" "ype:" _ refl) (none_at_end "iv:" _ y Y))))

  text_groups :
      (d i t : String)
      → IsPlain d
      → IsPlain i
      → IsPlain t
      → group ",iv:"
          (group ",tag:" (group ",type:" (group "]" at_end)))
          (d <> (",iv:" <> (i <> (",tag:" <> (t <> (",type:" <> (y <> "]")))))))
        ≡ some (d, (i, (t, (y, tt))))
  text_groups d i t D I T =
      group-append ",iv:" _ d _ D
        (group_here "iv:" _ _ (refl, (refl, (refl, tt))) (iv_groups i t I T) (no_iv i t I T))
      ∙ rw append-nil refl

-- A token whose parts have no comma and no line break is read back.
pub read_token-print_token : (t : Token) → IsPlainToken t → read_token (print_token t) ≡ some t
unfolding read_token print_token
read_token-print_token t h =
    ap read_behind (cut_prefix-append "ENC[AES256_GCM,data:" (print_fields t))
    ∙ ap token_from (text_groups t.typ h.3 t.text t.iv t.tag h.0 h.1 h.2)

pub is_enc_value-print_token : (t : Token) → IsPlainToken t → is_enc_value (print_token t) ≡ true
unfolding is_enc_value
is_enc_value-print_token t h = rw (read_token-print_token t h) refl

-- A value that is empty is no token.
pub is_enc_value_empty : is_enc_value "" ≡ false
unfolding is_enc_value read_token
is_enc_value_empty = refl
