-- ===== src/Tests/Sopsage.antt =====
-- A file of secrets with one value, over a toy cipher.
use rucher.Base.{
  ℕ, zero, suc, ◌≡◌, ◌≢◌, ◌∙◌, ◌==◌, ◌&&◌, ◌<>◌, ◌∷◌, refl, sym, ap, inl, inr, Bool, true, false,
  Option, none, some, String, List, [], map, arith, eq_iff, if◌then◌else◌, string_eq, nat_eq,
  Bool-cases, code, Char,
}
use text.Mathlib.TextLemmas.{nil-append, cons-append, head-eq_of_cons-eq, tail-eq_of_cons-eq}
use Prim.Native.String.compare
use rucher.Sopsage.{Stanza, compute_mac, Aead, Age, Yaml, Random, Kv, EncPair, SopsMeta, mapping}
use rucher.Sopsage.Sealed.{Opens}
use rucher.Sopsage.Encrypt.{encrypt_with, encrypt}
use rucher.Sopsage.Decrypt.{decrypt, recover_data_key}
use rucher.Sopsage.RoundTrip.{decrypt-encrypt, YamlReads, written, read_entry}
use rucher.Sopsage.Integrity.{decrypt-genuine, OpensOnlySealed}
use rucher.Base.Base64.{Bytes}
use rucher.Base.Text.{char_cons, concat}
use rucher.Base.Dict.{Dict, get, lookup}
use rucher.Base.Result.{Result, ok, err}

abbrev zeros : ℕ → Bytes
zeros zero = []
zeros (suc n) = 0 ∷ zeros n

abbrev stamp : String
stamp = "2025-01-01T00:00:00Z"

abbrev digest : String → String
digest x = char_cons "#" x

abbrev open_first : ℕ → String → Result String
open_first b additional =
    if b == 1 && additional == "token:"
    then ok "v"
    else if b == 2 && additional == stamp
    then ok "#v"
    else err "cipher: message authentication failed"

abbrev toy : Aead
toy = record {
  key_fault = λ key. none;
  seal = λ key iv p additional. (if p == "v" then 1 else 2) ∷ zeros 16;
  unseal = λ key iv sealed additional. elim sealed [
    | [] ↦ err "short"
    | b ∷ rest ↦ open_first b additional
  ];
}

abbrev age : Age String
age = record {
  parse_identities = λ text. ok text;
  unwrap = λ ids enc. ok (zeros 32);
  seal = λ r key. ok "armored";
}

abbrev random : Random
random = record { data_key = ok (zeros 32); nonce = λ n. ok (zeros 32); mac_nonce = ok (zeros 32) }

abbrev values : List Kv
values = record { key = "token"; value = "v" } ∷ []

abbrev made : Result (List EncPair × SopsMeta)
made = encrypt_with toy age digest random (zeros 32) ("age1x" ∷ []) values stamp

abbrev file_of : Result (List EncPair × SopsMeta) → List EncPair × SopsMeta
file_of (ok f) = f
file_of (err e) = (
  [],
  record {
    age = [];
    last_modified = "";
    mac = "";
    unencrypted_suffix = "";
    version = "";
    mac_only_encrypted = false;
  },
)

abbrev yaml : Yaml
yaml = record {
  unmarshal = λ text. ok (mapping (map read_entry (written (file_of made).0 "meta")));
  marshal = λ entries. ok "file";
  decode_meta = λ earlier node. ok (file_of made).1;
  encode_meta = λ meta. ok "meta";
}

toy-Opens_value : Opens toy (zeros 32) (ok (zeros 32)) "v" "token:"
toy-Opens_value = record {
  iv = zeros 32;
  drawn = refl;
  iv_size = refl;
  iv_bytes = omega arith;
  sealed_bytes = omega arith;
  has_tag = omega arith;
  opens = refl;
}

toy-Opens_mac : Opens toy (zeros 32) (ok (zeros 32)) "#v" stamp
toy-Opens_mac = record {
  iv = zeros 32;
  drawn = refl;
  iv_size = refl;
  iv_bytes = omega arith;
  sealed_bytes = omega arith;
  has_tag = omega arith;
  opens = refl;
}

reads :
    (pairs : List EncPair) (meta : SopsMeta) → made ≡ ok (pairs, meta) → YamlReads yaml pairs meta
reads pairs meta e = record {
  meta_text = "meta";
  text = "file";
  encoded = refl;
  decoded = ap (λ r. ok (file_of r).1) e;
  marshalled = refl;
  unmarshalled = ap (λ r. ok (mapping (map read_entry (written (file_of r).0 "meta")))) e;
}

decrypt-encrypt_example :
    (text : String) × (encrypt toy age yaml digest random ("age1x" ∷ []) values stamp ≡ ok text)
    × (decrypt toy age yaml digest "AGE-SECRET-KEY-1" text ≡ ok (("token", "v") ∷ []))
unfolding compute_mac
decrypt-encrypt_example =
    decrypt-encrypt toy age yaml digest random (zeros 32) "AGE-SECRET-KEY-1" ("age1x" ∷ []) values
      stamp "age1x" "AGE-SECRET-KEY-1" refl refl refl refl (λ sealed e. refl) refl
      (("armored", refl, inl refl), tt) ((λ full. toy-Opens_value), tt) toy-Opens_mac reads
      (refl, tt) refl

abbrev entries : Dict String
entries = ("token", "v") ∷ []

ends_in_colon : String → Bool
ends_in_colon String.[] = false
ends_in_colon (String.◌∷◌ c s) = if s == "" then code c == b':' else ends_in_colon s

ends_in_colon-cons :
    (c : Char) (s : String) → ends_in_colon s ≡ true → ends_in_colon (char_cons c s) ≡ true
unfolding ends_in_colon
ends_in_colon-cons c String.[] h = cc
ends_in_colon-cons c (String.◌∷◌ d s) h = rw (compare.cons-nil d s) h

ends_in_colon-append : (k : String) → ends_in_colon (k <> ":") ≡ true
ends_in_colon-append String.[] = rw (nil-append ":") (unfold ends_in_colon in refl)
ends_in_colon-append (String.◌∷◌ c k) =
    rw (cons-append c k ":") (ends_in_colon-cons c (k <> ":") (ends_in_colon-append k))

stamp_apart : (k : String) → k <> ":" ≢ stamp
unfolding ends_in_colon
stamp_apart k e = cc (sym (ends_in_colon-append k) ∙ ap ends_in_colon e)

abbrev text_or : Option String → String
text_or none = ""
text_or (some v) = v

v_digest : (x : String) → some "v" ≡ some (digest x) → ⊥
v_digest x e = let h : b'v' ≡ b'#' = ap code (head-eq_of_cons-eq (ap text_or e)) in cc

no_digest : (k x : String) → lookup k entries ≢ some (digest x)
no_digest k x e = elim (Bool-cases ("token" == k)) [
  | inl same ↦ v_digest x (rw same at e)
  | inr other ↦ ground (arith, rw other at e)
]

only_sealed : OpensOnlySealed toy age yaml digest (zeros 32) entries stamp
unfolding concat
only_sealed iv [] additional p h = cc
only_sealed iv (b ∷ sealed) additional p h = elim (Bool-cases (b == 1 && additional == "token:")) [
  | inl first ↦ inl ("token", ground (arith, eq_iff additional "token:"), ground (arith, h))
  | inr other ↦ elim (Bool-cases (b == 2 && additional == stamp)) [
    | inl second ↦ inr (ground (arith, eq_iff additional stamp), ground (arith, h))
    | inr third ↦ ground (arith, h)
  ]
]

one_key :
    (stanzas : List Stanza) (found : Bytes)
    → recover_data_key age "AGE-SECRET-KEY-1" stanzas ≡ ok found
    → found ≡ zeros 32
unfolding recover_data_key
one_key [] found h = cc
one_key (st ∷ stanzas) found h = cc

-- the file of the round trip
file :
    (text : String) × (encrypt toy age yaml digest random ("age1x" ∷ []) values stamp ≡ ok text)
    × (decrypt toy age yaml digest "AGE-SECRET-KEY-1" text ≡ ok entries)
unfolding compute_mac
file =
    decrypt-encrypt toy age yaml digest random (zeros 32) "AGE-SECRET-KEY-1" ("age1x" ∷ []) values
      stamp "age1x" "AGE-SECRET-KEY-1" refl refl refl refl (λ sealed e. refl) refl
      (("armored", refl, inl refl), tt) ((λ full. toy-Opens_value), tt) toy-Opens_mac reads
      (refl, tt) refl

decrypt-genuine_example : get entries "token" ≡ get entries "token"
unfolding compute_mac concat
decrypt-genuine_example =
    decrypt-genuine toy age yaml digest (zeros 32) entries stamp only_sealed stamp_apart no_digest
      (λ x e. tail-eq_of_cons-eq e) (refl, tt) "AGE-SECRET-KEY-1" file.0 "AGE-SECRET-KEY-1" entries
      refl (λ read found parsed. one_key read.1.age found) file.2 "token"
