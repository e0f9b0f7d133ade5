-- ===== src/Sopsage/Origins.antt =====
-- Where the map that `Decrypt` returns comes from: its keys are those of the file, each once, and its
-- values are what the cipher opened.
use rucher.Base.{
  ◌≡◌, ◌∙◌, ◌==◌, ◌<>◌, ◌∷◌, ◌++◌, refl, sym, ap, inl, inr, true, false, not, Option, none, some,
  String, List, [], map, arith, eq_iff, string_eq, nat_eq, contains, All, Bool-cases, Option-cases,
  length, Distinct,
}
use mathlib.Core.Path.{subst}
use rucher.Sopsage.{Aead, Yaml, SopsMeta, EncPair, Node, Document, mapping, other_shape}
use rucher.Sopsage.Token.{Token, read_token, is_enc_value}
use rucher.Sopsage.Scalar.{open_token, decrypt_scalar, verify_mac, new_gcm}
use rucher.Sopsage.File.{parse_entries, with_meta, parse_document, parse_encrypted_file, value_of}
use rucher.Sopsage.Decrypt.{decrypt_token, decrypt_value, decrypt_values}
use rucher.Base.Base64.{Bytes, decode}
use rucher.Base.Dict.{Dict, keys}
use rucher.Base.Result.{ok_inj, Result, ok, err, with_context, reject, ◌>>=◌}

-- a step whose error gets a context, and the rest, when both returned
pub with_context-eq-ok {ℓ} :
    {A : Type ℓ} (what : String) (r : Result A) {a : A} → with_context what r ≡ ok a → r ≡ ok a
with_context-eq-ok what (ok b) h = h
with_context-eq-ok what (err e) h = cc

-- what holds of every value that a step and the rest return
pub bind_ensures {ℓ κ μ} :
    {A : Type ℓ} {B : Type κ} (P : B → Type μ) (m : Result A) (f : A → Result B)
    → ((a : A) → m ≡ ok a → (b : B) → f a ≡ ok b → P b)
    → (b : B) → (m >>= f) ≡ ok b
    → P b
bind_ensures P (ok a) f k b h = k a refl b h
bind_ensures P (err e) f k b h = cc

module _ (aead : Aead) (key : Bytes) where
  -- the cipher opens something to the text
  abbrev pub Unsealed : String → String → Type 0
  Unsealed additional p =
      (iv : Bytes) × (sealed : Bytes) × (aead.unseal key iv sealed additional ≡ ok p)

  open_token-Unsealed :
      (t : Token) (additional : String) (d : String × String)
      → open_token aead t key additional ≡ ok d
      → Unsealed additional d.0
  unfolding open_token
  open_token-Unsealed t additional d h =
      let P : String × String → Type 0 = λ d. Unsealed additional d.0 in
      bind_ensures P (with_context "decode data" (decode t.text)) _
        (λ text _. bind_ensures P (with_context "decode iv" (decode t.iv)) _ (λ iv _.
          bind_ensures P (with_context "decode tag" (decode t.tag)) _ (λ tag _.
            bind_ensures P (new_gcm aead key) _ (λ _ _.
              bind_ensures P (reject (not (length iv == 32)) "invalid iv length") _ (λ _ _.
                bind_ensures P (reject (not (length tag == 16)) "invalid tag length") _ (λ _ _.
                  bind_ensures P
                    (with_context "gcm open" (aead.unseal key iv (text ++ tag) additional)) _
                    (λ p opened b returned. (
                      iv,
                      text ++ tag,
                      with_context-eq-ok "gcm open" _ opened
                          ∙ ap (λ (r : Result (String × String)). r >>= λ d. ok d.0) returned,
                    ))))))))
        d h

  decrypt_scalar-some :
      (enc additional : String) (t : Token)
      → read_token enc ≡ some t
      → decrypt_scalar aead enc key additional ≡ open_token aead t key additional
  unfolding decrypt_scalar
  decrypt_scalar-some enc additional t e = rw (e, decrypt_scalar) refl

  decrypt_scalar-none :
      (enc additional : String)
      → read_token enc ≡ none
      → decrypt_scalar aead enc key additional ≡ err ("not a SOPS-encrypted value: " <> enc)
  unfolding decrypt_scalar
  decrypt_scalar-none enc additional e = rw (e, decrypt_scalar) refl

  decrypt_scalar-Unsealed :
      (enc additional : String) (d : String × String)
      → decrypt_scalar aead enc key additional ≡ ok d
      → Unsealed additional d.0
  decrypt_scalar-Unsealed enc additional d h = elim (Option-cases (read_token enc)) [
    | inl none_read ↦ cc (decrypt_scalar-none enc additional none_read)
    | inr (t, e) ↦
        open_token-Unsealed t additional d (sym (decrypt_scalar-some enc additional t e) ∙ h)
  ]

module _ (aead : Aead) (key : Bytes) where
  decrypt_token-Unsealed :
      (p : EncPair) (v : String)
      → decrypt_token aead key p ≡ ok v
      → Unsealed aead key (p.key <> ":") v
  unfolding decrypt_token
  decrypt_token-Unsealed p v h =
      bind_ensures (Unsealed aead key (p.key <> ":"))
        (with_context ("decrypt " <> p.key) (decrypt_scalar aead p.enc key (p.key <> ":"))) _
        (λ d opened b returned. subst (Unsealed aead key (p.key <> ":")) (ok_inj d.0 b returned) (
          decrypt_scalar-Unsealed aead key p.enc (p.key <> ":") d
            (with_context-eq-ok ("decrypt " <> p.key) _ opened)))
        v h

  decrypt_value-Unsealed :
      (p : EncPair) (v : String)
      → decrypt_value aead key p ≡ ok v
      → (v == "") ≡ false
      → Unsealed aead key (p.key <> ":") v
  unfolding decrypt_value
  decrypt_value-Unsealed p v h full = elim (Bool-cases (is_enc_value p.enc)) [
    | inl token ↦ decrypt_token-Unsealed p v (rw token at h)
    | inr plain ↦ elim (Bool-cases (p.enc == "")) [
      | inl empty ↦ ground (arith, rw plain at h)
      | inr other ↦ ground (arith, rw plain at h)
    ]
  ]

  abbrev pub Origins : List EncPair → Dict String → Type 0
  Origins pairs out =
      (keys out ≡ map (λ p. p.key) pairs)
      × All (λ (e : String × String). (e.1 == "") ≡ false → Unsealed aead key (e.0 <> ":") e.1) out

  -- the keys of the map, and where its values come from
  pub decrypt_values-Origins :
      (pairs : List EncPair) (out : Dict String)
      → decrypt_values aead key pairs ≡ ok out
      → Origins pairs out
  unfolding decrypt_values
  decrypt_values-Origins [] out h = subst (Origins []) (ok_inj [] out h) (refl, tt)
  decrypt_values-Origins (p ∷ pairs) out h =
      bind_ensures (Origins (p ∷ pairs)) (decrypt_value aead key p) _
        (λ v opened.
          bind_ensures (Origins (p ∷ pairs)) (decrypt_values aead key pairs) _
            (λ rest all_opened b returned.
              let (same, origins) = decrypt_values-Origins pairs rest all_opened in
              subst (Origins (p ∷ pairs)) (ok_inj ((p.key, v) ∷ rest) b returned)
                (rw same refl, (decrypt_value-Unsealed p v opened, origins))))
        out h

matches :
    (x y : String) (b : Unit {0})
    → reject (not (x == y)) "MAC mismatch: file integrity check failed" ≡ ok b
    → (x == y) ≡ true
matches x y b h = elim (Bool-cases (x == y)) [ inl e ↦ e | inr e ↦ ground (arith, h) ]

pub verify_mac-Unsealed :
    (aead : Aead) (stored : String) (key : Bytes) (last_modified computed : String)
    → verify_mac aead stored key last_modified computed ≡ ok tt
    → Unsealed aead key last_modified computed
unfolding verify_mac
verify_mac-Unsealed aead stored key last_modified computed h =
    bind_ensures (λ _. Unsealed aead key last_modified computed)
      (with_context "decrypt mac" (decrypt_scalar aead stored key last_modified)) _
      (λ d opened b returned.
        subst (Unsealed aead key last_modified)
          ((eq_iff d.0 computed).0 (matches d.0 computed b returned))
          (decrypt_scalar-Unsealed aead key stored last_modified d
            (with_context-eq-ok "decrypt mac" _ opened)))
      tt h

abbrev pub pair_keys : List EncPair → List String
pair_keys = map (λ p. p.key)

abbrev AreFresh : List String → List EncPair → Type 0
AreFresh seen pairs =
    Distinct (pair_keys pairs) × All (λ k. contains k seen ≡ false) (pair_keys pairs)

-- what is not among a key and others is not the key
fresh_behind :
    (key : String) (seen xs : List String)
    → All (λ k. contains k (key ∷ seen) ≡ false) xs
    → (contains key xs ≡ false) × All (λ k. contains k seen ≡ false) xs
fresh_behind key seen [] h = (refl, tt)
fresh_behind key seen (x ∷ xs) h =
    let (apart, rest) = fresh_behind key seen xs h.1 in
    (ground (arith, h.0, eq_iff key x, eq_iff x key), (ground (arith, h.0), rest))

parse_entries-AreFresh :
    (yaml : Yaml) (seen : List String) (meta : Option SopsMeta) (entries : List (String × Node))
    (r : List EncPair × Option SopsMeta)
    → parse_entries yaml seen meta entries ≡ ok r
    → AreFresh seen r.0
unfolding parse_entries
parse_entries-AreFresh yaml seen meta [] r h =
    subst (λ r. AreFresh seen r.0) (ok_inj ([], meta) r h) (tt, tt)
parse_entries-AreFresh yaml seen meta ((key, node) ∷ entries) r h =
    elim (Bool-cases (key == "sops")) [
      | inl sops ↦
          bind_ensures (λ r. AreFresh seen r.0)
            (with_context "decode sops metadata" (yaml.decode_meta meta node)) _
            (λ m _ b returned. parse_entries-AreFresh yaml seen (some m) entries b returned) r
            (rw sops at h)
      | inr other ↦ elim (Bool-cases (contains key seen)) [
        | inl twice ↦ ground (arith, h)
        | inr first ↦
            bind_ensures (λ r. AreFresh seen r.0) (parse_entries yaml (key ∷ seen) meta entries) _
              (λ rest parsed b returned.
                let fresh = parse_entries-AreFresh yaml (key ∷ seen) meta entries rest parsed in
                subst (λ r. AreFresh seen r.0)
                  (ok_inj (record { key = key; enc = value_of node } ∷ rest.0, rest.1) b returned)
                  (let (apart, behind) = fresh_behind key seen (pair_keys rest.0) fresh.1 in
                    ((apart, fresh.0), (first, behind))))
              r (rw first at (rw other at h))
      ]
    ]

with_meta-Distinct :
    (r : List EncPair × Option SopsMeta) (f : List EncPair × SopsMeta)
    → with_meta r ≡ ok f
    → Distinct (pair_keys r.0)
    → Distinct (pair_keys f.0)
unfolding with_meta
with_meta-Distinct (pairs, none) f h d = cc
with_meta-Distinct (pairs, some meta) f h d =
    subst (λ (f : List EncPair × SopsMeta). Distinct (pair_keys f.0)) (ok_inj (pairs, meta) f h) d

parse_document-Distinct :
    (yaml : Yaml) (doc : Document) (f : List EncPair × SopsMeta)
    → parse_document yaml doc ≡ ok f
    → Distinct (pair_keys f.0)
unfolding parse_document
parse_document-Distinct yaml other_shape f h = cc
parse_document-Distinct yaml (mapping entries) f h =
    bind_ensures (λ (f : List EncPair × SopsMeta). Distinct (pair_keys f.0))
      (parse_entries yaml [] none entries) _
      (λ r parsed b returned.
        with_meta-Distinct r b returned (parse_entries-AreFresh yaml [] none entries r parsed).0)
      f h

pub parse_encrypted_file-Distinct :
    (yaml : Yaml) (text : String) (f : List EncPair × SopsMeta)
    → parse_encrypted_file yaml text ≡ ok f
    → Distinct (pair_keys f.0)
unfolding parse_encrypted_file
parse_encrypted_file-Distinct yaml text f h =
    bind_ensures (λ (f : List EncPair × SopsMeta). Distinct (pair_keys f.0))
      (with_context "parse yaml" (yaml.unmarshal text)) _
      (λ doc _ b parsed. parse_document-Distinct yaml doc b parsed) f h
