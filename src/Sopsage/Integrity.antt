-- ===== src/Sopsage/Integrity.antt =====
-- What `Decrypt` accepts: a file that was changed in any way gives the values that were encrypted, or none.
use rucher.Base.{
  ◌≡◌, ◌≢◌, ◌⊎◌, ◌∙◌, ◌<>◌, sym, ap, inl, inr, some, String, List, map, string_eq, nat_eq, Distinct,
  All-imp,
}
use text.Mathlib.TextLemmas.{append_cancel_right}
use mathlib.Core.Path.{subst}
use Prim.Native.String.{count}
use rucher.Base.Text.{concat}
use rucher.Sopsage.{Aead, Age, Yaml, SopsMeta, EncPair, compute_mac}
use rucher.Sopsage.Scalar.{verify_mac}
use rucher.Sopsage.File.{parse_encrypted_file}
use rucher.Sopsage.Decrypt.{decrypt_values, decrypt_with, decrypt, recover_data_key}
use rucher.Sopsage.Totals.{IsPartOf-get, count-concat}
use rucher.Sopsage.Origins.{
  with_context-eq-ok, bind_ensures, Unsealed, decrypt_values-Origins, verify_mac-Unsealed,
  pair_keys, parse_encrypted_file-Distinct,
}
use rucher.Base.Base64.{Bytes}
use rucher.Base.Dict.{Dict, keys, lookup, get}
use rucher.Base.Result.{ok_inj, ok, with_context, reject}

module _ {ℓ} {Ids : Type ℓ} (aead : Aead) (age : Age Ids) (yaml : Yaml) (sha512 : String → String)
    (key : Bytes) (values : Dict String) (last_modified : String) where
  abbrev pub texts : Dict String → String
  texts m = concat (map (λ e. e.1) m)

  -- Under the key the cipher opens only what `Encrypt` sealed: a value under its key, or the MAC.
  abbrev pub OpensOnlySealed : Type 0
  OpensOnlySealed =
      (iv sealed : Bytes) (additional p : String)
      → aead.unseal key iv sealed additional ≡ ok p
      → ((k : String) × (additional ≡ k <> ":") × (lookup k values ≡ some p))
        ⊎ ((additional ≡ last_modified) × (p ≡ sha512 (texts values)))

  module _ (only : OpensOnlySealed) (apart : (k : String) → k <> ":" ≢ last_modified)
      (no_digest : (k x : String) → lookup k values ≢ some (sha512 x))
      (no_collision : (x : String) → sha512 x ≡ sha512 (texts values) → x ≡ texts values)
      (distinct : Distinct (keys values)) where
    value_origin : (k p : String) → Unsealed aead key (k <> ":") p → lookup k values ≡ some p
    value_origin k p (iv, sealed, opened) = elim (only iv sealed (k <> ":") p opened) [
      | inl (j, same, found) ↦
          subst (λ i. lookup i values ≡ some p) (sym (append_cancel_right k j ":" same)) found
      | inr (same, _) ↦ absurd (apart k same)
    ]

    mac_origin :
        (additional x : String) → Unsealed aead key additional (sha512 x) → x ≡ texts values
    mac_origin additional x (iv, sealed, opened) =
        elim (only iv sealed additional (sha512 x) opened) [
          | inl (j, _, found) ↦ absurd (no_digest j x found)
          | inr (_, same) ↦ no_collision x same
        ]

    decrypt_with-values :
        (pairs : List EncPair) (meta : SopsMeta) (out : Dict String) (k : String)
        → Distinct (pair_keys pairs)
        → decrypt_with aead sha512 key pairs meta ≡ ok out
        → get out k ≡ get values k
    unfolding decrypt_with compute_mac
    decrypt_with-values pairs meta out k d h =
        bind_ensures (λ (o : Dict String). get o k ≡ get values k) (decrypt_values aead key pairs) _
          (λ plain opened.
            bind_ensures (λ (o : Dict String). get o k ≡ get values k)
              (verify_mac aead meta.mac key meta.last_modified (sha512 (texts plain))) _
              (λ u verified b returned.
                subst (λ (o : Dict String). get o k ≡ get values k) (ok_inj plain b returned)
                  (let (same, origins) = decrypt_values-Origins aead key pairs plain opened in
                    let whole = mac_origin meta.last_modified (texts plain) (
                      verify_mac-Unsealed aead meta.mac key meta.last_modified
                        (sha512 (texts plain)) verified) in
                    (IsPartOf-get plain values (rw same d) distinct
                        (All-imp plain (λ e o full. value_origin e.0 e.1 (o full)) origins)).1
                      (sym (count-concat plain) ∙ ap count whole ∙ count-concat values) k)))
          out h

    -- Whatever was done to the entries, the MAC and the stanzas of a file, as long as its stanzas unwrap to the
    -- data key of an encryption or to none, if `Decrypt` accepts it, it returns for every key the value that was
    -- encrypted under it, and the empty value or none for every other key. The cipher opens under that data key
    -- only what was sealed, no value is a digest, no other text has the digest of the values, and no key with a
    -- colon is the time stamp.
    pub decrypt-genuine :
        (identity text : String) (ids : Ids) (out : Dict String)
        → age.parse_identities identity ≡ ok ids
        → ((file : List EncPair × SopsMeta) (found : Bytes)
            → parse_encrypted_file yaml text ≡ ok file
            → recover_data_key age ids file.1.age ≡ ok found
            → found ≡ key)
        → decrypt aead age yaml sha512 identity text ≡ ok out
        → (k : String) → get out k ≡ get values k
    unfolding decrypt
    decrypt-genuine identity text ids out parsed one_key h k =
        bind_ensures (λ (o : Dict String). get o k ≡ get values k) (parse_encrypted_file yaml text)
          _
          (λ file read.
            bind_ensures (λ (o : Dict String). get o k ≡ get values k)
              (reject file.1.mac_only_encrypted "unsupported sops file: mac_only_encrypted") _
              (λ _ _.
                bind_ensures (λ (o : Dict String). get o k ≡ get values k)
                  (with_context "parse age identity" (age.parse_identities identity)) _
                  (λ i read_ids.
                    bind_ensures (λ (o : Dict String). get o k ≡ get values k)
                      (recover_data_key age i file.1.age) _
                      (λ found recovered b opened.
                        decrypt_with-values file.0 file.1 b k
                          (parse_encrypted_file-Distinct yaml text file read)
                          (subst (λ f. decrypt_with aead sha512 f file.0 file.1 ≡ ok b)
                            (one_key file found read (
                              subst (λ x. recover_data_key age x file.1.age ≡ ok found)
                                (ok_inj i ids (
                                  sym (with_context-eq-ok "parse age identity" _ read_ids)
                                  ∙ parsed))
                                recovered))
                            opened)))))
          out h
