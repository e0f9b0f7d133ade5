-- ===== src/Sopsage/Decrypt.antt =====
-- internal/sopsage/decrypt.go: `Decrypt`.
use rucher.Base.{◌==◌, ◌<>◌, ◌∷◌, String, List, [], map, if◌then◌else◌, string_eq, nat_eq, length}
use rucher.Sopsage.{Aead, Age, Yaml, Stanza, SopsMeta, EncPair, compute_mac}
use rucher.Sopsage.Token.{is_enc_value}
use rucher.Sopsage.Scalar.{decrypt_scalar, verify_mac}
use rucher.Sopsage.File.{parse_encrypted_file}
use rucher.Base.Base64.{Bytes}
use rucher.Base.Dict.{Dict}
use rucher.Base.Result.{Result, ok, err, with_context, reject, ◌>>=◌, ◌>>◌}

abbrev key_or : Result Bytes → Result Bytes → Result Bytes
key_or (ok key) other = if length key == 32 then ok key else other
key_or (err e) other = other

module _ {ℓ} {Ids : Type ℓ} (age : Age Ids) where
  -- `recoverDataKey`
  unfoldable pub recover_data_key : Ids → List Stanza → Result Bytes
  unfolding key_or
  recover_data_key ids [] = err "no age identity could unwrap the data key"
  recover_data_key ids (st ∷ stanzas) =
      key_or (age.unwrap ids st.enc) (recover_data_key ids stanzas)

module _ (aead : Aead) where
  unfoldable pub decrypt_token : Bytes → EncPair → Result String
  decrypt_token key p = do
    opened ← with_context ("decrypt " <> p.key) (decrypt_scalar aead p.enc key (p.key <> ":"))
    ok opened.0

  unfoldable pub decrypt_value : Bytes → EncPair → Result String
  decrypt_value key p =
      if is_enc_value p.enc
      then decrypt_token key p
      else if p.enc == ""
      then ok p.enc
      else err ("unexpected plaintext data value for key " <> p.key)

  -- The values in the order of the file; the keys are distinct, so the map keeps each.
  unfoldable pub decrypt_values : Bytes → List EncPair → Result (Dict String)
  decrypt_values key [] = ok []
  decrypt_values key (p ∷ pairs) = do
    plain ← decrypt_value key p
    rest ← decrypt_values key pairs
    ok ((p.key, plain) ∷ rest)

module _ (aead : Aead) (sha512 : String → String) where
  unfoldable pub decrypt_with : Bytes → List EncPair → SopsMeta → Result (Dict String)
  decrypt_with key pairs meta = do
    out ← decrypt_values aead key pairs
    verify_mac aead meta.mac key meta.last_modified (compute_mac sha512 (map (λ e. e.1) out))
    ok out

module _ {ℓ} {Ids : Type ℓ} (aead : Aead) (age : Age Ids) (yaml : Yaml)
    (sha512 : String → String) where
  -- `Decrypt`
  unfoldable pub decrypt : String → String → Result (Dict String)
  decrypt identity text = do
    file ← parse_encrypted_file yaml text
    reject file.1.mac_only_encrypted "unsupported sops file: mac_only_encrypted"
    ids ← with_context "parse age identity" (age.parse_identities identity)
    key ← recover_data_key age ids file.1.age
    decrypt_with aead sha512 key file.0 file.1
