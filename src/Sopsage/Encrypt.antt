-- ===== src/Sopsage/Encrypt.antt =====
-- internal/sopsage/encrypt.go: `Encrypt`.
use rucher.Base.{
  ℕ, suc, ◌==◌, ◌<>◌, ◌∷◌, false, String, List, [], map, if◌then◌else◌, string_eq, nat_eq,
}
use rucher.Sopsage.{Aead, Age, Yaml, Random, Stanza, SopsMeta, EncPair, Kv, compute_mac}
use rucher.Sopsage.Scalar.{encrypt_scalar, encrypt_mac}
use rucher.Sopsage.File.{emit_encrypted_file}
use rucher.Base.Base64.{Bytes}
use rucher.Base.Result.{Result, ok, err, with_context, ◌>>=◌}

abbrev version : String
version = "3.13.2"

module _ {ℓ} {Ids : Type ℓ} (age : Age Ids) where
  -- one stanza for each recipient
  unfoldable pub seal_stanzas : Bytes → List String → Result (List Stanza)
  seal_stanzas key [] = ok []
  seal_stanzas key (r ∷ recipients) = do
    sealed ← with_context ("seal data key to " <> r) (age.seal r key)
    rest ← seal_stanzas key recipients
    ok (record { enc = sealed; recipient = r } ∷ rest)

module _ (aead : Aead) (random : Random) where
  -- An empty value is carried as it is.
  unfoldable pub encrypt_value : Bytes → ℕ → Kv → Result String
  encrypt_value key n kv =
      if kv.value == ""
      then ok ""
      else with_context ("encrypt " <> kv.key)
          (encrypt_scalar aead (random.nonce n) kv.value "str" key (kv.key <> ":"))

  unfoldable pub encrypt_values : Bytes → ℕ → List Kv → Result (List EncPair)
  encrypt_values key n [] = ok []
  encrypt_values key n (kv ∷ values) = do
    enc ← encrypt_value key n kv
    rest ← encrypt_values key (suc n) values
    ok (record { key = kv.key; enc = enc } ∷ rest)

module _ {ℓ} {Ids : Type ℓ} (aead : Aead) (age : Age Ids) (sha512 : String → String)
    (random : Random) where
  -- the entries and the metadata of the file, under a data key
  unfoldable pub encrypt_with :
      Bytes → List String → List Kv → String → Result (List EncPair × SopsMeta)
  encrypt_with key recipients values last_modified = do
    stanzas ← seal_stanzas age key recipients
    pairs ← encrypt_values aead random key 0 values
    mac ←
        encrypt_mac aead random.mac_nonce (compute_mac sha512 (map (λ kv. kv.value) values)) key
          last_modified
    ok (
      pairs,
      record {
        age = stanzas;
        last_modified = last_modified;
        mac = mac;
        unencrypted_suffix = "_unencrypted";
        version = version;
        mac_only_encrypted = false;
      },
    )

module _ {ℓ} {Ids : Type ℓ} (aead : Aead) (age : Age Ids) (yaml : Yaml) (sha512 : String → String)
    (random : Random) where
  -- `Encrypt`
  unfoldable pub encrypt : List String → List Kv → String → Result String
  encrypt [] values last_modified = err "no recipients"
  encrypt (r ∷ recipients) values last_modified = do
    key ← random.data_key
    file ← encrypt_with aead age sha512 random key (r ∷ recipients) values last_modified
    emit_encrypted_file yaml file.0 file.1
