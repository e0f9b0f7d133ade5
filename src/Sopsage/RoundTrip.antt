-- ===== src/Sopsage/RoundTrip.antt =====
-- A file that `Encrypt` writes is read by `Decrypt`.
use rucher.Base.{
  ℕ, suc, ◌≡◌, ◌⊎◌, ◌∙◌, ◌==◌, ◌<>◌, ◌∷◌, ◌++◌, refl, ap, inl, inr, true, false, none, some, String,
  List, [], map, arith, eq_iff, string_eq, nat_eq, contains, All, Bool-cases, length, Distinct,
}
use mathlib.Core.Path.{subst}
use rucher.Sopsage.{
  Aead, Age, Yaml, Random, Stanza, SopsMeta, EncPair, Kv, Node, block, mapping, Entry, compute_mac,
}
use rucher.Sopsage.Sealed.{Opens, verify_mac-encrypt_mac, decrypt_value-encrypt_value}
use rucher.Sopsage.File.{
  parse_entries, with_meta, parse_document, parse_encrypted_file, data_entries, file_entries,
  emit_encrypted_file,
}
use rucher.Sopsage.Encrypt.{seal_stanzas, encrypt_values, encrypt_with, encrypt}
use rucher.Sopsage.Decrypt.{recover_data_key, decrypt_values, decrypt_with, decrypt}
use rucher.Base.Base64.{Bytes}
use rucher.Base.Dict.{Dict}
use rucher.Base.Result.{Result, ok, err, ◌>>=◌}

abbrev pub entries_of : List Kv → Dict String
entries_of = map (λ kv. (kv.key, kv.value))

abbrev pub keys_of : List Kv → List String
keys_of = map (λ kv. kv.key)

values-entries_of :
    (values : List Kv) → map (λ e. e.1) (entries_of values) ≡ map (λ kv. kv.value) values
values-entries_of [] = refl
values-entries_of (kv ∷ values) = rw (values-entries_of values) refl

-- what the YAML library reads of an entry that is written
abbrev pub read_entry : Entry → String × Node
read_entry e = (e.key, e.value)

abbrev pair_keys : List EncPair → List String
pair_keys = map (λ p. p.key)

module _ (yaml : Yaml) (meta : SopsMeta) (t : String)
    (M : yaml.decode_meta none (block t) ≡ ok meta) where
  parse_entries-data_entries :
      (seen : List String) (pairs : List EncPair)
      → Distinct (pair_keys pairs)
      → contains "sops" (pair_keys pairs) ≡ false
      → ((k : String) → contains k (pair_keys pairs) ≡ true → contains k seen ≡ false)
      → parse_entries yaml seen none (
          map read_entry
            (data_entries pairs ++ record { key = "sops"; value = block t; quoted = false } ∷ []))
        ≡ ok (pairs, some meta)
  unfolding parse_entries data_entries
  parse_entries-data_entries seen [] d s f = rw M refl
  parse_entries-data_entries seen (p ∷ pairs) d s f =
      let rest =
        parse_entries-data_entries (p.key ∷ seen) pairs d.1 (ground arith)
          (λ k c. ground (arith, eq_iff p.key k, f k)) in
      let plain : (p.key == "sops") ≡ false = ground arith in
      let fresh : contains p.key seen ≡ false = f p.key (ground (arith, eq_iff p.key p.key)) in
      rw plain (rw fresh (rw rest refl))

module _ {ℓ} {Ids : Type ℓ} (age : Age Ids) (key : Bytes) (ids : Ids) where
  -- The data key is wrapped to the recipient, and the identities unwrap it or fail.
  abbrev pub Wrapped : String → Type 0
  Wrapped r =
      (sealed : String) × (age.seal r key ≡ ok sealed)
      × ((age.unwrap ids sealed ≡ ok key) ⊎ ((e : String) × (age.unwrap ids sealed ≡ err e)))

  recover_data_key-seal_stanzas :
      (mine : String) (recipients : List String)
      → length key ≡ 32
      → ((sealed : String) → age.seal mine key ≡ ok sealed → age.unwrap ids sealed ≡ ok key)
      → All Wrapped recipients
      → (stanzas : List Stanza) × (seal_stanzas age key recipients ≡ ok stanzas)
        × (contains mine recipients ≡ true → recover_data_key age ids stanzas ≡ ok key)
  unfolding seal_stanzas recover_data_key
  recover_data_key-seal_stanzas mine [] size opens w = ([], refl, λ c. cc)
  recover_data_key-seal_stanzas mine (r ∷ recipients) size opens w =
      let (sealed, made, unwraps) = w.0 in
      let (stanzas, all_made, found) =
        recover_data_key-seal_stanzas mine recipients size opens w.1 in
      (
        record { enc = sealed; recipient = r } ∷ stanzas,
        rw made (rw all_made refl),
        λ c. elim unwraps [
          | inl good ↦ rw good (rw size refl)
          | inr (e, bad) ↦ elim (Bool-cases (r == mine)) [
            | inl me ↦
                rw
                  (opens sealed
                    (subst (λ x. age.seal x key ≡ ok sealed) ((eq_iff r mine).0 me) made))
                  (rw size refl)
            | inr other ↦ rw bad (found (ground arith))
          ]
        ],
      )

module _ (aead : Aead) (random : Random) (key : Bytes) where
  -- the values that are not empty are sealed, from the n-th on
  abbrev pub AllOpen : ℕ → List Kv → Type 0
  AllOpen n [] = Unit
  AllOpen n (kv ∷ values) =
      ((kv.value == "") ≡ false → Opens aead key (random.nonce n) kv.value (kv.key <> ":"))
      × AllOpen (suc n) values

  module _ (K : aead.key_fault key ≡ none) where
    decrypt_values-encrypt_values :
        (n : ℕ) (values : List Kv)
        → AllOpen n values
        → (pairs : List EncPair) × (encrypt_values aead random key n values ≡ ok pairs)
          × (decrypt_values aead key pairs ≡ ok (entries_of values))
          × (pair_keys pairs ≡ keys_of values)
    unfolding encrypt_values decrypt_values
    decrypt_values-encrypt_values n [] o = ([], refl, refl, refl)
    decrypt_values-encrypt_values n (kv ∷ values) o =
        let (enc, made, opened) = decrypt_value-encrypt_value aead random key K n kv o.0 in
        let (pairs, all_made, all_opened, same) =
          decrypt_values-encrypt_values (suc n) values o.1 in
        (
          record { key = kv.key; enc = enc } ∷ pairs,
          rw made (rw all_made refl),
          rw opened (rw all_opened refl),
          rw same refl,
        )

module _ {ℓ} {Ids : Type ℓ} (aead : Aead) (age : Age Ids) (sha512 : String → String)
    (random : Random) (key : Bytes) (ids : Ids) where
  module _ (K : aead.key_fault key ≡ none) where
    -- The file under the data key: it is made, and its values and its MAC are opened again.
    decrypt_with-encrypt_with :
        (recipients : List String) (values : List Kv) (last_modified mine : String)
        → length key ≡ 32
        → ((sealed : String) → age.seal mine key ≡ ok sealed → age.unwrap ids sealed ≡ ok key)
        → contains mine recipients ≡ true
        → All (Wrapped age key ids) recipients
        → AllOpen aead random key 0 values
        → Opens aead key random.mac_nonce
            (compute_mac sha512 (map (λ kv. kv.value) values))
            last_modified
        → (pairs : List EncPair) × (meta : SopsMeta) × (encrypt_with aead age sha512 random key
              recipients values last_modified
            ≡ ok (pairs, meta))
          × (decrypt_with aead sha512 key pairs meta ≡ ok (entries_of values))
          × (recover_data_key age ids meta.age ≡ ok key)
          × (meta.mac_only_encrypted ≡ false)
          × (pair_keys pairs ≡ keys_of values)
    unfolding encrypt_with decrypt_with
    decrypt_with-encrypt_with recipients values last_modified mine size mine_opens c wrapped o om =
        let (stanzas, sealed, found) =
          recover_data_key-seal_stanzas age key ids mine recipients size mine_opens wrapped in
        let (pairs, made, opened, same) =
          decrypt_values-encrypt_values aead random key K 0 values o in
        let (stored, mac_made, verified) =
          verify_mac-encrypt_mac aead key K random.mac_nonce _ last_modified om in
        (
          pairs,
          record {
            age = stanzas;
            last_modified = last_modified;
            mac = stored;
            unencrypted_suffix = "_unencrypted";
            version = "3.13.2";
            mac_only_encrypted = false;
          },
          rw sealed (rw made (rw mac_made refl)),
          rw opened (rw (values-entries_of values) (rw verified refl)),
          found c,
          refl,
          same,
        )

abbrev pub written : List EncPair → String → List Entry
written pairs t =
    data_entries pairs ++ record { key = "sops"; value = block t; quoted = false } ∷ []

-- The YAML library writes the metadata and the file, and reads back what it wrote.
pub record YamlReads (yaml : Yaml) (pairs : List EncPair) (meta : SopsMeta) : Type 0 where
  pub meta_text : String
  pub text : String
  pub encoded : yaml.encode_meta meta ≡ ok meta_text
  pub decoded : yaml.decode_meta none (block meta_text) ≡ ok meta
  pub marshalled : yaml.marshal (written pairs meta_text) ≡ ok text
  pub unmarshalled : yaml.unmarshal text ≡ ok (mapping (map read_entry (written pairs meta_text)))

module _ (yaml : Yaml) (pairs : List EncPair) (meta : SopsMeta)
    (y : YamlReads yaml pairs meta) where
  emit_encrypted_file-ok : emit_encrypted_file yaml pairs meta ≡ ok y.text
  unfolding emit_encrypted_file file_entries
  emit_encrypted_file-ok = rw y.encoded (rw y.marshalled refl)

  parse_encrypted_file-ok :
      Distinct (pair_keys pairs)
      → contains "sops" (pair_keys pairs) ≡ false
      → parse_encrypted_file yaml y.text ≡ ok (pairs, meta)
  unfolding parse_encrypted_file parse_document with_meta
  parse_encrypted_file-ok d s = rw y.unmarshalled (
      rw (parse_entries-data_entries yaml meta y.meta_text y.decoded [] pairs d s (λ k c. refl))
        refl)

module _ {ℓ} {Ids : Type ℓ} (aead : Aead) (age : Age Ids) (yaml : Yaml) (sha512 : String → String)
    (random : Random) (key : Bytes) (ids : Ids) where
  -- A file that `Encrypt` makes is read by `Decrypt` as the values that were encrypted, in their order. There
  -- is a data key, which the cipher takes, the identity file holds an identity that unwraps what is wrapped
  -- to one of the recipients, and the identities unwrap no other key from the stanzas. The cipher opens what
  -- it sealed, the YAML library reads what it wrote, and the keys are distinct and none is `sops`.
  pub decrypt-encrypt :
      (recipients : List String) (values : List Kv) (last_modified mine identity : String)
      → random.data_key ≡ ok key
      → length key ≡ 32
      → aead.key_fault key ≡ none
      → age.parse_identities identity ≡ ok ids
      → ((sealed : String) → age.seal mine key ≡ ok sealed → age.unwrap ids sealed ≡ ok key)
      → contains mine recipients ≡ true
      → All (Wrapped age key ids) recipients
      → AllOpen aead random key 0 values
      → Opens aead key random.mac_nonce
          (compute_mac sha512 (map (λ kv. kv.value) values))
          last_modified
      → ((pairs : List EncPair) (meta : SopsMeta)
          → encrypt_with aead age sha512 random key recipients values last_modified
            ≡ ok (pairs, meta)
          → YamlReads yaml pairs meta)
      → Distinct (keys_of values)
      → contains "sops" (keys_of values) ≡ false
      → (text : String) × (encrypt aead age yaml sha512 random recipients values last_modified
          ≡ ok text)
        × (decrypt aead age yaml sha512 identity text ≡ ok (entries_of values))
  unfolding encrypt decrypt
  decrypt-encrypt [] values last_modified mine identity drawn size K parsed mine_opens c w o om y d
        s =
      cc
  decrypt-encrypt (r ∷ recipients) values last_modified mine identity drawn size K parsed mine_opens
        c w o om y d s =
      let (pairs, meta, made, opened, found, plain, same) =
        decrypt_with-encrypt_with aead age sha512 random key ids K (r ∷ recipients) values
          last_modified mine size mine_opens c w o om in
      let reads = y pairs meta made in
      (
        reads.text,
        ap
              (λ (d : Result Bytes). d >>= λ k.
                encrypt_with aead age sha512 random k (r ∷ recipients) values last_modified >>= λ f.
                emit_encrypted_file yaml f.0 f.1)
              drawn
            ∙ rw made (emit_encrypted_file-ok yaml pairs meta reads),
        rw (parse_encrypted_file-ok yaml pairs meta reads (rw same d) (rw same s))
            (rw plain (rw parsed (rw found opened))),
      )
