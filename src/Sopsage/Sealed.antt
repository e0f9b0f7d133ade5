-- ===== src/Sopsage/Sealed.antt =====
-- A value that is sealed is opened again, whatever it is.
use rucher.Base.{
  ℕ, zero, suc, ◌+◌, ◌-◌, ◌≤◌, ◌≡◌, ◌==◌, ◌<>◌, ◌∷◌, ◌++◌, refl, sym, ap, inl, inr, true, false,
  none, String, [], arith, eq_iff, string_eq, nat_eq, Bool-cases, length,
}
use rucher.Sopsage.{Aead, Random, Kv}
use rucher.Sopsage.Token.{
  Token, IsPlainToken, print_token, is_enc_value, read_token-print_token, is_enc_value-print_token,
  is_enc_value_empty,
}
use rucher.Sopsage.Scalar.{
  take_bytes, drop_bytes, new_gcm, token_for, encrypt_scalar, open_token, decrypt_scalar,
  encrypt_mac, verify_mac,
}
use rucher.Sopsage.Encrypt.{encrypt_value}
use rucher.Sopsage.Decrypt.{decrypt_token, decrypt_value}
use rucher.Base.Base64.{Bytes, IsBytes, encode-IsPlain, decode-encode}
use rucher.Base.Result.{Result, ok}

take_drop_bytes : (n : ℕ) (bs : Bytes) → take_bytes n bs ++ drop_bytes n bs ≡ bs
unfolding take_bytes drop_bytes
take_drop_bytes zero bs = refl
take_drop_bytes (suc n) [] = refl
take_drop_bytes (suc n) (b ∷ bs) = ap (λ (r : Bytes). b ∷ r) (take_drop_bytes n bs)

length-drop_bytes : (n : ℕ) (bs : Bytes) → n ≤ length bs → length (drop_bytes n bs) + n ≡ length bs
unfolding drop_bytes
length-drop_bytes zero bs h = omega arith
length-drop_bytes (suc n) [] h = absurd (omega arith)
length-drop_bytes (suc n) (b ∷ bs) h = omega (arith, length-drop_bytes n bs (omega arith))

take_bytes-IsBytes : (n : ℕ) (bs : Bytes) → IsBytes bs → IsBytes (take_bytes n bs)
unfolding take_bytes
take_bytes-IsBytes zero bs h = tt
take_bytes-IsBytes (suc n) [] h = tt
take_bytes-IsBytes (suc n) (b ∷ bs) h = (h.0, take_bytes-IsBytes n bs h.1)

drop_bytes-IsBytes : (n : ℕ) (bs : Bytes) → IsBytes bs → IsBytes (drop_bytes n bs)
unfolding drop_bytes
drop_bytes-IsBytes zero bs h = h
drop_bytes-IsBytes (suc n) [] h = tt
drop_bytes-IsBytes (suc n) (b ∷ bs) h = drop_bytes-IsBytes n bs h.1

-- What the cipher and the source of nonces do for one text that is sealed: a nonce of 32 bytes is drawn, and
-- what is sealed under it is at least a tag, and opens to the text.
pub record Opens (aead : Aead) (key : Bytes) (nonce : Result Bytes) (plaintext additional : String)
    : Type 0 where
  pub iv : Bytes
  pub drawn : nonce ≡ ok iv
  pub iv_size : length iv ≡ 32
  pub iv_bytes : IsBytes iv
  pub sealed_bytes : IsBytes (aead.seal key iv plaintext additional)
  pub has_tag : 16 ≤ length (aead.seal key iv plaintext additional)
  pub opens : aead.unseal key iv (aead.seal key iv plaintext additional) additional ≡ ok plaintext

module _ (aead : Aead) (key : Bytes) (K : aead.key_fault key ≡ none) where
  new_gcm-ok : new_gcm aead key ≡ ok tt
  unfolding new_gcm
  new_gcm-ok = rw (K, new_gcm) refl

  module _ (nonce : Result Bytes) (plaintext additional : String)
      (o : Opens aead key nonce plaintext additional) where
    abbrev sealed : Bytes
    sealed = aead.seal key o.iv plaintext additional

    token : Token
    token = token_for sealed o.iv "str"

    token-IsPlainToken : IsPlainToken token
    unfolding token token_for
    token-IsPlainToken = (
      encode-IsPlain _ (take_bytes-IsBytes (length sealed - 16) sealed o.sealed_bytes),
      encode-IsPlain _ o.iv_bytes,
      encode-IsPlain _ (drop_bytes-IsBytes (length sealed - 16) sealed o.sealed_bytes),
      (refl, (refl, (refl, tt))),
    )

    encrypt_scalar-ok :
        encrypt_scalar aead nonce plaintext "str" key additional ≡ ok (print_token token)
    unfolding encrypt_scalar token
    encrypt_scalar-ok = rw new_gcm-ok (rw o.drawn refl)

    tag_length : length (drop_bytes (length sealed - 16) sealed) ≡ 16
    tag_length =
        omega (arith, length-drop_bytes (length sealed - 16) sealed (omega arith), o.has_tag)

    open_token-token : open_token aead token key additional ≡ ok (plaintext, "str")
    unfolding open_token token token_for
    open_token-token =
        rw (decode-encode _ (take_bytes-IsBytes (length sealed - 16) sealed o.sealed_bytes)) (
          rw (decode-encode o.iv o.iv_bytes) (
            rw (decode-encode _ (drop_bytes-IsBytes (length sealed - 16) sealed o.sealed_bytes)) (
              rw new_gcm-ok (
                rw o.iv_size (
                  rw tag_length
                    (rw (take_drop_bytes (length sealed - 16) sealed) (rw o.opens refl)))))))

    decrypt_scalar-token :
        decrypt_scalar aead (print_token token) key additional ≡ ok (plaintext, "str")
    unfolding decrypt_scalar
    decrypt_scalar-token =
        rw (read_token-print_token token token-IsPlainToken, decrypt_scalar) open_token-token

    scalar_round :
        (enc : String) × (encrypt_scalar aead nonce plaintext "str" key additional ≡ ok enc)
        × (is_enc_value enc ≡ true)
        × (decrypt_scalar aead enc key additional ≡ ok (plaintext, "str"))
    scalar_round = (
      print_token token,
      encrypt_scalar-ok,
      is_enc_value-print_token token token-IsPlainToken,
      decrypt_scalar-token,
    )

  pub verify_mac-encrypt_mac :
      (nonce : Result Bytes) (mac last_modified : String)
      → Opens aead key nonce mac last_modified
      → (stored : String) × (encrypt_mac aead nonce mac key last_modified ≡ ok stored)
        × (verify_mac aead stored key last_modified mac ≡ ok tt)
  unfolding encrypt_mac verify_mac
  verify_mac-encrypt_mac nonce mac last_modified o =
      let (enc, made, _, opened) = scalar_round nonce mac last_modified o in
      (enc, made, rw opened (rw ((eq_iff mac mac).1 refl) refl))

module _ (aead : Aead) (random : Random) (key : Bytes) (K : aead.key_fault key ≡ none) where
  decrypt_full_value :
      (n : ℕ) (kv : Kv)
      → (kv.value == "") ≡ false
      → Opens aead key (random.nonce n) kv.value (kv.key <> ":")
      → (enc : String) × (encrypt_value aead random key n kv ≡ ok enc)
        × (decrypt_value aead key (record { key = kv.key; enc = enc }) ≡ ok kv.value)
  unfolding encrypt_value decrypt_value decrypt_token
  decrypt_full_value n kv full o =
      let (enc, made, token, opened) =
        scalar_round aead key K (random.nonce n) kv.value (kv.key <> ":") o in
      (enc, rw full (rw made refl), rw token (rw (opened, decrypt_token) refl))

  pub decrypt_value-encrypt_value :
      (n : ℕ) (kv : Kv)
      → ((kv.value == "") ≡ false → Opens aead key (random.nonce n) kv.value (kv.key <> ":"))
      → (enc : String) × (encrypt_value aead random key n kv ≡ ok enc)
        × (decrypt_value aead key (record { key = kv.key; enc = enc }) ≡ ok kv.value)
  unfolding encrypt_value decrypt_value
  decrypt_value-encrypt_value n kv o = elim (Bool-cases (kv.value == "")) [
    | inl empty ↦
        ("", rw empty refl, rw is_enc_value_empty (ap ok (sym ((eq_iff kv.value "").0 empty))))
    | inr full ↦ decrypt_full_value n kv full (o full)
  ]
