-- ===== src/Sopsage/Scalar.antt =====
-- internal/sopsage/cipher.go: one value, and internal/sopsage/mac.go: the MAC as such a value.
use rucher.Base.{
  ℕ, zero, suc, ◌-◌, ◌==◌, ◌<>◌, ◌∷◌, ◌++◌, not, none, some, String, [], string_eq, nat_eq, length,
}
use rucher.Sopsage.{Aead}
use rucher.Sopsage.Token.{Token, read_token, print_token}
use rucher.Base.Base64.{Bytes, encode, decode}
use rucher.Base.Result.{Result, ok, err, with_context, reject, ◌>>=◌, ◌>>◌}

abbrev nonce_size : ℕ
nonce_size = 32

abbrev tag_size : ℕ
tag_size = 16

-- `b[:len(b)-tagSize]` and `b[len(b)-tagSize:]`
unfoldable pub take_bytes : ℕ → Bytes → Bytes
take_bytes zero bs = []
take_bytes (suc n) [] = []
take_bytes (suc n) (b ∷ bs) = b ∷ take_bytes n bs

unfoldable pub drop_bytes : ℕ → Bytes → Bytes
drop_bytes zero bs = bs
drop_bytes (suc n) [] = []
drop_bytes (suc n) (b ∷ bs) = drop_bytes n bs

-- `newGCM`
unfoldable pub new_gcm : Aead → Bytes → Result (Unit {0})
new_gcm cipher key = elim (cipher.key_fault key) [
  | none ↦ ok tt
  | some e ↦ err ("aes cipher: " <> e)
]

unfoldable pub token_for : Bytes → Bytes → String → Token
token_for sealed iv typ =
    let n = length sealed - tag_size in
    record {
      text = encode (take_bytes n sealed);
      iv = encode iv;
      tag = encode (drop_bytes n sealed);
      typ = typ;
    }

-- `encryptScalar`; the nonce is what `rand.Read` gives
unfoldable pub encrypt_scalar :
    Aead → Result Bytes → String → String → Bytes → String → Result String
encrypt_scalar cipher nonce plaintext typ key additional = do
  new_gcm cipher key
  iv ← nonce
  ok (print_token (token_for (cipher.seal key iv plaintext additional) iv typ))

unfoldable pub open_token : Aead → Token → Bytes → String → Result (String × String)
open_token cipher t key additional = do
  text ← with_context "decode data" (decode t.text)
  iv ← with_context "decode iv" (decode t.iv)
  tag ← with_context "decode tag" (decode t.tag)
  new_gcm cipher key
  reject (not (length iv == nonce_size)) "invalid iv length"
  reject (not (length tag == tag_size)) "invalid tag length"
  plaintext ← with_context "gcm open" (cipher.unseal key iv (text ++ tag) additional)
  ok (plaintext, t.typ)

-- `decryptScalar`
unfoldable pub decrypt_scalar : Aead → String → Bytes → String → Result (String × String)
decrypt_scalar cipher enc key additional = elim (read_token enc) [
  | none ↦ err ("not a SOPS-encrypted value: " <> enc)
  | some t ↦ open_token cipher t key additional
]

-- `encryptMAC`
unfoldable pub encrypt_mac : Aead → Result Bytes → String → Bytes → String → Result String
encrypt_mac cipher nonce mac key last_modified =
    encrypt_scalar cipher nonce mac "str" key last_modified

-- `verifyMAC`
unfoldable pub verify_mac : Aead → String → Bytes → String → String → Result (Unit {0})
verify_mac cipher stored key last_modified computed = do
  opened ← with_context "decrypt mac" (decrypt_scalar cipher stored key last_modified)
  reject (not (opened.0 == computed)) "MAC mismatch: file integrity check failed"
