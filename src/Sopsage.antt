-- ===== src/Sopsage.antt =====
-- internal/sopsage: SOPS files over the age backend. The types of format.go and encrypt.go, and what the
-- package calls: the cipher, the hash, the age library and the YAML library, which are parameters.
pub mod Token
pub mod Scalar
pub mod File
pub mod Encrypt
pub mod Decrypt
pub mod Sealed
pub mod RoundTrip
pub mod Totals
pub mod Origins
pub mod Integrity
use rucher.Base.{Bool, String, List, Option, ◌<>◌, [], ◌∷◌, ℕ}
use rucher.Base.Text.{concat}
use rucher.Base.Result.{Result}
use rucher.Base.Base64.{Bytes}

-- AES-GCM with a nonce of 32 bytes: the error of `aes.NewCipher`, `Seal`, which appends the tag of 16 bytes,
-- and `Open`. A plaintext is the text that it is taken from or given to.
pub record Aead : Type 0 where
  pub key_fault : Bytes → Option String
  pub seal : Bytes → Bytes → String → String → Bytes
  pub unseal : Bytes → Bytes → Bytes → String → Result String

-- `ageStanza`
pub record Stanza : Type 0 where
  pub enc : String
  pub recipient : String

-- `sopsMeta`
pub record SopsMeta : Type 0 where
  pub age : List Stanza
  pub last_modified : String
  pub mac : String
  pub unencrypted_suffix : String
  pub version : String
  pub mac_only_encrypted : Bool

-- `encPair`
pub record EncPair : Type 0 where
  pub key : String
  pub enc : String

-- `KV`
pub record Kv : Type 0 where
  pub key : String
  pub value : String

-- a value of a YAML mapping: a scalar, or a block, which is its text
pub data Node : Type 0 where
  scalar : String → Node
  block : String → Node

-- a YAML document: a mapping as its keys with their values, or another one
pub data Document : Type 0 where
  mapping : List (String × Node) → Document
  other_shape : Document

-- an entry that is written: double quotes are asked for a value that is empty
pub record Entry : Type 0 where
  pub key : String
  pub value : Node
  pub quoted : Bool

-- The age library: the identities of an identity file, and what they unwrap; and `Seal` of internal/age.
pub record Age {ℓ} (Ids : Type ℓ) : Type ℓ where
  pub parse_identities : String → Result Ids
  pub unwrap : Ids → String → Result Bytes
  pub seal : String → Bytes → Result String

pub record Yaml : Type 0 where
  pub unmarshal : String → Result Document
  pub marshal : List Entry → Result String
  pub decode_meta : Option SopsMeta → Node → Result SopsMeta
  pub encode_meta : SopsMeta → Result String

-- what the package reads from crypto/rand: the data key, the nonce of the value at a place, and of the MAC
pub record Random : Type 0 where
  pub data_key : Result Bytes
  pub nonce : ℕ → Result Bytes
  pub mac_nonce : Result Bytes

-- `computeMAC`, over SHA-512 in upper-case hexadecimal
unfoldable pub compute_mac : (String → String) → List String → String
unfolding concat
compute_mac sha512 values = sha512 (concat values)
