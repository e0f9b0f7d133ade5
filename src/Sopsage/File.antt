-- ===== src/Sopsage/File.antt =====
-- internal/sopsage/format.go: the file as entries and the metadata block.
use rucher.Base.{
  ◌==◌, ◌<>◌, ◌∷◌, ◌++◌, false, Option, none, some, String, List, [], if◌then◌else◌, string_eq,
  nat_eq, contains,
}
use rucher.Sopsage.{
  EncPair, SopsMeta, Node, scalar, block, Document, mapping, other_shape, Entry, Yaml,
}
use rucher.Base.Result.{Result, ok, err, with_context, ◌>>=◌}

-- `Node.Value`, which is empty on a mapping
unfoldable pub value_of : Node → String
value_of (scalar v) = v
value_of (block t) = ""

unfoldable pub with_meta : List EncPair × Option SopsMeta → Result (List EncPair × SopsMeta)
with_meta (pairs, none) = err "no sops metadata block"
with_meta (pairs, some meta) = ok (pairs, meta)

unfoldable pub data_entries : List EncPair → List Entry
data_entries [] = []
data_entries (p ∷ pairs) =
    record { key = p.key; value = scalar p.enc; quoted = p.enc == "" } ∷ data_entries pairs

module _ (yaml : Yaml) where
  -- the loop, with the data keys seen so far and the last metadata block
  unfoldable pub parse_entries :
      List String → Option SopsMeta → List (String × Node) → Result (List EncPair × Option SopsMeta)
  unfolding value_of
  parse_entries seen meta [] = ok ([], meta)
  parse_entries seen meta ((key, node) ∷ rest) =
      let as_meta = λ (m : SopsMeta). parse_entries seen (some m) rest in
      let as_pair = parse_entries (key ∷ seen) meta rest in
      if key == "sops"
      then with_context "decode sops metadata" (yaml.decode_meta meta node) >>= as_meta
      else if contains key seen
      then err ("duplicate data key " <> key)
      else as_pair >>= λ r. ok (record { key = key; enc = value_of node } ∷ r.0, r.1)

  unfoldable pub parse_document : Document → Result (List EncPair × SopsMeta)
  parse_document other_shape = err "unexpected SOPS file shape"
  parse_document (mapping entries) = parse_entries [] none entries >>= with_meta

  -- `parseEncryptedFile`
  unfoldable pub parse_encrypted_file : String → Result (List EncPair × SopsMeta)
  parse_encrypted_file text = do
    doc ← with_context "parse yaml" (yaml.unmarshal text)
    parse_document doc

  unfoldable pub file_entries : List EncPair → SopsMeta → Result (List Entry)
  file_entries pairs meta = do
    text ← with_context "encode sops metadata" (yaml.encode_meta meta)
    ok (data_entries pairs ++ record { key = "sops"; value = block text; quoted = false } ∷ [])

  -- `emitEncryptedFile`
  unfoldable pub emit_encrypted_file : List EncPair → SopsMeta → Result String
  emit_encrypted_file pairs meta = file_entries pairs meta >>= yaml.marshal
