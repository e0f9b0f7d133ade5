-- ===== src/Secrets.antt =====
-- internal/secrets/secrets.go: the decrypted values of a cadre's SOPS file, and their hashes.
use rucher.Base.Dict.{Dict}
use rucher.Base.Result.{with_context, Result, ◌>>=◌}
use rucher.Host.{Env, World}
use rucher.Base.{◌<>◌, ◌∷◌, String, [], string_eq, nat_eq}

module _ (env : Env) where
  -- Decrypt
  unfoldable pub decrypt : String → String → World → Result (Dict String)
  decrypt identity_path sops_path w = do
    identity ← with_context "read cadre age identity" (env.read_file w.trace identity_path)
    sops ← with_context ("read " <> sops_path) (env.read_file w.trace sops_path)
    with_context ("decrypt " <> sops_path) (env.decrypt identity sops)

-- Hashes
unfoldable pub hashes : (String → String) → Dict String → Dict String
hashes hash [] = []
hashes hash ((k, v) ∷ values) = (k, hash v) ∷ hashes hash values
