-- ===== src/Fleet/Config.antt =====
-- internal/nodecfg/nodecfg.go: the configuration of a node, and the list of the nodes. Reads, the YAML
-- encoder and the decoder are parameters. `Load` of one file and `WriteNetwork` are left out.
use rucher.Base.Sort.{sort}
use rucher.Base.Path.{join_path}
use rucher.Fleet.{NodeConfig}
use rucher.Agent.{DirEntry}
use rucher.Fleet.Merge.{merge, nil, Entries}
use rucher.Base.Result.{err, with_context, ok, Result, ◌>>=◌, >>=-eq-ok}
use rucher.Base.{
  ◌≡◌, ◌&&◌, ◌<>◌, ◌∷◌, refl, Bool, true, false, String, List, [], if◌then◌else◌, string_eq, nat_eq,
}

-- what a read of a YAML map finds; a file that is not there has the error of its own
pub data ReadMap : Type 0 where
  document : Entries → ReadMap
  missing : String → ReadMap
  broken : String → ReadMap

-- The files under a directory of nodes, and the YAML library: `decode true` refuses unknown keys.
pub record Files : Type 0 where
  pub read_map : String → ReadMap
  pub marshal : Entries → Result String
  pub decode : Bool → String → Result NodeConfig
  pub read_dir : String → Result (List DirEntry)
  pub exists : String → Bool

-- the document of all nodes: it may be missing
unfoldable pub global_document : ReadMap → Result Entries
global_document (document m) = ok m
global_document (missing e) = ok nil
global_document (broken e) = err e

unfoldable pub node_document : ReadMap → Result Entries
node_document (document m) = ok m
node_document (missing e) = err e
node_document (broken e) = err e

module _ (files : Files) where
  unfoldable pub merged_bytes : String → String → Result String
  merged_bytes nodes_dir name = do
    global ← global_document (files.read_map (join_path (nodes_dir ∷ "configuration.yml" ∷ [])))
    node_doc ←
        node_document (files.read_map (join_path (nodes_dir ∷ name ∷ "configuration.yml" ∷ [])))
    files.marshal (merge global node_doc)

  unfoldable pub load_merged : String → String → Result NodeConfig
  load_merged nodes_dir name = do
    out ← merged_bytes nodes_dir name
    with_context ("parse merged " <> (name <> " config")) (files.decode false out)

  unfoldable pub validate_merged : String → String → Result (Unit {0})
  validate_merged nodes_dir name = do
    out ← merged_bytes nodes_dir name
    c ← files.decode true out
    ok tt

  -- the loop of `List`
  unfoldable pub node_names : String → List DirEntry → List String
  node_names nodes_dir [] = []
  node_names nodes_dir (e ∷ es) =
      let rest = node_names nodes_dir es in
      if e.is_dir && files.exists (join_path (nodes_dir ∷ e.base ∷ "configuration.yml" ∷ []))
      then e.base ∷ rest
      else rest

  unfoldable pub list_nodes : String → Result (List String)
  list_nodes nodes_dir = do es ← files.read_dir nodes_dir; ok (sort (node_names nodes_dir es))

  load_merged-eq :
      (nodes_dir name out : String) (c : NodeConfig)
      → merged_bytes nodes_dir name ≡ ok out
      → files.decode false out ≡ ok c
      → load_merged nodes_dir name ≡ ok c
  unfolding load_merged
  load_merged-eq nodes_dir name out c e d = rw e (rw d refl)

  -- A strict check that passes is no looser than the load: when unknown keys are only refused, never read
  -- differently, a node whose configuration validates can be loaded.
  pub validate_merged-loads :
      (nodes_dir name : String)
      → ((text : String) (c : NodeConfig)
          → files.decode true text ≡ ok c
          → files.decode false text ≡ ok c)
      → validate_merged nodes_dir name ≡ ok tt
      → (c : NodeConfig) × (load_merged nodes_dir name ≡ ok c)
  unfolding validate_merged
  validate_merged-loads nodes_dir name lenient h =
      let (out, e1, rest) =
        >>=-eq-ok (merged_bytes nodes_dir name) (λ t. files.decode true t >>= λ c. ok tt) h in
      let (c, e2, done) = >>=-eq-ok (files.decode true out) (λ c. ok tt) rest in
      (c, load_merged-eq nodes_dir name out c e1 (lenient out c e2))
