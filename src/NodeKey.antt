-- ===== src/NodeKey.antt =====
-- internal/nodekey/nodekey.go: the node's own age key, in one file. The state is that file; how the
-- system calls on it fail, and the age library, are parameters.
use rucher.Base.Text.{trim_space}
use rucher.Base.Result.{ok, err, Result, ◌>>=◌}
use rucher.Reconcile.New.{Keys}
use rucher.Base.{◌≡◌, ◌<>◌, refl, none, some, Option, String}

data KeyFile : Type 0 where
  missing : KeyFile
  unreadable : String → KeyFile
  holds : String → KeyFile

-- The error of a read of a file that is not there, and the failures of the making of the directory and
-- of the write, which may leave part of the text.
record Disk : Type 0 where
  not_found : String
  mkdir_fault : Option String
  write_fault : Option (String × KeyFile)

module _ (disk : Disk) (keys : Keys) where
  -- `Identity`
  unfoldable identity_in : KeyFile → Result String
  identity_in missing = err disk.not_found
  identity_in (unreadable e) = err e
  identity_in (holds text) = ok (trim_space text)

  -- `Recipient`
  unfoldable recipient_in : KeyFile → Result String
  recipient_in f = identity_in f >>= keys.recipient_for

  unfoldable store_identity : String × String → Result String × KeyFile
  store_identity (id, r) = elim disk.mkdir_fault [
    | some e ↦ (err e, missing)
    | none ↦ elim disk.write_fault [
      | some (e, left) ↦ (err e, left)
      | none ↦ (ok r, holds (id <> "\n"))
    ]
  ]

  unfoldable create_identity : Result (String × String) → Result String × KeyFile
  create_identity (err e) = (err e, missing)
  create_identity (ok made) = store_identity made

  -- `EnsureIdentity`
  unfoldable ensure_identity : KeyFile → Result String × KeyFile
  ensure_identity missing = create_identity keys.generate
  ensure_identity (unreadable e) = (recipient_in (unreadable e), unreadable e)
  ensure_identity (holds text) = (recipient_in (holds text), holds text)

  -- A second call returns the recipient that the first one generated and leaves the file as it is. The age
  -- library derives from the identity, with the space at its ends cut off, the recipient it came with.
  ensure_identity-again :
      (id r : String)
      → keys.generate ≡ ok (id, r)
      → keys.recipient_for (trim_space (id <> "\n")) ≡ ok r
      → disk.mkdir_fault ≡ none
      → disk.write_fault ≡ none
      → (ensure_identity missing ≡ (ok r, holds (id <> "\n")))
        × (ensure_identity (ensure_identity missing).1 ≡ ensure_identity missing)
  unfolding ensure_identity create_identity store_identity recipient_in identity_in
  ensure_identity-again id r made derives mkdir write =
      (rw made (rw mkdir (rw write refl)), rw made (rw mkdir (rw write (rw derives refl))))
