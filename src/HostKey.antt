-- ===== src/HostKey.antt =====
-- internal/sshx/hostkey.go: trust on first use, with the connections of a run side by side. The lookup in
-- the file of known hosts belongs to the ssh library and is a parameter.
pub mod Single
use rucher.Base.{
  any, ℕ, zero, suc, ◌+◌, ◌≤◌, ◌<◌, ◌≡◌, ◌≢◌, ◌↔◌, ◌⊎◌, ◌∙◌, ◌==◌, ◌&&◌, ◌||◌, ◌<>◌, ◌∷◌, ◌++◌,
  refl, sym, ap, inl, inr, Bool, true, false, not, Option, none, some, String, List, [], map, arith,
  eq_iff, if◌then◌else◌, string_eq, nat_eq, contains, All, Bool-cases, Option-cases,
}

-- a line of the file: the host and its key
abbrev pub Line : Type 0
Line = String × String

-- What the callback of the library says of a host and its key: nil, a KeyError with keys that it wants, one
-- with none, or another error.
pub data Verdict : Type 0 where
  matches : Verdict
  mismatch : Verdict
  unknown : Verdict
  failure : Verdict

-- how far a connection has come: it has no callback yet; its callback has read the file; it is to pin the
-- key; the key is accepted; the connection has failed
pub data Phase : Type 0 where
  dialing : Phase
  reading : List Line → Phase
  pinning : Phase
  accepted : Phase
  refused : Phase

pub record Session : Type 0 where
  pub host : String
  pub key : String
  pub phase : Phase

-- the file, and the connections
pub record Hosts : Type 0 where
  pub known : List Line
  pub sessions : List Session

abbrev pub in_phase : Phase → Session → Session
in_phase p s = record s { phase = p }

-- the callback of acceptNewHostKey, by the verdict on the file as it was read
unfoldable pub decide : Verdict → Phase
decide matches = accepted
decide mismatch = refused
decide unknown = pinning
decide failure = refused

-- appendKnownHost, by the verdict on the file as it is now, and by whether the write succeeds; a write that
-- fails leaves the file as it was here, where it may leave a part of the line
unfoldable pub append_known_host : Verdict → Bool → List Line → Line → List Line × Phase
append_known_host matches written known line = (known, accepted)
append_known_host mismatch written known line = (known, refused)
append_known_host failure written known line = (known, refused)
append_known_host unknown true known line = (known ++ line ∷ [], accepted)
append_known_host unknown false known line = (known, refused)

module _ (check : List Line → String → String → Verdict) where
  -- one action of one connection: the two that hold the lock, and the callback in between
  pub data Act : List Line → Session → List Line → Session → Type 0 where
    read :
        (known : List Line) (s : Session)
        → s.phase ≡ dialing
        → Act known s known (in_phase (reading known) s)
    call :
        (known old : List Line) (s : Session)
        → s.phase ≡ reading old
        → Act known s known (in_phase (decide (check old s.host s.key)) s)
    pin :
        (known : List Line) (s : Session) (written : Bool)
        → s.phase ≡ pinning
        → Act known s
            (append_known_host (check known s.host s.key) written known (s.host, s.key)).0
            (in_phase
              (append_known_host (check known s.host s.key) written known (s.host, s.key)).1
              s)
    fail :
        (known : List Line) (s : Session)
        → s.phase ≡ dialing
        → Act known s known (in_phase refused s)

  pub data Some : List Line → List Session → List Line → List Session → Type 0 where
    here :
        {k l : List Line} {s t : Session} (ss : List Session)
        → Act k s l t
        → Some k (s ∷ ss) l (t ∷ ss)
    there :
        {k l : List Line} (s : Session) {ss ts : List Session}
        → Some k ss l ts
        → Some k (s ∷ ss) l (s ∷ ts)

  -- any interleaving
  pub data Runs (h : Hosts) : Hosts → Type 0 where
    done : Runs h h
    more :
        {k l : List Line} {ss ts : List Session}
        → Runs h (record { known = k; sessions = ss })
        → Some k ss l ts
        → Runs h (record { known = l; sessions = ts })

abbrev pub is_pinned : String → String → List Line → Bool
is_pinned host key known = any (λ l. l.0 == host && l.1 == key) known

abbrev pub has_host : String → List Line → Bool
has_host host known = any (λ l. l.0 == host) known

-- no host has two keys
abbrev pub IsSingle : List Line → Type 0
IsSingle known =
    (host a b : String) → is_pinned host a known ≡ true → is_pinned host b known ≡ true → a ≡ b

-- The library is right: a key that it says is pinned is in the file, and a host that it does not know has
-- no line there.
pub record IsRight (check : List Line → String → String → Verdict) : Type 0 where
  pub pinned :
      (known : List Line) (host key : String)
      → check known host key ≡ matches
      → is_pinned host key known ≡ true
  pub absent :
      (known : List Line) (host key : String)
      → check known host key ≡ unknown
      → has_host host known ≡ false
