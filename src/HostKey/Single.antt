-- ===== src/HostKey/Single.antt =====
-- No interleaving of the connections makes the program trust two keys of a host.
use rucher.HostKey.{
  Line, Verdict, matches, mismatch, unknown, failure, Phase, dialing, reading, pinning, accepted,
  refused, Session, Hosts, in_phase, decide, append_known_host, Act, read, call, pin, fail, Some,
  here, there, Runs, done, more, is_pinned, has_host, IsSingle, IsRight,
}
use rucher.Base.{
  any-append, ◌≡◌, ◌⊎◌, ◌∙◌, ◌==◌, ◌&&◌, ◌||◌, ◌∷◌, ◌++◌, refl, sym, inl, inr, Bool, true, false,
  String, List, [], arith, eq_iff, string_eq, nat_eq, All, Bool-cases,
}

is_pinned-host :
    (host key : String) (known : List Line)
    → is_pinned host key known ≡ true
    → has_host host known ≡ true
is_pinned-host host key [] h = ground (arith, h)
is_pinned-host host key (l ∷ known) h = ground (arith, h, is_pinned-host host key known)

-- every line of one file is a line of the other
record IsPart (old known : List Line) : Type 0 where
  at : (host key : String) → is_pinned host key old ≡ true → is_pinned host key known ≡ true

IsPart-append : (known : List Line) (line : Line) → IsPart known (known ++ line ∷ [])
IsPart-append known line = record {
  at = λ host key h. rw (any-append (λ l. l.0 == host && l.1 == key) known (line ∷ []), h) refl;
}

is_pinned-append :
    (known : List Line) (host key h a : String)
    → is_pinned h a (known ++ (host, key) ∷ []) ≡ (is_pinned h a known || (host == h && key == a))
is_pinned-append [] host key h a = ground arith
is_pinned-append (l ∷ known) host key h a = ground (arith, is_pinned-append known host key h a)

-- a line of the longer file: an old one, or the new one
added :
    (known : List Line) (host key h a : String)
    → is_pinned h a (known ++ (host, key) ∷ []) ≡ true
    → (is_pinned h a known ≡ true) ⊎ ((host ≡ h) × (key ≡ a))
added known host key h a e = elim (Bool-cases (is_pinned h a known)) [
  | inl old ↦ inl old
  | inr new ↦
      let both : (host == h && key == a) ≡ true =
        (let f : (is_pinned h a known || (host == h && key == a)) ≡ true =
            sym (is_pinned-append known host key h a) ∙ e in
          rw new at f) in
      inr ((eq_iff host h).0 (ground (arith, both)), (eq_iff key a).0 (ground (arith, both)))
]

not_both :
    (known : List Line) (host h a : String)
    → has_host host known ≡ false
    → host ≡ h
    → is_pinned h a known ≡ true
    → ⊥
not_both known host h a absent same pinned =
    let there : has_host h known ≡ true = is_pinned-host h a known pinned in
    let gone : has_host h known ≡ false = rw same at absent in cc (there, gone)

-- a new line for a host without one
IsSingle-append :
    (known : List Line) (host key : String)
    → has_host host known ≡ false
    → IsSingle known
    → IsSingle (known ++ (host, key) ∷ [])
IsSingle-append known host key absent single = λ h a b ha hb. elim (added known host key h a ha) [
  | inl olda ↦ elim (added known host key h b hb) [
    | inl oldb ↦ single h a b olda oldb
    | inr (same, eb) ↦ absurd (not_both known host h a absent same olda)
  ]
  | inr (same, ea) ↦ elim (added known host key h b hb) [
    | inl oldb ↦ absurd (not_both known host h b absent same oldb)
    | inr (same', eb) ↦ sym ea ∙ eb
  ]
]

-- what a connection has seen of the file, and that an accepted key is in it
abbrev Seen : Phase → String → String → List Line → Type 0
Seen dialing host key known = Unit
Seen (reading old) host key known = IsPart old known
Seen pinning host key known = Unit
Seen accepted host key known = is_pinned host key known ≡ true
Seen refused host key known = Unit

abbrev AllSeen : List Session → List Line → Type 0
AllSeen [] known = Unit
AllSeen (s ∷ ss) known = Seen s.phase s.host s.key known × AllSeen ss known

Seen-part :
    (p : Phase) (host key : String) (k l : List Line)
    → IsPart k l
    → Seen p host key k
    → Seen p host key l
Seen-part dialing host key k l h x = tt
Seen-part (reading old) host key k l h x = record { at = λ g j e. h.at g j (x.at g j e) }
Seen-part pinning host key k l h x = tt
Seen-part accepted host key k l h x = h.at host key x
Seen-part refused host key k l h x = tt

AllSeen-part : (ss : List Session) (k l : List Line) → IsPart k l → AllSeen ss k → AllSeen ss l
AllSeen-part [] k l h x = tt
AllSeen-part (s ∷ ss) k l h x =
    (Seen-part s.phase s.host s.key k l h x.0, AllSeen-part ss k l h x.1)

-- What an action keeps: the old lines, one key for each host, and what the connection has seen.
record Keeps (k l : List Line) (t : Session) : Type 0 where
  part : IsPart k l
  single : IsSingle k → IsSingle l
  seen : Seen t.phase t.host t.key l

IsPart-refl : (k : List Line) → IsPart k k
IsPart-refl k = record { at = λ host key e. e }

module _ (check : List Line → String → String → Verdict) (right : IsRight check) where
  decided-Seen :
      (v : Verdict) (k old : List Line) (s : Session)
      → check old s.host s.key ≡ v
      → IsPart old k
      → Seen (decide v) s.host s.key k
  unfolding decide
  decided-Seen matches k old s e h = h.at s.host s.key (right.pinned old s.host s.key e)
  decided-Seen mismatch k old s e h = tt
  decided-Seen unknown k old s e h = tt
  decided-Seen failure k old s e h = tt

  pinned-Keeps :
      (v : Verdict) (written : Bool) (k : List Line) (s : Session)
      → check k s.host s.key ≡ v
      → Keeps k
          (append_known_host v written k (s.host, s.key)).0
          (in_phase (append_known_host v written k (s.host, s.key)).1 s)
  unfolding append_known_host
  pinned-Keeps matches written k s e = record {
    part = IsPart-refl k;
    single = λ x. x;
    seen = right.pinned k s.host s.key e;
  }
  pinned-Keeps mismatch written k s e = record { part = IsPart-refl k; single = λ x. x; seen = tt }
  pinned-Keeps failure written k s e = record { part = IsPart-refl k; single = λ x. x; seen = tt }
  pinned-Keeps unknown false k s e = record { part = IsPart-refl k; single = λ x. x; seen = tt }
  pinned-Keeps unknown true k s e = record {
    part = IsPart-append k (s.host, s.key);
    single = IsSingle-append k s.host s.key (right.absent k s.host s.key e);
    seen =
        rw (is_pinned-append k s.host s.key s.host s.key)
          (ground (arith, eq_iff s.host s.host, eq_iff s.key s.key));
  }

  Act-Keeps :
      {k : List Line} {s : Session} {l : List Line} {t : Session}
      → Act check k s l t
      → Seen s.phase s.host s.key k
      → Keeps k l t
  Act-Keeps (read k s e) x = record { part = IsPart-refl k; single = λ y. y; seen = IsPart-refl k }
  Act-Keeps (call k old s e) x = record {
    part = IsPart-refl k;
    single = λ y. y;
    seen = decided-Seen _ k old s refl (rw e at x);
  }
  Act-Keeps (pin k s written e) x = pinned-Keeps (check k s.host s.key) written k s refl
  Act-Keeps (fail k s e) x = record { part = IsPart-refl k; single = λ y. y; seen = tt }

  -- the file has one key for each host, and every connection has seen it as it was
  record IsTrusted (k : List Line) (ss : List Session) : Type 0 where
    single : IsSingle k
    seen : AllSeen ss k

  Some-IsPart :
      {k l : List Line} {ss ts : List Session} → Some check k ss l ts → AllSeen ss k → IsPart k l
  Some-IsPart (here ss a) x = (Act-Keeps a x.0).part
  Some-IsPart (there s m) x = Some-IsPart m x.1

  Some-IsSingle :
      {k l : List Line} {ss ts : List Session}
      → Some check k ss l ts
      → AllSeen ss k
      → IsSingle k
      → IsSingle l
  Some-IsSingle (here ss a) x h = (Act-Keeps a x.0).single h
  Some-IsSingle (there s m) x h = Some-IsSingle m x.1 h

  Some-AllSeen :
      {k l : List Line} {ss ts : List Session} → Some check k ss l ts → AllSeen ss k → AllSeen ts l
  Some-AllSeen (here ss a) x =
      ((Act-Keeps a x.0).seen, AllSeen-part ss _ _ (Act-Keeps a x.0).part x.1)
  Some-AllSeen (there s m) x =
      (Seen-part s.phase s.host s.key _ _ (Some-IsPart m x.1) x.0, Some-AllSeen m x.1)

  Runs-IsTrusted :
      (g h : Hosts) → Runs check g h → IsTrusted g.known g.sessions → IsTrusted h.known h.sessions
  Runs-IsTrusted g h done x = x
  Runs-IsTrusted g h (more {k = k} {ss = ss} r m) x =
      let before = Runs-IsTrusted g (record { known = k; sessions = ss }) r x in
      record {
        single = Some-IsSingle m before.seen before.single;
        seen = Some-AllSeen m before.seen;
      }

  -- every connection of a list is at its start
  abbrev pub AllDialing : List Session → Type 0
  AllDialing ss = All (λ s. s.phase ≡ dialing) ss

  AllDialing-AllSeen : (ss : List Session) (k : List Line) → AllDialing ss → AllSeen ss k
  AllDialing-AllSeen [] k d = tt
  AllDialing-AllSeen (s ∷ ss) k d = (rw (d.0) tt, AllDialing-AllSeen ss k d.1)

  -- the connection is one of the list
  abbrev pub Among : Session → List Session → Type 0
  Among s [] = ⊥
  Among s (t ∷ ts) = (s ≡ t) ⊎ Among s ts

  Among-Seen :
      (s : Session) (ss : List Session) (k : List Line)
      → Among s ss
      → AllSeen ss k
      → Seen s.phase s.host s.key k
  Among-Seen s [] k m x = absurd m
  Among-Seen s (t ∷ ts) k (inl e) x = rw e x.0
  Among-Seen s (t ∷ ts) k (inr m) x = Among-Seen s ts k m x.1

  -- Among connections that start together, from a file with at most one key for each host, two that were
  -- accepted for the same host were accepted with the same key, however their reads of the file, their
  -- handshakes and their writes interleave and whichever writes fail. The library's verdicts are right.
  pub Runs-single :
      (known : List Line) (ss : List Session) (h : Hosts) (s t : Session)
      → IsSingle known
      → AllDialing ss
      → Runs check (record { known = known; sessions = ss }) h
      → Among s h.sessions
      → Among t h.sessions
      → s.phase ≡ accepted
      → t.phase ≡ accepted
      → s.host ≡ t.host
      → s.key ≡ t.key
  Runs-single known ss h s t single d r ms mt ea eb same =
      let end =
        Runs-IsTrusted (record { known = known; sessions = ss }) h r
          (record { single = single; seen = AllDialing-AllSeen ss known d }) in
      let ps : is_pinned s.host s.key h.known ≡ true =
        rw ea at (Among-Seen s h.sessions h.known ms end.seen) in
      let pt : is_pinned t.host t.key h.known ≡ true =
        rw eb at (Among-Seen t h.sessions h.known mt end.seen) in
      end.single s.host s.key t.key ps (rw same pt)
