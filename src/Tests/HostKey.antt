-- ===== src/Tests/HostKey.antt =====
-- Two connections to a new host that both find it unknown before either has pinned its key.
use rucher.HostKey.{
  Line, Verdict, matches, mismatch, unknown, Session, Hosts, dialing, accepted, Act, Runs,
  is_pinned, has_host, IsRight, Some, decide, append_known_host,
}
use rucher.HostKey.Single.{Runs-single}
use rucher.Base.{
  ◌≡◌, ◌∷◌, refl, inl, inr, Bool, true, false, String, List, [], if◌then◌else◌, string_eq, nat_eq,
}

abbrev library : List Line → String → String → Verdict
library known host key =
    if is_pinned host key known then matches else if has_host host known then mismatch else unknown

abbrev verdict : Bool → Bool → Verdict
verdict p q = if p then matches else if q then mismatch else unknown

verdict-matches : (p q : Bool) → verdict p q ≡ matches → p ≡ true
verdict-matches true q h = refl
verdict-matches false true h = cc
verdict-matches false false h = cc

verdict-unknown : (p q : Bool) → verdict p q ≡ unknown → q ≡ false
verdict-unknown true q h = cc
verdict-unknown false true h = cc
verdict-unknown false false h = refl

library-IsRight : IsRight library
library-IsRight = record {
  pinned = λ known host key h. verdict-matches _ _ h;
  absent = λ known host key h. verdict-unknown _ _ h;
}

abbrev visit : Session
visit = record { host = "n1:22"; key = "k"; phase = dialing }

abbrev trusted : Session
trusted = record visit { phase = accepted }

abbrev both_in : Hosts
both_in = record { known = ("n1:22", "k") ∷ []; sessions = trusted ∷ trusted ∷ [] }

race : Runs library (record { known = []; sessions = visit ∷ visit ∷ [] }) both_in
unfolding decide append_known_host
race =
    Runs.more
      (Runs.more
        (Runs.more
          (Runs.more
            (Runs.more (Runs.more Runs.done (Some.here _ (Act.read [] _ refl)))
              (Some.there _ (Some.here [] (Act.read [] _ refl))))
            (Some.here _ (Act.call [] [] _ refl)))
          (Some.there _ (Some.here [] (Act.call [] [] _ refl))))
        (Some.here _ (Act.pin [] _ true refl)))
      (Some.there _ (Some.here [] (Act.pin (("n1:22", "k") ∷ []) _ true refl)))

Runs-single_example : trusted.key ≡ trusted.key
Runs-single_example =
    Runs-single library library-IsRight [] (visit ∷ visit ∷ []) both_in trusted trusted
      (λ host a b h k. absurd (cc h)) (refl, (refl, tt)) race (inl refl) (inr (inl refl)) refl refl
      refl
