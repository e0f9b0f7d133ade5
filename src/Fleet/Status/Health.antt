-- ===== src/Fleet/Status/Health.antt =====
-- What a row tells of the health of a node.
use rucher.Fleet.Resolve.{resolve}
use rucher.Base.Int.{int_beq_iff}
use rucher.Base.Text.{contains_text}
use rucher.Base.Decimal.{itoa}
use rucher.Base.Result.{err, ok, Result}
use rucher.Base.Int.{int_eq}
use rucher.Base.{◌∙◌, ◌&&◌, none, some, ap, ◌<>◌, ◌++◌, if◌then◌else◌}
use rucher.Host.{Answer}
use rucher.Fleet.{Target, NodeConfig, Call, Fleet, append-non_empty}
use rucher.Fleet.Status.{
  live_argv, status_argv, asked, collect_one, collect_from, read_node, read_answer, probe_live,
  note_answer, note_status, first_line_or, pos, note_live, is_bad, json_code, Row, cadre_errors,
  add_error, table_code, table_code_from,
}
use rucher.Agent.{Outcome, any_failed}
use rucher.Agent
use rucher.Base.{
  some, Option, is_empty, ◌≡◌, ◌==◌, ◌||◌, ◌∷◌, refl, Bool, true, false, not, String, List, [],
  arith, string_eq, nat_eq,
}

-- The pass of the agent failed, as a whole or for a cadre.
abbrev pub failed_pass : Agent.Status → Bool
failed_pass st = not (st.error == "") || any_failed st.applied

abbrev IsHealthy : Row → Type 0
IsHealthy row = (is_bad row ≡ false) × (row.pending ≡ false)

table_code_from-one : (rows : List Row) → table_code_from 1 rows ≡ 1
unfolding table_code_from
table_code_from-one [] = refl
table_code_from-one (row ∷ rows) = ground (arith, table_code_from-one rows)

-- The two renderings of the same rows exit with the same code.
pub table_code-json : (rows : List Row) → table_code rows ≡ json_code rows
unfolding table_code table_code_from json_code
table_code-json [] = refl
table_code-json (row ∷ rows) = ground (arith, table_code_from-one rows, table_code-json rows)

not_added : (e : String) (row : Row) → is_bad (add_error e row) ≡ true
unfolding add_error
not_added e row = ground (arith, append-non_empty row.errors e)

cadre_errors-none : (os : List Outcome) → is_empty (cadre_errors os) ≡ not (any_failed os)
unfolding cadre_errors
cadre_errors-none [] = refl
cadre_errors-none (o ∷ os) = ground (arith, cadre_errors-none os)

append-is_empty : (xs ys : List String) → is_empty (xs ++ ys) ≡ (is_empty xs && is_empty ys)
append-is_empty [] ys = refl
append-is_empty (x ∷ xs) ys = refl

-- a choice between a row and a bad one
if-IsHealthy :
    (b : Bool) (p q : Row)
    → (IsHealthy q → ⊥)
    → IsHealthy (if b then p else q)
    → (b ≡ true) × IsHealthy p × ((if b then p else q) ≡ p)
if-IsHealthy true p q bad h = (refl, h, refl)
if-IsHealthy false p q bad h = absurd (bad h)

note_live-IsHealthy :
    (row : Row) (a : Answer) (f : Option String)
    → IsHealthy (note_live row a f)
    → IsHealthy row × ((note_live row a f).revision ≡ row.revision)
unfolding note_live
note_live-IsHealthy row a none h =
    let (e, healthy, same) =
      if-IsHealthy (a.code == pos 0) (record row { live = a.stdout })
        (add_error ("live status: " <> first_line_or a.stderr ("exited " <> itoa a.code)) row)
        (λ k. cc (
          not_added ("live status: " <> first_line_or a.stderr ("exited " <> itoa a.code)) row,
          k.0,
        ))
        h in
    (healthy, ap (λ (r : Row). r.revision) same)
note_live-IsHealthy row a (some e) h = absurd (cc (not_added ("live status: " <> e) row, h.0))

no_error :
    (st : Agent.Status) (errors : List String)
    → not (
        is_empty
          ((if st.error == "" then errors else errors ++ st.error ∷ []) ++ cadre_errors st.applied))
      ≡ false
    → failed_pass st ≡ false
no_error st errors h = ground (
  arith,
  h,
  append-is_empty (if st.error == "" then errors else errors ++ st.error ∷ [])
      (cadre_errors st.applied),
  append-non_empty errors st.error,
  cadre_errors-none st.applied,
)

not_bad-errors : (row : Row) → is_bad row ≡ false → not (is_empty row.errors) ≡ false
not_bad-errors row h = ground arith

module _ (decode : String → Result Agent.Status) where
  -- what a healthy row says of the status file
  abbrev pub Reported : Answer → String → Type 0
  Reported a revision =
      (st : Agent.Status) × (decode a.stdout ≡ ok st)
      × (failed_pass st ≡ false)
      × (revision ≡ st.revision)

  note_status-Reported :
      (a : Answer) (row : Row) (r : Result Agent.Status)
      → decode a.stdout ≡ r
      → IsHealthy (note_status row r)
      → Reported a (note_status row r).revision
  unfolding note_status
  note_status-Reported a row (err e) d h =
      absurd (cc (not_added ("unreadable agent status: " <> e) row, h.0))
  note_status-Reported a row (ok st) d h =
      (st, d, no_error st row.errors (not_bad-errors (note_status row (ok st)) h.0), refl)

  unread-sick :
      (b : Bool) (row : Row) (e : String)
      → IsHealthy (if b then record row { pending = true } else add_error e row)
      → ⊥
  unread-sick true row e h = cc (h.1)
  unread-sick false row e h = cc (not_added e row, h.0)

  note_answer-Reported :
      (row : Row) (a : Answer)
      → IsHealthy (note_answer decode row a)
      → (a.code ≡ pos 0) × Reported a (note_answer decode row a).revision
  unfolding note_answer
  note_answer-Reported row a h =
      let failed_row : Row =
        if contains_text a.stderr "No such file"
        then record row { pending = true }
        else add_error
            ("read agent status: " <> first_line_or a.stderr ("cat exited " <> itoa a.code)) row in
      let (e, healthy, same) =
        if-IsHealthy (a.code == pos 0) (note_status row (decode a.stdout)) failed_row
          (unread-sick (contains_text a.stderr "No such file") row
            ("read agent status: " <> first_line_or a.stderr ("cat exited " <> itoa a.code)))
          h in
      let (st, d, fine, rev) = note_status-Reported a row (decode a.stdout) refl healthy in
      ((int_beq_iff a.code (pos 0)).0 e, (st, d, fine, ap (λ (r : Row). r.revision) same ∙ rev))

module _ (fleet : Fleet) (decode : String → Result Agent.Status) where
  -- the answer of a node to the read of its status file, and what it says
  abbrev pub StatusRead : String → Row → List Call → Type 0
  StatusRead name row calls =
      (cfg : NodeConfig) × (t : Target) × (fleet.config_of name ≡ ok cfg)
      × (resolve fleet name cfg ≡ ok t)
      × ((fleet.reply calls (asked fleet decode t status_argv)).fault ≡ none)
      × ((fleet.reply calls (asked fleet decode t status_argv)).code ≡ pos 0)
      × Reported decode (fleet.reply calls (asked fleet decode t status_argv)) row.revision

  probe_live-IsHealthy :
      (live : Bool) (t : Target) (row : Row) (calls : List Call)
      → IsHealthy (probe_live fleet decode live t row calls).0
      → IsHealthy row × ((probe_live fleet decode live t row calls).0.revision ≡ row.revision)
  unfolding probe_live
  probe_live-IsHealthy false t row calls h = (h, refl)
  probe_live-IsHealthy true t row calls h =
      note_live-IsHealthy row (fleet.reply calls (asked fleet decode t live_argv)) _ h

  read_answer-Reported :
      (live : Bool) (t : Target) (row : Row) (a : Answer) (f : Option String) (calls : List Call)
      → IsHealthy (read_answer fleet decode live t row a f calls).0
      → (f ≡ none)
        × (a.code ≡ pos 0)
        × Reported decode a (read_answer fleet decode live t row a f calls).0.revision
  unfolding read_answer
  read_answer-Reported live t row a (some e) calls h = absurd (cc (not_added e row, h.0))
  read_answer-Reported live t row a none calls h =
      let read : Row = note_answer decode (record row { reachable = true }) a in
      let (healthy, same) = probe_live-IsHealthy live t read calls h in
      let (code, (st, d, fine, rev)) =
        note_answer-Reported decode (record row { reachable = true }) a healthy in
      (refl, code, (st, d, fine, same ∙ rev))

  read_node-Read :
      (name : String) (cfg : NodeConfig) (live : Bool) (row : Row) (r : Result Target)
      (calls : List Call)
      → fleet.config_of name ≡ ok cfg
      → resolve fleet name cfg ≡ r
      → IsHealthy (read_node fleet decode live row r calls).0
      → StatusRead name (read_node fleet decode live row r calls).0 calls
  unfolding read_node
  read_node-Read name cfg live row (err e) calls c s h = absurd (ground (arith, h.0))
  read_node-Read name cfg live row (ok t) calls c s h =
      let (f, code, reported) = read_answer-Reported live t row _ _ _ h in
      (cfg, t, c, s, f, code, reported)

  collect_from-Read :
      (name : String) (live : Bool) (r : Result NodeConfig) (calls : List Call)
      → fleet.config_of name ≡ r
      → IsHealthy (collect_from fleet decode name live r calls).0
      → StatusRead name (collect_from fleet decode name live r calls).0 calls
  unfolding collect_from
  collect_from-Read name live (err e) calls c h = absurd (cc (h.0))
  collect_from-Read name live (ok cfg) calls c h =
      read_node-Read name cfg live _ (resolve fleet name cfg) calls c refl h

  -- A node that is shown as reachable, without errors and not as pending, was asked for its status file and
  -- answered with one of a pass that succeeded, and the revision shown is that of the file. So no broken
  -- configuration, no failed connection, no unreadable file and no failed pass reads as healthy.
  pub collect_one-IsHealthy :
      (name : String) (live : Bool) (calls : List Call)
      → is_bad (collect_one fleet decode name live calls).0 ≡ false
      → (collect_one fleet decode name live calls).0.pending ≡ false
      → StatusRead name (collect_one fleet decode name live calls).0 calls
  unfolding collect_one
  collect_one-IsHealthy name live calls bad pending =
      collect_from-Read name live (fleet.config_of name) calls refl (bad, pending)
