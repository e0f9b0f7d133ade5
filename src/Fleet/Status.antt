-- ===== src/Fleet/Status.antt =====
-- internal/nodestatus/nodestatus.go: the status of a node, read over ssh, and the exit codes of its two
-- renderings in cmd/rucher/nodescmd.go. Decoding the JSON of the agent is a parameter.
pub mod Clean
pub mod Health
use rucher.Base.Decimal.{itoa}
use rucher.Base.Int.{pos, int_eq}
use rucher.Fleet.Resolve.{resolve}
use rucher.Fleet.{Call, NodeConfig, Target, Fleet}
use rucher.Host.{Answer}
use rucher.Base.Result.{ok, err, Result}
use rucher.Agent.{Status, Outcome}
use rucher.Base.Text.{contains_text, char_cons, before, trim_space}
use rucher.Base.{
  length, is_empty, code, leb, ℕ, zero, suc, ◌+◌, ◌≤◌, ◌<◌, ◌≡◌, ◌≢◌, ◌↔◌, ◌⊎◌, ◌∙◌, ◌==◌, ◌&&◌,
  ◌||◌, ◌<>◌, ◌∷◌, ◌++◌, refl, sym, ap, inl, inr, Bool, true, false, not, Option, none, some,
  String, List, [], map, arith, eq_iff, if◌then◌else◌, string_eq, nat_eq, contains, All, Bool-cases,
  Option-cases,
}

pub record Row : Type 0 where
  pub node : String
  pub address : String
  pub reachable : Bool
  pub pending : Bool
  pub revision : String
  pub applied : ℕ
  pub removed : ℕ
  pub errors : List String
  pub live : String

abbrev pub new_row : String → Row
new_row name = record {
  node = name;
  address = "";
  reachable = false;
  pending = false;
  revision = "";
  applied = 0;
  removed = 0;
  errors = [];
  live = "";
}

unfoldable pub add_error : String → Row → Row
add_error e row = record row { errors = row.errors ++ e ∷ [] }

unfoldable pub first_line_or : String → String → String
first_line_or s fallback =
    let first = trim_space (before b'\n' s) in if first == "" then fallback else first

-- unicode.IsControl
abbrev pub is_control : ℕ → Bool
is_control c = leb c 0x1f || (leb 0x7f c && leb c 0x9f)

abbrev pub is_shown : ℕ → Bool
is_shown c = c == b'\n' || c == b'\t' || not (is_control c)

-- sanitizeNodeOutput
unfoldable pub sanitize : String → String
sanitize String.[] = ""
sanitize (String.◌∷◌ c s) =
    let rest = sanitize s in if is_shown (code c) then char_cons c rest else rest

-- the errors of the cadres of a pass
unfoldable pub cadre_errors : List Outcome → List String
cadre_errors [] = []
cadre_errors (o ∷ os) =
    let rest = cadre_errors os in if o.good then rest else (o.name <> (": " <> o.error)) ∷ rest

-- the default case: the status file was read
unfoldable pub note_status : Row → Result Status → Row
note_status row (err e) = add_error ("unreadable agent status: " <> e) row
note_status row (ok st) = record row {
  revision = st.revision;
  applied = length st.applied;
  removed = length st.removed;
  errors =
      (if st.error == "" then row.errors else row.errors ++ st.error ∷ [])
      ++ cadre_errors st.applied;
}

module _ (decode : String → Result Status) where
  -- the switch on the answer to `sudo cat`
  unfoldable pub note_answer : Row → Answer → Row
  note_answer row a =
      if a.code == pos 0
      then note_status row (decode a.stdout)
      else (if contains_text a.stderr "No such file"
          then record row { pending = true }
          else add_error
              ("read agent status: " <> first_line_or a.stderr ("cat exited " <> itoa a.code)) row)

-- the switch on the answer of the live probe, by its error
unfoldable pub note_live : Row → Answer → Option String → Row
note_live row a (some e) = add_error ("live status: " <> e) row
note_live row a none =
    if a.code == pos 0
    then record row { live = a.stdout }
    else add_error ("live status: " <> first_line_or a.stderr ("exited " <> itoa a.code)) row

abbrev pub status_argv : List String
status_argv = "sudo" ∷ "cat" ∷ "/var/lib/rucher/agent-status.json" ∷ []

abbrev pub live_argv : List String
live_argv = "sudo" ∷ "rucher" ∷ "node" ∷ "cadre" ∷ "status" ∷ []

module _ (fleet : Fleet) (decode : String → Result Status) where
  abbrev pub asked : Target → List String → Call
  asked t argv = record { target = t; argv = argv; stdin = none }

  unfoldable pub probe_live : Bool → Target → Row → List Call → Row × List Call
  probe_live false t row calls = (row, calls)
  probe_live true t row calls =
      let a = fleet.reply calls (asked t live_argv) in
      (note_live row a a.fault, asked t live_argv ∷ calls)

  -- what becomes of the answer to `sudo cat`, by its error: with one the node is not reachable
  unfoldable pub read_answer :
      Bool → Target → Row → Answer → Option String → List Call → Row × List Call
  read_answer live t row a (some e) calls = (add_error e row, calls)
  read_answer live t row a none calls =
      probe_live live t (note_answer decode (record row { reachable = true }) a) calls

  unfoldable pub read_node : Bool → Row → Result Target → List Call → Row × List Call
  read_node live row (err e) calls = (record row { errors = e ∷ [] }, calls)
  read_node live row (ok t) calls =
      let a = fleet.reply calls (asked t status_argv) in
      read_answer live t row a a.fault (asked t status_argv ∷ calls)

  unfoldable pub collect_from : String → Bool → Result NodeConfig → List Call → Row × List Call
  collect_from name live (err e) calls = (record (new_row name) { errors = e ∷ [] }, calls)
  collect_from name live (ok cfg) calls =
      read_node live (record (new_row name) { address = cfg.address }) (resolve fleet name cfg)
        calls

  -- `collectOne`
  unfoldable pub collect_one : String → Bool → List Call → Row × List Call
  collect_one name live calls = collect_from name live (fleet.config_of name) calls

-- the loop at the end of `Collect`
unfoldable pub clean_row : Row → Row
clean_row row = record row { live = sanitize row.live; errors = map sanitize row.errors }

abbrev pub is_bad : Row → Bool
is_bad row = not row.reachable || not (is_empty row.errors)

-- the exit code of renderNodesTable: two assignments in a loop over all rows
unfoldable pub table_code_from : ℕ → List Row → ℕ
table_code_from rc [] = rc
table_code_from rc (row ∷ rows) =
    table_code_from (if not (is_empty row.errors) then 1 else if not row.reachable then 1 else rc)
      rows

unfoldable pub table_code : List Row → ℕ
unfolding table_code_from
table_code rows = table_code_from 0 rows

-- the exit code of renderNodesJSON: the loop ends at the first bad row
unfoldable pub json_code : List Row → ℕ
json_code [] = 0
json_code (row ∷ rows) = let rest = json_code rows in if is_bad row then 1 else rest
