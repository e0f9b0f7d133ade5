-- ===== src/Tests/Fleet.antt =====
-- Concrete runs of a pass of the agent, of the worker pool, of the operator's side and of the command line.
use rucher.Base.Decimal.{read_digits, unsigned, atoi}
use rucher.Parallel.{Waited, Step, Spawn}
use rucher.Cli.{Command, Action}
use rucher.Cli.Dispatch.{run_line}
use rucher.Cli.DeployFlags.{parse_deploy-IsAccepted, IsAccepted}
use rucher.Tests.{pos}
use rucher.Fleet.Status.Health.{table_code-json}
use rucher.Cli.Reads.{run_line-print, print}
use rucher.Parallel.Invariant.{Run-results}
use rucher.Fleet.Status.Clean.{clean_row-shown, all_shown}
use rucher.Fleet.Status.{json_code, table_code}
use rucher.Cli.Deploy.{
  check_flags, deploy_word, switch_flag, value_flag, deploy_from, default_flags, parse_deploy,
  DeployFlags,
}
use rucher.Cli.Dispatch.{when◌then◌else◌, run_line}
use rucher.Base.Text.{cut_prefix}
use rucher.Fleet.Merge.{find-merge_value, nil, leaf, entry, mapping, find, IsMap, merge_value}
use rucher.Parallel.Progress.{Map-returns, Run-calls, calling}
use rucher.Parallel.{
  finish, release, call, here, act, spawn, start, next, fresh, capacity, Run, finished, results,
  slots, Cell,
}
use rucher.Base.{
  false, List, ◌⊎◌, all, length, ◌*◌, ◌*◌, ℕ, ◌+◌, ◌≤◌, ◌≡◌, ◌==◌, ◌∷◌, refl, true, Option, none,
  some, [], arith, if◌then◌else◌, string_eq, nat_eq,
}

-- the worker pool, with a call that panics
abbrev halve : ℕ → Option ℕ
halve n = if n == 0 then none else some (n + n)

abbrev one : Cell ℕ ℕ
one = record { item = 1; phase = finished; out = 2 }

one_run : Run halve 9 1 (fresh 9 (1 ∷ [])) 4 (one ∷ [])
unfolding slots
one_run =
    next
      (next
        (next (next start (spawn (omega arith) (Spawn.first _ [] refl)))
          (act (here [] (call _ refl))))
        (act (here [] (release _ refl))))
      (act (here [] (finish _ refl)))

Run-results_example : results (one ∷ []) ≡ 2 ∷ []
Run-results_example = Run-results halve 9 (1 ∷ []) 1 4 (one ∷ []) one_run (refl, tt)

Run-calls_example : calling (one ∷ []) ≤ 1
unfolding capacity
Run-calls_example = Run-calls halve 9 (1 ∷ []) 1 4 (one ∷ []) (omega arith) one_run

Map-returns_example :
    (4 ≤ 4 * length {A = ℕ} (1 ∷ []))
    × (Waited (one ∷ [])
        ⊎ ((ds : List (Cell ℕ ℕ)) × Step halve 9 (capacity 1 (pos 1)) (one ∷ []) ds))
unfolding capacity
Map-returns_example = Map-returns halve 9 (1 ∷ []) (pos 1) 4 (one ∷ []) one_run

find-merge_value_example :
    find ("network" ∷ "address" ∷ []) (
      merge_value
        (some (mapping (entry "network" (mapping (entry "address" (leaf "a") nil)) nil)))
        (mapping (entry "network" (mapping (entry "address" (leaf "b") nil)) nil)))
    ≡ some (leaf "b")
unfolding merge_value IsMap
find-merge_value_example =
    find-merge_value ("network" ∷ "address" ∷ [])
      (some (mapping (entry "network" (mapping (entry "address" (leaf "a") nil)) nil)))
      (mapping (entry "network" (mapping (entry "address" (leaf "b") nil)) nil))
      (refl, (refl, tt, tt), tt)

abbrev status_of_two : Command
status_of_two = Command.nodes_status "c" ("n1" ∷ "n2" ∷ []) true false (pos 3)

run_line-print_example : run_line (print "3" status_of_two) ≡ Action.command status_of_two
unfolding cut_prefix atoi unsigned read_digits
run_line-print_example = run_line-print "3" status_of_two (refl, refl, refl)

abbrev quick : DeployFlags
quick = record default_flags { version = "v1"; names = "n1" ∷ [] }

parse_deploy-IsAccepted_example : IsAccepted quick
unfolding parse_deploy deploy_from value_flag switch_flag deploy_word check_flags cut_prefix
parse_deploy-IsAccepted_example =
    parse_deploy-IsAccepted ("--version" ∷ "v1" ∷ "n1" ∷ []) quick refl

abbrev row : rucher.Fleet.Status.Row
row = record (rucher.Fleet.Status.new_row "n1") { live = "\u{1b}[31m"; errors = "a\tb" ∷ [] }

table_code-json_example : table_code (row ∷ []) ≡ json_code (row ∷ [])
table_code-json_example = table_code-json (row ∷ [])

clean_row-shown_example :
    (all_shown (rucher.Fleet.Status.clean_row row).live ≡ true)
    × (all all_shown (rucher.Fleet.Status.clean_row row).errors ≡ true)
    × (all_shown row.live ≡ true
        → all all_shown row.errors ≡ true
        → rucher.Fleet.Status.clean_row row ≡ row)
clean_row-shown_example = clean_row-shown row
