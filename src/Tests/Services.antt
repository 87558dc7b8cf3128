-- ===== src/Tests/Services.antt =====
-- Deletion, commands, and search paths at concrete inputs.
use dindexer.Common.{
  ℕ, ◌≡◌, ◌↔◌, ◌⊎◌, refl, ◌≤◌, ◌<◌, ◌+◌, ◌/◌, ◌*◌, arith, Bool, true, false, some, none, List, [],
  ◌∷◌, ◌++◌, Bytes, codes, bytes_eq, ◌==◌, if◌then◌else◌,
}
use dindexer.Redis.Delete.{Replies, chunked_run}
use dindexer.Redis.Delete.Chunks.{Runs, chunked_run-Runs, chunked_run_strays}
use dindexer.Command.{CmdCallback, CustomCommand, ok, find_command, add_command}
use dindexer.Command.Registry.{Registered}
use dindexer.SearchPaths.{Listing, Predicate, is_same_filename, contains_path}
use dindexer.SearchPaths.Hits.{Distinct}

chunked_run-Runs_example :
    Runs 24 (chunked_run 8 3 21)
    ↔ (((3 ≤ 24) × (24 < 3 + 21 / 8 * 8)) ⊎ (((3 + 21) / 8 * 8 ≤ 24) × (24 < 3 + 21)))
chunked_run-Runs_example = chunked_run-Runs 24 3 21

chunked_run_strays_example : Runs 8 (chunked_run 8 9 2)
chunked_run_strays_example =
    chunked_run_strays 8 9 2 (omega arith) (omega arith) (omega arith) (omega arith)

abbrev two_sets : Replies
two_sets = record {
  set_info = λ id.
      if id == 1
      then some (record { base_file_id = 1; item_count = 9; name = codes "music" })
      else if id == 2
      then some (record { base_file_id = 10; item_count = 3; name = codes "photos" })
      else none;
  file_hash = λ id. id ∷ [];
}

abbrev say_yes : List (ℕ × Bytes) → Bool
say_yes m = true

abbrev ids : List ℕ
ids = 1 ∷ 3 ∷ 2 ∷ []

abbrev quits : CmdCallback
quits args = true

abbrev commands : List CustomCommand
commands = record { name = codes "cd"; callback = quits; exp_arg_count = 1 } ∷ []

abbrev with_exit : List CustomCommand
with_exit = commands ++ record { name = codes "exit"; callback = quits; exp_arg_count = 0 } ∷ []

adds_exit : add_command commands (codes "exit") quits 0 ≡ ok with_exit
unfolding add_command find_command bytes_eq
adds_exit = refl

commands-Registered : Registered commands
unfolding find_command
commands-Registered = (refl, (λ e. cc), tt)

abbrev one_file : Listing
one_file dir = record { path = dir ++ codes "/conf"; is_directory = false } ∷ []

abbrev dirs : List Bytes
dirs = codes "/etc" ∷ codes "/opt" ∷ []

abbrev named_conf : Predicate
named_conf = is_same_filename (codes "conf")

dirs-Distinct : Distinct dirs
unfolding Distinct contains_path bytes_eq
dirs-Distinct = (refl, (refl, tt))
