-- ===== src/Command.antt =====
-- src/navigate/commandprocessor.cpp: the commands that are registered by name and number of arguments,
-- and their execution. The Boost.Spirit parser is a parameter: it gives what it read and where it
-- stopped.
pub mod Registry
use dindexer.Common.{
  ℕ, ◌%◌, ◌^◌, ◌≡◌, Bool, true, false, not, ◌&&◌, Option, some, none, List, [], ◌∷◌, ◌++◌, Bytes,
  length, ◌==◌, bytes_eq, if◌then◌else◌,
}

pub record ParsedCommand : Type 0 where
  pub cmd : Bytes
  pub param : List Bytes

-- What `phrase_parse` returns: its result, if it matched, and the position where it stopped.
pub record Parsed : Type 0 where
  pub result : Option ParsedCommand
  pub stopped : ℕ

-- `CmdCallback`: the answer to the arguments.
abbrev pub CmdCallback : Type 0
CmdCallback = List Bytes → Bool

pub record CustomCommand : Type 0 where
  pub name : Bytes
  pub callback : CmdCallback
  pub exp_arg_count : ℕ

pub data CommandError : Type 0 where
  parse_error : ℕ → CommandError
  not_recognized : Bytes → ℕ → CommandError
  empty_command : CommandError
  duplicate_command : Bytes → ℕ → CommandError

pub data Result {ℓ} (A : Type ℓ) : Type ℓ where
  ok : A → Result A
  err : CommandError → Result A

-- `std::find` with `CustomCommand::operator==`.
unfoldable pub find_command : List CustomCommand → Bytes → ℕ → Option CustomCommand
find_command [] name count = none
find_command (c ∷ cs) name count =
    let rest = find_command cs name count in
    if bytes_eq c.name name && (c.exp_arg_count == count) then some c else rest

-- The callback of a command without arguments that returns nothing, `wrap_void_noparam`.
abbrev pub wrap_void_noparam : CmdCallback
wrap_void_noparam args = false

-- The answer of the command that was found, or the error that there is none.
abbrev pub answer : ParsedCommand → ℕ → Option CustomCommand → Result Bool
answer p arg_count none = err (not_recognized p.cmd arg_count)
answer p arg_count (some c) = ok (not (c.callback p.param))

-- What `exec_command` does with a parsed command.
pub dispatch : List CustomCommand → ParsedCommand → Result Bool
unfolding find_command
dispatch commands p =
    let arg_count = length p.param % 2 ^ 32 in
    answer p arg_count (find_command commands p.cmd arg_count)

pub exec_command : (Bytes → Parsed) → List CustomCommand → Bytes → Result Bool
unfolding dispatch
exec_command parse commands text =
    let r = parse text in
    elim r.result [
      | none ↦ err (parse_error r.stopped)
      | some p ↦
          if not (r.stopped == length text)
          then err (parse_error r.stopped)
          else dispatch commands p
    ]

unfoldable pub add_command :
    List CustomCommand → Bytes → CmdCallback → ℕ → Result (List CustomCommand)
unfolding find_command
add_command commands name callback exp_params =
    if length name == 0 then err empty_command else elim (find_command commands name exp_params) [
      | some c ↦ err (duplicate_command name exp_params)
      | none ↦
          ok (
            commands
            ++ record { name = name; callback = callback; exp_arg_count = exp_params } ∷ [])
    ]
