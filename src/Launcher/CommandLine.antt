-- ===== src/Launcher/CommandLine.antt =====
-- src/main/main.c: which action is started, or what is printed instead. The options that
-- `getopt_long` reports and the path of the actions are parameters.
use mathlib.Core.Option
use dindexer.Launcher.Distance.{find_similar}
use dindexer.Common.{
  ℕ, suc, Bool, true, false, not, ◌||◌, Option, some, none, List, [], ◌∷◌, ◌++◌, map, Bytes, length,
  drop, ◌==◌, bytes_eq, if◌then◌else◌, last?, get_or,
}
use dindexer.Launcher.FindActions.{has_prefix, get_actionname}

-- An option of the command line, as `getopt_long` reports it.
pub data Opt : Type 0 where
  printactions : Option Bytes → Opt
  builtin : Opt
  help : Opt
  version : Opt
  unknown : Opt

-- The flags that the options set, and the prefix of the actions to print.
pub record Flags : Type 0 where
  pub showhelp : Bool
  pub showbuiltin : Bool
  pub showversion : Bool
  pub showactions : Bool
  pub prefix_filter : Bytes

abbrev pub optarg_or_empty : Option Bytes → Bytes
optarg_or_empty none = []
optarg_or_empty (some s) = s

-- The loop over the options; an unknown one ends it.
unfoldable pub read_opts : List Opt → Flags → Option Flags
read_opts [] f = some f
read_opts (printactions arg ∷ os) f = read_opts os (record {
  showhelp = f.showhelp;
  showbuiltin = f.showbuiltin;
  showversion = f.showversion;
  showactions = true;
  prefix_filter = optarg_or_empty arg;
})
read_opts (builtin ∷ os) f = read_opts os (record {
  showhelp = f.showhelp;
  showbuiltin = true;
  showversion = f.showversion;
  showactions = f.showactions;
  prefix_filter = f.prefix_filter;
})
read_opts (help ∷ os) f = read_opts os (record {
  showhelp = true;
  showbuiltin = f.showbuiltin;
  showversion = f.showversion;
  showactions = f.showactions;
  prefix_filter = f.prefix_filter;
})
read_opts (version ∷ os) f = read_opts os (record {
  showhelp = f.showhelp;
  showbuiltin = f.showbuiltin;
  showversion = true;
  showactions = f.showactions;
  prefix_filter = f.prefix_filter;
})
read_opts (unknown ∷ os) f = none

abbrev pub no_flags : Flags
no_flags = record {
  showhelp = false;
  showbuiltin = false;
  showversion = false;
  showactions = false;
  prefix_filter = [];
}

-- What is printed of an action for the completion of command lines, by `printf_stream_inplace`: the
-- text so far, and whether a line break goes in front of the next.
unfoldable pub print_actions : Bytes → List Bytes → Bytes → Bool → Bytes × Bool
unfolding has_prefix
print_actions filter [] out add_space = (out, add_space)
print_actions filter (m ∷ ms) out add_space =
    let printed = print_actions filter ms (out ++ (if add_space then b'\n' ∷ m else m)) true in
    let passed_over = print_actions filter ms out add_space in
    if (length filter == 0) || has_prefix filter m then printed else passed_over

-- What the program prints on its own behalf.
pub data Output : Type 0 where
  nothing : Output
  no_actions_found : Output
  invalid_option : Output
  unexpected : Output
  no_action_specified : List Bytes → Output
  usage : List Bytes → Output
  builtin_feats : Output
  version_text : Output
  action_list : Bytes → Output

pub record Managed : Type 0 where
  pub should_quit : Bool
  pub retval : ℕ
  pub output : Output

-- `getopt_long` and `optind`: the options, and whether an argument is left that is none.
pub record Parsed : Type 0 where
  pub opts : List Opt
  pub left_over : Bool

abbrev pub quit : ℕ → Output → Managed
quit n o = record { should_quit = true; retval = n; output = o }

abbrev pub forward : Managed
forward = record { should_quit = false; retval = 0; output = nothing }

-- The first argument is the name of an action, and no option.
abbrev pub names_action : List Bytes → Bool
names_action [] = false
names_action ([] ∷ args) = false
names_action ((c ∷ s) ∷ args) = not (c == b'-')

-- The text for completion, with the line break at its end if there is an action.
abbrev pub listed : Bytes × Bool → Bytes
listed (out, add_space) = if add_space then out ++ b'\n' ∷ [] else out

abbrev pub managed_flags : List Bytes → List Bytes → Flags → Managed
managed_flags args names f =
    if is_none args
    then quit 2 (no_action_specified names)
    else if f.showhelp
    then quit 0 (usage names)
    else if f.showbuiltin
    then quit 0 builtin_feats
    else if f.showversion
    then quit 0 version_text
    else if f.showactions
    then quit 0 (action_list (listed (print_actions f.prefix_filter names [] false)))
    else forward
  where
    is_none : List Bytes → Bool
    is_none [] = true
    is_none (a ∷ as') = false

abbrev pub managed_opts : List Bytes → List Bytes → Bool → Option Flags → Managed
managed_opts args names left_over none = quit 2 invalid_option
managed_opts args names left_over (some f) =
    if left_over then quit 2 unexpected else managed_flags args names f

-- The arguments are those behind the program's name.
unfoldable pub manage_commandline : (List Bytes → Parsed) → List Bytes → List Bytes → Managed
unfolding read_opts print_actions
manage_commandline getopt args names =
    if names_action args
    then forward
    else managed_opts args names (getopt args).left_over (read_opts (getopt args).opts no_flags)

-- How the program ends: with a code, with a code and a hint at an action, or in another program. It does
-- not return if the comparison of two texts does not: that stops at an assertion, reads behind the end of
-- a text, or never ends.
pub data Outcome : Type 0 where
  quits : ℕ → Output → Outcome
  unrecognized : Option Bytes → Outcome
  executes : Bytes → List Bytes → Outcome
  stuck : Outcome

abbrev pub specified_action : List Bytes → Bytes
specified_action [] = []
specified_action (a ∷ args) = a

-- `foreach_avail_action`: the index of the first action whose name stops the loop, or the count.
unfoldable pub foreach_avail_action : Bytes → (Bytes → Bool) → List Bytes → ℕ
unfolding get_actionname
foreach_avail_action prefix stop [] = 0
foreach_avail_action prefix stop (a ∷ as') =
    let rest = suc (foreach_avail_action prefix stop as') in
    if stop (get_actionname prefix a) then 0 else rest

-- The path of the action: a slash is set behind the search path unless it ends in one.
unfoldable pub action_path : Bytes → Bytes → Bytes
action_path search_path action = elim (last? search_path) [
  | none ↦ search_path ++ action
  | some c ↦ if c == b'/' then search_path ++ action else search_path ++ b'/' ∷ action
]

-- The result of the callback, and of the rest of the loop.
abbrev pub stop_or_go : Option Bool → Option ℕ → Option ℕ
stop_or_go none rest = none
stop_or_go (some true) rest = some 0
stop_or_go (some false) rest = Option.map suc rest

abbrev pub told : Option (Option Bytes) → Outcome
told none = stuck
told (some h) = unrecognized h

module _ (prefix : Bytes) where
  -- `foreach_avail_action` with `find_similar`, which may not return.
  unfoldable pub foreach_similar : Bytes → List Bytes → Option ℕ
  unfolding get_actionname
  foreach_similar specified [] = some 0
  foreach_similar specified (a ∷ as') =
      stop_or_go (find_similar specified (get_actionname prefix a)) (foreach_similar specified as')

  abbrev pub hint_at : List Bytes → ℕ → Option Bytes
  hint_at actions z =
      if z == length actions then none else some (get_actionname prefix (get_or actions z []))

  -- The hint: the first action that is similar to what was given.
  unfoldable pub hint : List Bytes → Bytes → Option (Option Bytes)
  unfolding foreach_similar get_actionname
  hint actions specified = Option.map (hint_at actions) (foreach_similar specified actions)

  -- What is done for the action at an index, or for none if the index is the count.
  unfoldable pub start_selected : Bytes → ℕ → List Bytes → List Bytes → Outcome
  unfolding hint action_path
  start_selected search_path z actions args =
      if z == length actions
      then told (hint actions (specified_action args))
      else executes (action_path search_path (get_or actions z [])) (drop 1 args)

  unfoldable pub start_action : Bytes → List Bytes → List Bytes → Outcome
  unfolding foreach_avail_action start_selected
  start_action search_path actions args =
      if length actions == 0
      then quits 1 no_actions_found
      else start_selected search_path
          (foreach_avail_action prefix (λ a. bytes_eq a (specified_action args)) actions) actions
          args

  unfoldable pub main : Bytes → (List Bytes → Parsed) → List Bytes → List Bytes → Outcome
  unfolding manage_commandline start_action
  main search_path getopt actions args =
      let managed = manage_commandline getopt args (map (get_actionname prefix) actions) in
      if managed.should_quit
      then quits managed.retval managed.output
      else start_action search_path actions args
