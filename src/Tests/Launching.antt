-- ===== src/Tests/Launching.antt =====
-- The launcher at concrete inputs.
use dindexer.Common.{
  Option, arith, ◌+◌, ◌≤◌, ◌≡◌, ◌≢◌, ◌⊎◌, refl, Bool, true, false, some, none, List, [], ◌∷◌, All,
  Bytes, codes, bytes_eq,
}
use dindexer.Launcher.FindActions.{DirEntry, get_actionname, foreach_dir, has_prefix}
use dindexer.Launcher.CommandLine.{Parsed, executes, main, action_path}
use dindexer.Launcher.Choice.{IsFirst, IsHint, main-IsFirst}
use dindexer.Launcher.CommandLine.{told}
use dindexer.Launcher.Utf8.{utf8_strlen, sequence_length, strlen_loop}
use dindexer.Launcher.Sequences.{Sequence, IsSequence, text_of}
use dindexer.Launcher.Distance.{
  as_int, find_similar, distance, filled_table, fill_sources, fill_targets, fill_rows, fill_row,
  get_value, unit_costs,
}
use dindexer.Launcher.Similar.{find_similar-length}

abbrev prefix : Bytes
prefix = codes "d-"

abbrev dir : List DirEntry
dir =
    record { d_name = codes ".."; is_dir = true; accessible = true }
    ∷ record { d_name = codes "tag"; is_dir = true; accessible = true }
    ∷ record { d_name = codes "d-scan"; is_dir = false; accessible = true }
    ∷ record { d_name = codes "notes"; is_dir = false; accessible = true }
    ∷ []

found : foreach_dir prefix dir ≡ codes "tag/d-tag" ∷ codes "d-scan" ∷ []
unfolding foreach_dir has_prefix bytes_eq
found = refl

abbrev getopt : List Bytes → Parsed
getopt args = record { opts = []; left_over = false }

abbrev one_action : List Bytes
one_action = codes "d-scan" ∷ []

abbrev arguments : List Bytes
arguments = codes "scan" ∷ codes "-r" ∷ []

main-IsFirst_example :
    ((before after : List Bytes) × (a : Bytes) × IsFirst prefix
        (codes "/x")
        one_action
        (codes "scan")
        before
        a
        after
      × (main prefix (codes "/x") getopt one_action arguments
          ≡ executes (action_path (codes "/x") a) (codes "-r" ∷ [])))
    ⊎ (All (λ b. get_actionname prefix b ≢ codes "scan") one_action
        × (h : Option (Option Bytes)) × IsHint prefix (codes "/x") (codes "scan") one_action h
        × (main prefix (codes "/x") getopt one_action arguments ≡ told h))
main-IsFirst_example =
    main-IsFirst prefix (codes "/x") getopt (codes "d-scan") [] b's' (codes "can") (codes "-r" ∷ [])
      (omega arith)

-- U+00E8 and U+20AC.
abbrev e_grave : Sequence
e_grave = record { top = 3; rest = 40 ∷ [] }

abbrev euro : Sequence
euro = record { top = 2; rest = 2 ∷ 44 ∷ [] }

e_grave-IsSequence : IsSequence e_grave
e_grave-IsSequence = (omega arith, omega arith, (omega arith, tt), omega arith)

euro-IsSequence : IsSequence euro
euro-IsSequence = (omega arith, omega arith, (omega arith, (omega arith, tt)), omega arith)

stray_byte : utf8_strlen (128 ∷ []) ≡ none
unfolding utf8_strlen strlen_loop sequence_length
stray_byte = refl

swapped : distance unit_costs (codes "ab") (codes "ba") ≡ 1
unfolding distance filled_table fill_sources fill_targets fill_rows fill_row get_value as_int
swapped = refl

find_similar-length_example :
    (b : Bool) × (find_similar (text_of (e_grave ∷ [])) (text_of (euro ∷ [])) ≡ some b)
    × (b ≡ true → (1 ≤ 2 + 1) × (1 ≤ 2 + 1))
find_similar-length_example =
    find_similar-length (e_grave ∷ []) (euro ∷ []) (e_grave-IsSequence, tt) (euro-IsSequence, tt)
      (omega arith)
