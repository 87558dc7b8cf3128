-- ===== src/Launcher/Choice.antt =====
-- Which action is started, and what is printed for completion.
use mathlib.Core.Option
use dindexer.Common.{Option, some, none, Among}
use dindexer.Launcher.Distance.{find_similar}
use dindexer.Launcher.CommandLine.{foreach_similar, stop_or_go, hint_at, told}
use dindexer.Common.{
  ℕ, suc, arith, ◌≡◌, ◌≢◌, ◌⊎◌, refl, ap, sym, ◌∙◌, inl, inr, Bool, true, false, ◌||◌, List, [],
  ◌∷◌, ◌++◌, append_assoc, Bytes, All, length, ◌==◌, ==_refl, ==_suc_zero, bytes_eq_refl, All-map,
  length-append, bytes_eq, bytes_eq→eq, get_or, if◌then◌else◌, Bool-cases,
}
use dindexer.Launcher.FindActions.{has_prefix, get_actionname}
use dindexer.Launcher.CommandLine.{
  Parsed, Outcome, executes, foreach_avail_action, action_path, hint, start_action, start_selected,
  main, manage_commandline, print_actions, listed,
}

module _ (prefix : Bytes) (stop : Bytes → Bool) where
  abbrev Stops : Bool → Bytes → Type 0
  Stops b a = stop (get_actionname prefix a) ≡ b

  -- The loop stops at the first action whose name stops it.
  foreach_avail_action-first :
      (as' : List Bytes)
      → ((before after : List Bytes) × (a : Bytes) × (as' ≡ before ++ a ∷ after)
          × Stops true a
          × All (Stops false) before
          × (foreach_avail_action prefix stop as' ≡ length before))
        ⊎ (All (Stops false) as' × (foreach_avail_action prefix stop as' ≡ length as'))
  unfolding foreach_avail_action
  foreach_avail_action-first [] = inr (tt, refl)
  foreach_avail_action-first (a ∷ as') = elim (Bool-cases (stop (get_actionname prefix a))) [
    | inl y ↦ inl ([], as', a, refl, y, tt, rw (y) refl)
    | inr n ↦ elim (foreach_avail_action-first as') [
      | inl (b, c, x, e, y, ns, i) ↦
          inl (a ∷ b, c, x, ap (λ l. a ∷ l) e, y, (n, ns), rw (n) (ap suc i))
      | inr (ns, i) ↦ inr ((n, ns), rw (n) (ap suc i))
    ]
  ]

-- The names with a prefix, each with a line break behind it.
abbrev pub lines_of : Bytes → List Bytes → Bytes
lines_of filter [] = []
lines_of filter (m ∷ ms) =
    let rest = lines_of filter ms in
    if (length filter == 0) || has_prefix filter m then m ++ b'\n' ∷ rest else rest

print_actions-lines :
    (filter : Bytes) (ms : List Bytes) (out : Bytes)
    → listed (print_actions filter ms out true) ≡ out ++ b'\n' ∷ lines_of filter ms
unfolding print_actions
print_actions-lines filter [] out = refl
print_actions-lines filter (m ∷ ms) out =
    elim (Bool-cases ((length filter == 0) || has_prefix filter m)) [
      | inl y ↦ rw (y) (
          print_actions-lines filter ms (out ++ b'\n' ∷ m)
          ∙ append_assoc out (b'\n' ∷ m) (b'\n' ∷ lines_of filter ms))
      | inr n ↦ rw (n) (print_actions-lines filter ms out)
    ]

-- The list of actions for the completion of command lines is each action's name that begins with
-- what is typed, with a line break behind it, in order, and nothing else.
pub print_actions-lines_of :
    (filter : Bytes) (ms : List Bytes)
    → listed (print_actions filter ms [] false) ≡ lines_of filter ms
unfolding print_actions
print_actions-lines_of filter [] = refl
print_actions-lines_of filter (m ∷ ms) =
    elim (Bool-cases ((length filter == 0) || has_prefix filter m)) [
      | inl y ↦ rw (y) (print_actions-lines filter ms m)
      | inr n ↦ rw (n) (print_actions-lines_of filter ms)
    ]

get_or-middle :
    (before after : List Bytes) (a d : Bytes) → get_or (before ++ a ∷ after) (length before) d ≡ a
get_or-middle [] after a d = refl
get_or-middle (b ∷ before) after a d = get_or-middle before after a d

length-middle :
    (before after : List Bytes) (a : Bytes)
    → (length before == length (before ++ a ∷ after)) ≡ false
length-middle before after a = ground (arith, length-append before (a ∷ after))

module _ (prefix : Bytes) (search_path : Bytes) where
  abbrev same_as : Bytes → Bytes → Bool
  same_as given a = bytes_eq a given

  -- The first of the actions whose name is the one given.
  abbrev pub IsFirst : List Bytes → Bytes → List Bytes → Bytes → List Bytes → Type 0
  IsFirst actions given before a after =
      (actions ≡ before ++ a ∷ after)
      × (get_actionname prefix a ≡ given)
      × All (λ b. get_actionname prefix b ≢ given) before

  differs : (given a : Bytes) → bytes_eq a given ≡ false → a ≢ given
  differs given a n e = cc (sym n ∙ ap (λ x. bytes_eq x given) e ∙ bytes_eq_refl given)

  start_action-IsFirst :
      (action : Bytes) (actions : List Bytes) (given : Bytes) (args : List Bytes)
      → ((before after : List Bytes) × (a : Bytes) × IsFirst (action ∷ actions) given before a after
          × (start_action prefix search_path (action ∷ actions) (given ∷ args)
              ≡ executes (action_path search_path a) args))
        ⊎ (All (λ b. get_actionname prefix b ≢ given) (action ∷ actions)
            × (start_action prefix search_path (action ∷ actions) (given ∷ args)
                ≡ told (hint prefix (action ∷ actions) given)))
  unfolding start_action start_selected
  start_action-IsFirst action actions given args =
      elim (foreach_avail_action-first prefix (same_as given) (action ∷ actions)) [
        | inl (before, after, a, e, y, ns, i) ↦ inl (
          before,
          after,
          a,
          (
            e,
            bytes_eq→eq (get_actionname prefix a) given y,
            All-map _ _ (λ b. differs given _) before ns,
          ),
          some_action
              ∙ ap selected i
              ∙ ap (λ l. start_selected prefix search_path (length before) l (given ∷ args)) e
              ∙ rw (length-middle before after a, get_or-middle before after a []) refl,
        )
        | inr (ns, i) ↦ inr (
          All-map _ _ (λ b. differs given _) (action ∷ actions) ns,
          some_action ∙ ap selected i ∙ rw (==_refl (suc (length actions))) refl,
        )
      ]
    where
      selected : ℕ → Outcome
      selected z = start_selected prefix search_path z (action ∷ actions) (given ∷ args)

      some_action :
          start_action prefix search_path (action ∷ actions) (given ∷ args)
          ≡ selected (foreach_avail_action prefix (same_as given) (action ∷ actions))
      some_action = rw (==_suc_zero (length actions)) refl

  -- What a hint is: the first action that is similar, after others that are not; or none, and no action is
  -- similar; or the comparison with an action does not return.
  abbrev pub IsHint : Bytes → List Bytes → Option (Option Bytes) → Type 0
  IsHint given actions h =
      ((before after : List Bytes) × (a : Bytes) × (actions ≡ before ++ a ∷ after)
        × (find_similar given (get_actionname prefix a) ≡ some true)
        × All (λ b. find_similar given (get_actionname prefix b) ≡ some false) before
        × (h ≡ some (some (get_actionname prefix a))))
      ⊎ ((All (λ b. find_similar given (get_actionname prefix b) ≡ some false) actions
            × (h ≡ some none))
          ⊎ ((a : Bytes) × Among a actions
              × (find_similar given (get_actionname prefix a) ≡ none)
              × (h ≡ none)))

  -- Where the loop ends, if it does.
  abbrev Stopped : Bytes → List Bytes → Option ℕ → Type 0
  Stopped given actions o =
      ((before after : List Bytes) × (a : Bytes) × (actions ≡ before ++ a ∷ after)
        × (find_similar given (get_actionname prefix a) ≡ some true)
        × All (λ b. find_similar given (get_actionname prefix b) ≡ some false) before
        × (o ≡ some (length before)))
      ⊎ ((All (λ b. find_similar given (get_actionname prefix b) ≡ some false) actions
            × (o ≡ some (length actions)))
          ⊎ ((a : Bytes) × Among a actions
              × (find_similar given (get_actionname prefix a) ≡ none)
              × (o ≡ none)))

  Stopped-cons :
      (given a : Bytes) (as' : List Bytes) (answer : Option Bool) (rest : Option ℕ)
      → find_similar given (get_actionname prefix a) ≡ answer
      → Stopped given as' rest
      → Stopped given (a ∷ as') (stop_or_go answer rest)
  Stopped-cons given a as' none rest e h = inr (inr (a, inl refl, e, refl))
  Stopped-cons given a as' (some true) rest e h = inl ([], as', a, refl, e, tt, refl)
  Stopped-cons given a as' (some false) rest e h = elim h [
    | inl (b, c, x, q, y, ns, i) ↦
        inl (a ∷ b, c, x, ap (λ l. a ∷ l) q, y, (e, ns), ap (Option.map suc) i)
    | inr k ↦ elim k [
      | inl (ns, i) ↦ inr (inl ((e, ns), ap (Option.map suc) i))
      | inr (x, m, n, i) ↦ inr (inr (x, inr m, n, ap (Option.map suc) i))
    ]
  ]

  foreach_similar-Stopped :
      (given : Bytes) (actions : List Bytes)
      → Stopped given actions (foreach_similar prefix given actions)
  unfolding foreach_similar
  foreach_similar-Stopped given [] = inr (inl (tt, refl))
  foreach_similar-Stopped given (a ∷ as') =
      Stopped-cons given a as' (find_similar given (get_actionname prefix a))
        (foreach_similar prefix given as') refl (foreach_similar-Stopped given as')

  hint-IsHint :
      (given : Bytes) (actions : List Bytes) → IsHint given actions (hint prefix actions given)
  unfolding hint
  hint-IsHint given actions = elim (foreach_similar-Stopped given actions) [
    | inl (b, c, x, q, y, ns, i) ↦ inl (
      b,
      c,
      x,
      q,
      y,
      ns,
      ap (Option.map (hint_at prefix actions)) i
          ∙ ap (λ l. some (hint_at prefix l (length b))) q
          ∙ rw (length-middle b c x, get_or-middle b c x []) refl,
    )
    | inr h ↦ elim h [
      | inl (ns, i) ↦ inr (
          inl (ns, ap (Option.map (hint_at prefix actions)) i ∙ rw (==_refl (length actions)) refl))
      | inr (x, m, n, i) ↦ inr (inr (x, m, n, ap (Option.map (hint_at prefix actions)) i))
    ]
  ]

  -- If the first argument is not empty and does not begin with a dash, and there are actions, the
  -- program either runs the first action that has this name, with the arguments behind it, or no
  -- action has it. Then it ends with a hint at the first action that is similar, after others that
  -- are not; or without a hint, and no action is similar; or it does not return from the comparison
  -- with an action.
  pub main-IsFirst :
      (getopt : List Bytes → Parsed) (action : Bytes) (actions : List Bytes) (c : ℕ) (s : Bytes)
      (args : List Bytes)
      → c ≢ b'-'
      → ((before after : List Bytes) × (a : Bytes) × IsFirst
            (action ∷ actions)
            (c ∷ s)
            before
            a
            after
          × (main prefix search_path getopt (action ∷ actions) ((c ∷ s) ∷ args)
              ≡ executes (action_path search_path a) args))
        ⊎ (All (λ b. get_actionname prefix b ≢ (c ∷ s)) (action ∷ actions)
            × (h : Option (Option Bytes)) × IsHint (c ∷ s) (action ∷ actions) h
            × (main prefix search_path getopt (action ∷ actions) ((c ∷ s) ∷ args) ≡ told h))
  unfolding main manage_commandline
  main-IsFirst getopt action actions c s args h =
      elim (start_action-IsFirst action actions (c ∷ s) args) [
        | inl (before, after, a, f, e) ↦ inl (before, after, a, f, forwards ∙ e)
        | inr (ns, e) ↦ inr (
          ns,
          hint prefix (action ∷ actions) (c ∷ s),
          hint-IsHint (c ∷ s) (action ∷ actions),
          forwards ∙ e,
        )
      ]
    where
      no_dash : (c == b'-') ≡ false
      no_dash = ground arith

      forwards :
          main prefix search_path getopt (action ∷ actions) ((c ∷ s) ∷ args)
          ≡ start_action prefix search_path (action ∷ actions) ((c ∷ s) ∷ args)
      forwards = rw (no_dash) refl
