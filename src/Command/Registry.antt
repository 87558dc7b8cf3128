-- ===== src/Command/Registry.antt =====
-- What registering a command changes.
use dindexer.Common.{
  ℕ, ◌%◌, ◌^◌, ◌≡◌, ◌≢◌, ◌⊎◌, refl, ap, ap₂, sym, ◌∙◌, inl, inr, false, not, ◌&&◌, Option, some,
  none, List, [], ◌∷◌, ◌++◌, arith, Bytes, length, ◌==◌, ==→eq, ==_suc_zero, subst, bytes_eq,
  bytes_eq→eq, if◌then◌else◌, Bool-cases, Option-cases,
}
use dindexer.Command.{
  ParsedCommand, CmdCallback, CustomCommand, empty_command, duplicate_command, Result, ok, err,
  find_command, answer, dispatch, add_command,
}

-- Each name and number of arguments stands once, and no name is empty.
abbrev pub Registered : List CustomCommand → Type 0
Registered [] = Unit {0}
Registered (c ∷ cs) =
    (find_command cs c.name c.exp_arg_count ≡ none) × (c.name ≢ []) × Registered cs

bytes_eq_comm : (s t : Bytes) → bytes_eq s t ≡ bytes_eq t s
unfolding bytes_eq
bytes_eq_comm [] [] = refl
bytes_eq_comm [] (d ∷ t) = refl
bytes_eq_comm (c ∷ s) [] = refl
bytes_eq_comm (c ∷ s) (d ∷ t) = ground (arith, bytes_eq_comm s t)

abbrev or_else : Option CustomCommand → Option CustomCommand → Option CustomCommand
or_else none o = o
or_else (some c) o = some c

find_command-append :
    (cs : List CustomCommand) (c : CustomCommand) (name : Bytes) (count : ℕ)
    → find_command (cs ++ c ∷ []) name count
      ≡ or_else
          (find_command cs name count)
          (if bytes_eq c.name name && (c.exp_arg_count == count) then some c else none)
unfolding find_command
find_command-append [] c name count = refl
find_command-append (d ∷ cs) c name count =
    elim (Bool-cases (bytes_eq d.name name && (d.exp_arg_count == count))) [
      | inl e ↦ rw e
      | inr ne ↦ rw ne (find_command-append cs c name count)
    ]

-- What `add_command` does, for each of its outcomes.
abbrev pub Outcome :
    List CustomCommand → Bytes → CmdCallback → ℕ → Result (List CustomCommand) → Type 0
Outcome cs name callback n (ok cs') =
    (name ≢ [])
    × (find_command cs name n ≡ none)
    × (cs' ≡ cs ++ record { name = name; callback = callback; exp_arg_count = n } ∷ [])
Outcome cs name callback n (err e) =
    ((name ≡ []) × (e ≡ empty_command))
    ⊎ ((name ≢ []) × (find_command cs name n ≢ none) × (e ≡ duplicate_command name n))

-- A command is added exactly when its name is not empty and no command of that name takes as many
-- arguments; the error tells which it was.
pub add_command-Outcome :
    (cs : List CustomCommand) (name : Bytes) (callback : CmdCallback) (n : ℕ)
    → Outcome cs name callback n (add_command cs name callback n)
unfolding add_command
add_command-Outcome cs [] callback n = inl (refl, refl)
add_command-Outcome cs (c ∷ name) callback n = elim (Option-cases (find_command cs (c ∷ name) n)) [
  | inl free ↦ rw (==_suc_zero (length name), free, add_command) ((λ e. cc), free, refl)
  | inr (d, taken) ↦
      rw (==_suc_zero (length name), taken, add_command)
        (inr ((λ e. cc), (λ e. cc (sym taken ∙ e)), refl))
]

Registered-append :
    (cs : List CustomCommand) (c : CustomCommand)
    → Registered cs
    → find_command cs c.name c.exp_arg_count ≡ none
    → c.name ≢ []
    → Registered (cs ++ c ∷ [])
unfolding find_command
Registered-append [] c r free ne = (refl, ne, tt)
Registered-append (d ∷ cs) c (r0, r1, r2) free ne =
    elim (Bool-cases (bytes_eq d.name c.name && (d.exp_arg_count == c.exp_arg_count))) [
      | inl e ↦ cc (rw e at free)
      | inr no_clash ↦ (
        find_command-append cs c d.name d.exp_arg_count ∙ rw r0 (other_way no_clash),
        r1,
        Registered-append cs c r2 (rw no_clash at free) ne,
      )
    ]
  where
    other_way :
        (bytes_eq d.name c.name && (d.exp_arg_count == c.exp_arg_count)) ≡ false
        → (if bytes_eq c.name d.name && (c.exp_arg_count == d.exp_arg_count) then some c else none)
          ≡ none
    other_way h = ground (arith, bytes_eq_comm c.name d.name)

-- If each name and number of arguments stands once in the registry and no name is empty, this stays
-- so when a command is added.
pub add_command-Registered :
    (cs : List CustomCommand) (name : Bytes) (callback : CmdCallback) (n : ℕ)
    {cs' : List CustomCommand}
    → Registered cs
    → add_command cs name callback n ≡ ok cs'
    → Registered cs'
add_command-Registered cs name callback n r h =
    let (ne, free, e) =
      subst (Outcome cs name callback n) h (add_command-Outcome cs name callback n) in
    subst Registered (sym e) (
      Registered-append cs (record { name = name; callback = callback; exp_arg_count = n }) r free
        ne)

-- Once a command is added, its name with that many arguments runs its callback, and every other
-- command does what it did before.
pub dispatch-add_command :
    (cs : List CustomCommand) (name : Bytes) (callback : CmdCallback) (n : ℕ)
    {cs' : List CustomCommand} (p : ParsedCommand)
    → add_command cs name callback n ≡ ok cs'
    → dispatch cs' p ≡ (
        if bytes_eq name p.cmd && (n == length p.param % 2 ^ 32)
        then ok (not (callback p.param))
        else dispatch cs p)
unfolding dispatch
dispatch-add_command cs name callback n p h =
    let (ne, free, e) =
      subst (Outcome cs name callback n) h (add_command-Outcome cs name callback n) in
    ap (λ l. answer p count (find_command l p.cmd count)) e
    ∙ ap (answer p count) (
        find_command-append cs (record { name = name; callback = callback; exp_arg_count = n })
          p.cmd count)
    ∙ chosen free
  where
    count : ℕ
    count = length p.param % 2 ^ 32

    new : CustomCommand
    new = record { name = name; callback = callback; exp_arg_count = n }

    or_else_none : (o : Option CustomCommand) → or_else o none ≡ o
    or_else_none none = refl
    or_else_none (some c) = refl

    chosen :
        find_command cs name n ≡ none
        → answer p count (
            or_else
              (find_command cs p.cmd count)
              (if bytes_eq name p.cmd && (n == count) then some new else none))
          ≡ (if bytes_eq name p.cmd && (n == count)
              then ok (not (callback p.param))
              else answer p count (find_command cs p.cmd count))
    chosen free = elim (Bool-cases (bytes_eq name p.cmd)) [
      | inr ne ↦ rw ne (ap (answer p count) (or_else_none (find_command cs p.cmd count)))
      | inl e ↦ elim (Bool-cases (n == count)) [
        | inr ne ↦ rw (e, ne) (ap (answer p count) (or_else_none (find_command cs p.cmd count)))
        | inl k ↦
            let gone : find_command cs p.cmd count ≡ none =
              ap₂ (find_command cs) (sym (bytes_eq→eq name p.cmd e)) (sym (==→eq n count k))
              ∙ free in
            rw (e, k, gone)
      ]
    ]
