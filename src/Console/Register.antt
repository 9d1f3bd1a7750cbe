-- ===== src/Console/Register.antt =====
-- `register_console` of drivers/console.c, for a driver that has neither `match` nor `setup`.
use cyanea.Prelude.{
  ℕ, ◌≡◌, refl, sym, inl, inr, Bool, true, false, not, ◌&&◌, ◌||◌, List, [], ◌∷◌, Option, none,
  some, if◌then◌else◌, pos, Bool-cases, arith,
}
use cyanea.Strings.{strcmp}
use cyanea.Console.{
  PreferredConsole, Console, Active, enoent, is_equal, is_free, is_same, same_flag, by_name,
  other_port, with_port, run_setup, try_enable, leave, register_console,
}
use cyanea.Console.Preferred.{lookup}

-- A driver for one port, with neither `match` nor `setup`, and with `exit` or without.
abbrev pub plain_console : List ℕ → ℕ → Bool → Console
plain_console name index has_exit = record {
  name = name;
  index = pos index;
  setup = none;
  matches = none;
  has_exit = has_exit;
}

abbrev pub is_some : Option PreferredConsole → Bool
is_some none = false
is_some (some pc) = true

-- Whether an entry with that flag is that of the console.
unfoldable asked : Bool → List ℕ → ℕ → List PreferredConsole → Bool
asked user name index [] = false
asked user name index (pc ∷ pcs) =
    let rest = asked user name index pcs in
    if is_free pc.name
    then false
    else if same_flag pc.user_specified user && is_same name index pc
    then true
    else rest

or_true : (b : Bool) → (b || true) ≡ true
or_true true = refl
or_true false = refl

module _ (name : List ℕ) (index : ℕ) (has_exit : Bool) where
  differs :
      (pc : PreferredConsole)
      → (not (is_equal (strcmp pc.name name)) || other_port (plain_console name index has_exit) pc)
        ≡ not (is_same name index pc)
  unfolding is_same other_port
  differs pc = elim (Bool-cases (is_equal (strcmp pc.name name))) [
    | inl e ↦ rw e (ground arith)
    | inr e ↦ rw e refl
  ]

  try_enable-asked :
      (user : Bool) (pcs : List PreferredConsole)
      → try_enable (plain_console name index has_exit) user pcs ≡ (
          if asked user name index pcs
          then (pos 0, plain_console name index has_exit)
          else (enoent, plain_console name index has_exit))
  unfolding try_enable asked by_name run_setup with_port
  try_enable-asked user [] = refl
  try_enable-asked user (pc ∷ pcs) = elim (Bool-cases (is_free pc.name)) [
    | inl free ↦ rw free refl
    | inr used ↦ elim (Bool-cases (same_flag pc.user_specified user)) [
      | inr other ↦ rw (used, other) (try_enable-asked user pcs)
      | inl flag ↦ elim (Bool-cases (is_same name index pc)) [
        | inl own ↦ rw (used, flag, differs pc, own) refl
        | inr other ↦ rw (used, flag, differs pc, other) (try_enable-asked user pcs)
      ]
    ]
  ]

  lookup-asked :
      (pcs : List PreferredConsole)
      → (asked true name index pcs || asked false name index pcs) ≡ is_some (lookup name index pcs)
  unfolding asked lookup
  lookup-asked [] = refl
  lookup-asked (pc ∷ pcs) = elim (Bool-cases (is_free pc.name)) [
    | inl free ↦ rw free refl
    | inr used ↦ elim (Bool-cases (is_same name index pc)) [
      | inl own ↦ elim (Bool-cases pc.user_specified) [
        | inl user ↦ rw (used, own, user) refl
        | inr driver ↦ rw (used, own, driver) (or_true (asked true name index pcs))
      ]
      | inr other ↦ elim (Bool-cases pc.user_specified) [
        | inl user ↦ rw (used, other, user) (lookup-asked pcs)
        | inr driver ↦ rw (used, other, driver) (lookup-asked pcs)
      ]
    ]
  ]

  -- A console for one port, whose driver has neither `match` nor `setup`, is registered if and only if it
  -- was asked for, by a driver or on the command line. Then it is the one in use, and `exit` has been
  -- called once more, for the one before it, if there was one and its driver has `exit`; else the result
  -- is `-ENOENT`, nothing is changed and `exit` is not called.
  pub register_console-lookup :
      (pcs : List PreferredConsole) (a : Active)
      → register_console (plain_console name index has_exit) pcs a ≡ (
          if is_some (lookup name index pcs)
          then (
            pos 0,
            record {
              active_console = some (plain_console name index has_exit);
              exited = elim a.active_console [
                | none ↦ a.exited
                | some con ↦ if con.has_exit then con ∷ a.exited else a.exited
              ];
            },
          )
          else (enoent, a))
  unfolding register_console leave
  register_console-lookup pcs a = elim (Bool-cases (asked true name index pcs)) [
    | inl user ↦ rw (sym (lookup-asked pcs), try_enable-asked true pcs, user) refl
    | inr e ↦ elim (Bool-cases (asked false name index pcs)) [
      | inl driver ↦
          rw
            (
              sym (lookup-asked pcs),
              try_enable-asked true pcs,
              e,
              try_enable-asked false pcs,
              driver,
            )
            refl
      | inr f ↦
          rw (sym (lookup-asked pcs), try_enable-asked true pcs, e, try_enable-asked false pcs, f)
            refl
    ]
  ]
