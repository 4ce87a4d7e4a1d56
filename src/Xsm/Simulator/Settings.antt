-- ===== src/Xsm/Simulator/Settings.antt =====
-- The command lines that spell settings out, and what simulator_parse_args makes of them.
use myexpos.Prelude.{
  ◌≡◌, ◌≤◌, ◌∙◌, inl, inr, refl, ℕ, true, false, ◌&&◌, ◌+◌, ◌==◌, none, some, List, [], ◌∷◌, Bytes,
  codes, if◌then◌else◌, arith, leb, All, Bool-cases,
}
use myexpos.Prelude.Int.{pos, add32, wrap32, ◌+ℤ◌}
use myexpos.Libc.{atoi, format_int}
use myexpos.Libc.Decimal.{atoi-print}
use myexpos.Xsm.State.{Options}
use myexpos.Xsm.Simulator.{
  Flag, debug, timer, console, disk, Parsed, parsed, exits, flag_of, set_timer, set_console,
  set_disk, set_option, parse_arguments, simulator_parse_args, default_options,
}

-- What a user may ask for.
pub data Setting : Type 0 where
  debugging : Setting
  timer_after console_after disk_after : ℕ → Setting

-- The arguments that ask for it.
abbrev pub spelled : List Setting → List Bytes
spelled [] = []
spelled (debugging ∷ l) = codes "--debug" ∷ spelled l
spelled (timer_after n ∷ l) = codes "--timer" ∷ format_int (pos n) ∷ spelled l
spelled (console_after n ∷ l) = codes "--console" ∷ format_int (pos n) ∷ spelled l
spelled (disk_after n ∷ l) = codes "--disk" ∷ format_int (pos n) ∷ spelled l

-- Its value is an `int`.
abbrev pub IsInt : Setting → Type 0
IsInt debugging = Unit
IsInt (timer_after n) = n ≤ 2147483647
IsInt (console_after n) = n ≤ 2147483647
IsInt (disk_after n) = n ≤ 2147483647

-- Settings take effect from the left: a device that is to take n rounds, from 20 to 1024, gets n + 1,
-- and so does a timer of at most 1024, but 0 turns it off. Any other value ends the program.
unfoldable pub settled : List Setting → Options → Parsed
settled [] o = parsed o
settled (debugging ∷ l) o = settled l (record o { debug = true })
settled (timer_after n ∷ l) o =
    let rest = settled l (record o { timer = pos (if n == 0 then 0 else n + 1) }) in
    if leb n 1024 then rest else exits
settled (console_after n ∷ l) o =
    let rest = settled l (record o { console = pos (n + 1) }) in
    if leb 20 n && leb n 1024 then rest else exits
settled (disk_after n ∷ l) o =
    let rest = settled l (record o { disk = pos (n + 1) }) in
    if leb 20 n && leb n 1024 then rest else exits

next : (n : ℕ) → n ≤ 1024 → add32 (pos n) (pos 1) ≡ pos (n + 1)
unfolding ◌+ℤ◌ wrap32
next n h = ground arith

value_taken :
    (flag : Flag) (n : ℕ) (l : List Bytes) (o o' : Options)
    → n ≤ 2147483647
    → set_option flag (pos n) o ≡ parsed o'
    → parse_arguments (format_int (pos n) ∷ l) (some flag) o ≡ parse_arguments l none o'
unfolding parse_arguments
value_taken flag n l o o' h e =
    let v : atoi (format_int (pos n)) ≡ pos n = atoi-print (pos n) (omega arith) in
    rw (parse_arguments, v, e) refl

value_refused :
    (flag : Flag) (n : ℕ) (l : List Bytes) (o : Options)
    → n ≤ 2147483647
    → set_option flag (pos n) o ≡ exits
    → parse_arguments (format_int (pos n) ∷ l) (some flag) o ≡ exits
unfolding parse_arguments
value_refused flag n l o h e =
    let v : atoi (format_int (pos n)) ≡ pos n = atoi-print (pos n) (omega arith) in
    rw (parse_arguments, v, e) refl

timer_value :
    (n : ℕ) (o : Options)
    → n ≤ 1024
    → set_timer (pos n) o ≡ parsed (record o { timer = pos (if n == 0 then 0 else n + 1) })
unfolding set_timer
timer_value n o h = rw (next n h) (ground arith)

console_value :
    (n : ℕ) (o : Options)
    → (leb 20 n && leb n 1024) ≡ true
    → set_console (pos n) o ≡ parsed (record o { console = pos (n + 1) })
unfolding set_console
console_value n o h = rw (next n (ground arith)) (ground arith)

disk_value :
    (n : ℕ) (o : Options)
    → (leb 20 n && leb n 1024) ≡ true
    → set_disk (pos n) o ≡ parsed (record o { disk = pos (n + 1) })
unfolding set_disk
disk_value n o h = rw (next n (ground arith)) (ground arith)

timer_refused : (n : ℕ) (o : Options) → leb n 1024 ≡ false → set_timer (pos n) o ≡ exits
unfolding set_timer
timer_refused n o h = ground arith

console_refused :
    (n : ℕ) (o : Options) → (leb 20 n && leb n 1024) ≡ false → set_console (pos n) o ≡ exits
unfolding set_console
console_refused n o h = ground arith

disk_refused : (n : ℕ) (o : Options) → (leb 20 n && leb n 1024) ≡ false → set_disk (pos n) o ≡ exits
unfolding set_disk
disk_refused n o h = ground arith

flags :
    (flag_of (codes "--debug") ≡ debug)
    × (flag_of (codes "--timer") ≡ timer)
    × (flag_of (codes "--console") ≡ console)
    × (flag_of (codes "--disk") ≡ disk)
unfolding flag_of
flags = (refl, refl, refl, refl)

parse_arguments-spelled :
    (settings : List Setting) (o : Options)
    → All IsInt settings
    → parse_arguments (spelled settings) none o ≡ settled settings o
unfolding parse_arguments settled set_option
parse_arguments-spelled [] o h = refl
parse_arguments-spelled (debugging ∷ l) o (_, h) =
    rw (parse_arguments, settled, flags.0) (parse_arguments-spelled l (record o { debug = true }) h)
parse_arguments-spelled (timer_after n ∷ l) o (hn, h) =
    let o' : Options = record o { timer = pos (if n == 0 then 0 else n + 1) } in
    elim (Bool-cases (leb n 1024)) [
      | inl e ↦
          rw (parse_arguments, settled, flags.1, e)
            (value_taken timer n (spelled l) o o' hn (timer_value n o (ground arith))
              ∙ parse_arguments-spelled l o' h)
      | inr e ↦
          rw (parse_arguments, settled, flags.1, e)
            (value_refused timer n (spelled l) o hn (timer_refused n o e))
    ]
parse_arguments-spelled (console_after n ∷ l) o (hn, h) =
    let o' : Options = record o { console = pos (n + 1) } in
    elim (Bool-cases (leb 20 n && leb n 1024)) [
      | inl e ↦
          rw (parse_arguments, settled, flags.2, e)
            (value_taken console n (spelled l) o o' hn (console_value n o e)
              ∙ parse_arguments-spelled l o' h)
      | inr e ↦
          rw (parse_arguments, settled, flags.2, e)
            (value_refused console n (spelled l) o hn (console_refused n o e))
    ]
parse_arguments-spelled (disk_after n ∷ l) o (hn, h) =
    let o' : Options = record o { disk = pos (n + 1) } in
    elim (Bool-cases (leb 20 n && leb n 1024)) [
      | inl e ↦
          rw (parse_arguments, settled, flags.3, e)
            (value_taken disk n (spelled l) o o' hn (disk_value n o e)
              ∙ parse_arguments-spelled l o' h)
      | inr e ↦
          rw (parse_arguments, settled, flags.3, e)
            (value_refused disk n (spelled l) o hn (disk_refused n o e))
    ]

-- A command line that spells out a list of settings, whose values are non-negative `int`s printed in
-- decimal, has the outcome that settling them from the defaults, from the left, has: the options that
-- it leaves, or the end of the program at the first value out of range.
pub simulator_parse_args-spelled :
    (program : Bytes) (settings : List Setting)
    → All IsInt settings
    → simulator_parse_args (program ∷ spelled settings) ≡ settled settings default_options
unfolding simulator_parse_args
simulator_parse_args-spelled program settings h = parse_arguments-spelled settings default_options h
