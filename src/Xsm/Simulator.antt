-- ===== src/Xsm/Simulator.antt =====
-- xsm/simulator.c: the arguments of the command line.
pub mod Settings
mod Tests
use myexpos.Prelude.{
  ◌≡◌, ◌≤◌, ◌⊎◌, inl, inr, refl, ℕ, Bool, true, false, ◌||◌, ◌+◌, ◌==◌, ◌∙◌, zero, suc, ltb, Option,
  none, some, List, [], ◌∷◌, Bytes, codes, if◌then◌else◌, arith, Bool-cases,
}
use myexpos.Prelude.Int.{ℤ, pos, negsuc, add32, ltb_ℤ, eq_ℤ, wrap32, ◌+ℤ◌}
use myexpos.Libc.{atoi, strcmp}
use myexpos.Xsm.State.{Options}

-- XSM_SIMULATOR_DEFDEBUG, XSM_SIMULATOR_DEFCONSOLE, XSM_SIMULATOR_DEFTIMER and XSM_SIMULATOR_DEFDISK.
abbrev pub default_options : Options
default_options = record { timer = pos 20; debug = false; disk = pos 20; console = pos 20 }

-- The strings that the loop compares an argument with.
pub data Flag : Type 0 where
  debug timer console disk unrecognised : Flag

abbrev is_text : Bytes → Bytes → Bool
is_text s t = eq_ℤ (strcmp s t) (pos 0)

unfoldable pub flag_of : Bytes → Flag
unfolding strcmp
flag_of argument =
    if is_text argument (codes "--debug")
    then debug
    else if is_text argument (codes "--timer")
    then timer
    else if is_text argument (codes "--console")
    then console
    else if is_text argument (codes "--disk")
    then disk
    else unrecognised

-- XSM_SUCCESS with the options, XSM_FAILURE, the call of `exit` for a value out of range, and a value
-- that is missing, where atoi is given a null pointer.
pub data Parsed : Type 0 where
  parsed : Options → Parsed
  failure exits no_value : Parsed

abbrev outside : ℤ → ℤ → ℤ → Bool
outside low high val = ltb_ℤ val low || ltb_ℤ high val

-- The bodies of the three branches that take a value: the new options, or `exits`.
unfoldable pub set_timer : ℤ → Options → Parsed
set_timer val options =
    if outside (pos 0) (pos 1024) val
    then exits
    else parsed (record options { timer = if eq_ℤ val (pos 0) then pos 0 else add32 val (pos 1) })

unfoldable pub set_console : ℤ → Options → Parsed
set_console val options =
    if outside (pos 20) (pos 1024) val
    then exits
    else parsed (record options { console = add32 val (pos 1) })

unfoldable pub set_disk : ℤ → Options → Parsed
set_disk val options =
    if outside (pos 20) (pos 1024) val
    then exits
    else parsed (record options { disk = add32 val (pos 1) })

unfoldable pub set_option : Flag → ℤ → Options → Parsed
unfolding set_timer set_console set_disk
set_option timer val options = set_timer val options
set_option console val options = set_console val options
set_option disk val options = set_disk val options
set_option _ val options = failure

-- The loop over the arguments; `flag` is one whose value is the next argument.
unfoldable pub parse_arguments : List Bytes → Option Flag → Options → Parsed
parse_arguments [] none options = parsed options
parse_arguments [] (some flag) options = no_value
parse_arguments (argument ∷ arguments) none options = elim (flag_of argument) [
  | debug ↦ parse_arguments arguments none (record options { debug = true })
  | timer ↦ parse_arguments arguments (some timer) options
  | console ↦ parse_arguments arguments (some console) options
  | disk ↦ parse_arguments arguments (some disk) options
  | unrecognised ↦ failure
]
parse_arguments (value ∷ arguments) (some flag) options =
    elim (set_option flag (atoi value) options) [
      | parsed o ↦ parse_arguments arguments none o
      | failure ↦ failure
      | exits ↦ exits
      | no_value ↦ no_value
    ]

-- The arguments begin with the program's name.
unfoldable pub simulator_parse_args : List Bytes → Parsed
unfolding parse_arguments
simulator_parse_args [] = parsed default_options
simulator_parse_args (program ∷ arguments) = parse_arguments arguments none default_options
