-- ===== src/Xfs/Shell.antt =====
-- runCommand and the loops over it, of xfs-interface/interface.c: what a line of the shell does. Its messages, and what ls, df and cat
-- print, are left out; Export has the latter.
pub mod Limits
mod Tests
use myexpos.Prelude.{
  ℕ, zero, suc, ◌+◌, ◌-◌, ◌*◌, Bool, true, false, ◌&&◌, ◌||◌, not, Option, none, some, List, [],
  ◌∷◌, ◌++◌, Bytes, codes, leb, ltb, ◌==◌, if◌then◌else◌, length, take,
}
use myexpos.Prelude.Int.{ℤ, pos, negsuc, eq_ℤ}
use myexpos.Libc.{cstr, strcmp, atoi, skip_space}
use myexpos.Libc.Streams.{newline, strtok, split_at, strchr, behind_last}
use myexpos.Xfs.State.{Disk, Result, ok, thrown, unspecified, M, pure, gets, undefined, ◌>>=◌, ◌>>◌}
use myexpos.Xfs.Names.{trim_end}
use myexpos.Xfs.Assembly.{chomp}
use myexpos.Xfs.Programs.Load.{
  os_code, timer_code, disk_controller_int_code, console_int_code, ex_handler_to_disk, int_code,
  module_code, init_code, idle_code, shell_code, library_code,
}
use myexpos.Xfs.Files.{
  format_disk, load_data_to_disk, load_executable_to_disk, delete_file_from_disk,
}
use myexpos.Xfs.Export.{
  list_all_files, display_disk_free_list, display_file_contents, export_file, copy_blocks_to_file,
  dump_inode_table, dump_root_file,
}

abbrev pub discard : {A : Type 0} → M A → M (Unit {0})
discard m = m >>= λ a. pure tt

unfoldable pub is_word : Bytes → Bytes → Bool
unfolding strcmp
is_word s t = eq_ℤ (strcmp s t) (pos 0)

-- The words of a command line: what the calls of strtok with a blank return.
unfoldable pub argument : ℕ → Bytes → Option Bytes
unfolding strtok
argument zero line = elim (strtok b' ' line) [ none ↦ none | some (word, rest) ↦ some word ]
argument (suc n) line = elim (strtok b' ' line) [
  | none ↦ none
  | some (word, rest) ↦ argument n rest
]

-- The slashes at the end, which basename takes off.
unfoldable pub trim_slashes : Bytes → Bytes
trim_slashes [] = []
trim_slashes (c ∷ s) = elim (trim_slashes s) [
  | [] ↦ if c == b'/' then [] else c ∷ []
  | d ∷ r ↦ c ∷ d ∷ r
]

unfoldable pub has_extension : Bytes → Bytes → Bool
unfolding strchr behind_last is_word
has_extension name ext = elim (strchr b'.' name) [
  | none ↦ false
  | some s ↦ is_word (behind_last b'.' name name) ext
]

-- The tests for --exec and --data, and then the load.
unfoldable pub load_checked : Bytes → Bytes → (Bytes → M ℤ) → M (Unit {0})
unfolding trim_slashes has_extension behind_last
load_checked file_name ext load =
    let path = trim_slashes file_name in
    if leb 13 (length (behind_last b'/' path path)) || not (has_extension path ext)
    then pure tt
    else discard (load path)

abbrev pub in_range : ℕ → ℕ → ℤ → (ℕ → M (Unit {0})) → M (Unit {0})
in_range low high (pos n) k = if leb low n && leb n high then k n else pure tt
in_range low high (negsuc n) k = pure tt

abbrev pub no_of_interrupts : ℕ
no_of_interrupts = 18

abbrev pub no_of_modules : ℕ
no_of_modules = 11

-- The part of load for --int=; without a type strcmp is given a null pointer.
unfoldable pub load_interrupt : Option Bytes → Bytes → M (Unit {0})
unfolding is_word timer_code disk_controller_int_code console_int_code int_code atoi
load_interrupt none file_name = undefined
load_interrupt (some int_type) file_name =
    if is_word int_type (codes "timer")
    then discard (timer_code file_name)
    else if is_word int_type (codes "disk")
    then discard (disk_controller_int_code file_name)
    else if is_word int_type (codes "console")
    then discard (console_int_code file_name)
    else in_range 4 no_of_interrupts (atoi int_type) (λ n. discard (int_code file_name n))

-- The part of load for --module; without a path expandpath is given a null pointer.
unfoldable pub load_module : Bytes → Option Bytes → M (Unit {0})
unfolding module_code atoi
load_module number path =
    in_range 0 no_of_modules (atoi number)
      (λ n. elim path [ none ↦ undefined | some file_name ↦ discard (module_code file_name n) ])

-- load with its option, what follows the option's equals sign, and its arguments.
unfoldable pub load_option : Bytes → Option Bytes → Bytes → Option Bytes → M (Unit {0})
unfolding load_checked load_interrupt load_module is_word load_executable_to_disk load_data_to_disk
    init_code shell_code library_code idle_code os_code ex_handler_to_disk
load_option option int_type arg2 arg3 =
    let file_name = take 100 arg2 in
    if is_word option (codes "--exec")
    then load_checked file_name (codes "xsm") load_executable_to_disk
    else if is_word option (codes "--init")
    then discard (init_code file_name)
    else if is_word option (codes "--shell")
    then discard (shell_code file_name)
    else if is_word option (codes "--library")
    then discard (library_code file_name)
    else if is_word option (codes "--idle")
    then discard (idle_code file_name)
    else if is_word option (codes "--data")
    then load_checked file_name (codes "dat") load_data_to_disk
    else if is_word option (codes "--os")
    then discard (os_code file_name)
    else if is_word option (codes "--int")
    then load_interrupt int_type file_name
    else if is_word option (codes "--module")
    then load_module arg2 arg3
    else if is_word option (codes "--exhandler")
    then discard (ex_handler_to_disk file_name)
    else pure tt

abbrev token_only : Option (Bytes × Bytes) → Option Bytes
token_only none = none
token_only (some (token, rest)) = some token

unfoldable pub load_command : Option Bytes → Option Bytes → Option Bytes → M (Unit {0})
unfolding load_option split_at strtok
load_command (some arg1) (some arg2) arg3 =
    load_option ((split_at b'=' arg1).0) (token_only (strtok b'=' ((split_at b'=' arg1).1))) arg2
      arg3
load_command (some arg1) none arg3 = pure tt
load_command none arg2 arg3 = pure tt

-- copy. A negative first block, at which lseek fails, is left open; a negative last one copies nothing.
unfoldable pub copy_range : ℤ → ℤ → Bytes → Bool → M (Unit {0})
unfolding copy_blocks_to_file
copy_range (pos first) (pos last) path allowed =
    discard (copy_blocks_to_file first last path allowed)
copy_range (pos first) (negsuc last) path allowed = discard (copy_blocks_to_file 1 0 path allowed)
copy_range (negsuc first) last path allowed = undefined

-- The path is cut at 50 characters by a NUL, which a shorter one has behind its end.
unfoldable pub copy_command : Option Bytes → Option Bytes → Option Bytes → Bool → M (Unit {0})
unfolding copy_range atoi
copy_command (some arg1) (some arg2) (some arg3) allowed =
    copy_range (atoi arg1) (atoi arg2) (take 50 arg3) allowed
copy_command (some arg1) (some arg2) none allowed = pure tt
copy_command (some arg1) none arg3 allowed = pure tt
copy_command none arg2 arg3 allowed = pure tt

unfoldable pub dump_command : Option Bytes → Bool → M (Unit {0})
unfolding is_word dump_inode_table dump_root_file
dump_command none allowed = undefined
dump_command (some arg1) allowed =
    if is_word arg1 (codes "--inodeusertable")
    then discard (dump_inode_table (codes "inodeusertable.txt") allowed)
    else if is_word arg1 (codes "--rootfile")
    then discard (dump_root_file (codes "rootfile.txt") allowed)
    else pure tt

unfoldable pub with_name : Option Bytes → (Bytes → M (Unit {0})) → M (Unit {0})
with_name none k = pure tt
with_name (some name) k = k name

unfoldable pub export_command : Option Bytes → Option Bytes → Bool → M (Unit {0})
unfolding export_file
export_command (some name) (some path) allowed = export_file name path allowed
export_command (some name) none allowed = pure tt
export_command none path allowed = pure tt

-- The commands but run and exit, by their name; `allowed` is whether the host lets files be made.
unfoldable pub simple_command : Bool → Bytes → Bytes → M (Unit {0})
unfolding is_word format_disk argument load_command with_name delete_file_from_disk export_command
    list_all_files display_disk_free_list display_file_contents copy_command dump_command
simple_command allowed name line =
    if is_word name (codes "fdisk")
    then format_disk allowed
    else if is_word name (codes "load")
    then load_command (argument 1 line) (argument 2 line) (argument 3 line)
    else if is_word name (codes "rm")
    then with_name (argument 1 line) (λ file. discard (delete_file_from_disk file))
    else if is_word name (codes "export")
    then export_command (argument 1 line) (argument 2 line) allowed
    else if is_word name (codes "ls")
    then discard list_all_files
    else if is_word name (codes "df")
    then discard display_disk_free_list
    else if is_word name (codes "cat")
    then with_name (argument 1 line) (λ file. discard (display_file_contents file))
    else if is_word name (codes "copy")
    then copy_command (argument 1 line) (argument 2 line) (argument 3 line) allowed
    else if is_word name (codes "dump")
    then dump_command (argument 1 line) allowed
    else pure tt

-- The exception point: what is thrown is reported, and the command is over.
unfoldable pub caught : M Bool → M Bool
caught m s = elim (m s) [ ok a t ↦ ok a t | thrown e t ↦ ok true t | unspecified ↦ unspecified ]

-- What successive calls of getline read.
unfoldable pub getlines : Bytes → List Bytes
getlines [] = []
getlines (c ∷ s) = elim (getlines s) [
  | [] ↦ (c ∷ []) ∷ []
  | line ∷ lines ↦ if c == newline then (c ∷ []) ∷ line ∷ lines else (c ∷ line) ∷ lines
]

-- The loop of the command run, with `run` for a line. A line that starts with a NUL is read before its start.
unfoldable pub run_lines : (Bytes → M Bool) → List Bytes → M Bool
unfolding chomp cstr
run_lines run [] = pure true
run_lines run (line ∷ lines) = elim (cstr line) [
  | [] ↦ undefined
  | c ∷ s ↦ run (chomp (c ∷ s)) >>= λ goes_on. (elim goes_on [
    | true ↦ run_lines run lines
    | false ↦ pure false
  ])
]

abbrev run_path : (Bytes → M Bool) → Option Bytes → M Bool
unfolding run_lines getlines
run_path run none s = undefined s
run_path run (some path) s = elim (s.host path) [
  | none ↦ pure true s
  | some file ↦ run_lines run (getlines file) s
]

-- A line by its first word; without one strcmp is given a null pointer.
unfoldable pub run_words : (Bytes → M Bool) → Bool → Bytes → Option Bytes → M Bool
unfolding run_path simple_command argument is_word
run_words run allowed line none = undefined
run_words run allowed line (some name) =
    if is_word name (codes "run")
    then run_path run (argument 1 line)
    else if is_word name (codes "exit")
    then pure false
    else simple_command allowed name line >>= λ _. pure true

-- runCommand. The result is whether the shell goes on. Files of commands may name each other `depth`
-- deep; deeper ones, as those that name themselves, are taken to exhaust the stack.
unfoldable pub run_line : ℕ → Bool → Bytes → M Bool
unfolding run_words argument caught
run_line zero allowed line = undefined
run_line (suc depth) allowed line =
    caught (run_words (λ l. run_line depth allowed l) allowed line (argument 0 line))

-- The loop of cli over the words behind the first; `none` is a line that does not fit its 100 characters.
unfoldable pub join_words : Bytes → List Bytes → Option Bytes
join_words command [] = if leb 100 (length command) then none else some command
join_words command (word ∷ argv) =
    let rest = join_words (command ++ codes " " ++ word) argv in
    if leb 100 (length command) then none else rest

-- cli with arguments, of which `command` is the first: one line is run.
unfoldable pub cli : ℕ → Bool → Bytes → List Bytes → M Bool
unfolding join_words run_line
cli depth allowed command argv = elim (join_words command argv) [
  | none ↦ undefined
  | some line ↦ run_line depth allowed line
]

-- xfs_cli_stripwhite; of an empty line the character before its start is read.
unfoldable pub xfs_cli_stripwhite : Bytes → Option Bytes
unfolding trim_end skip_space
xfs_cli_stripwhite [] = none
xfs_cli_stripwhite (c ∷ s) = some (trim_end (skip_space (c ∷ s)))

abbrev run_command_line : (Bytes → M Bool) → Bytes → M Bool
unfolding is_word
run_command_line run [] = pure true
run_command_line run (c ∷ s) = if is_word (c ∷ s) (codes "exit") then pure false else run (c ∷ s)

-- cli_run_with_completion over the lines that are read. (At the end of the input it reads again, for ever.)
unfoldable pub cli_run_with_completion : ℕ → Bool → List Bytes → M Bool
unfolding run_command_line xfs_cli_stripwhite run_line
cli_run_with_completion depth allowed [] = pure true
cli_run_with_completion depth allowed (line_read ∷ lines) = elim (xfs_cli_stripwhite line_read) [
  | none ↦ undefined
  | some command ↦ run_command_line (λ l. run_line depth allowed l) command >>= λ goes_on.
      (elim goes_on [ true ↦ cli_run_with_completion depth allowed lines | false ↦ pure false ])
]
