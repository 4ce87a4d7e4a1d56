-- ===== src/Xfs/Programs/Load.antt =====
-- The functions of xfs-interface/diskUtility.c that load a program: loadOSCode, loadTimerCode and so on.
use myexpos.Prelude.{ℕ, ◌+◌, ◌-◌, ◌*◌, Bytes}
use myexpos.Prelude.Int.{ℤ}
use myexpos.Xfs.Layout.{
  os_startup_code, os_startup_code_size, init_block, shell_block, idle_block, library_block,
  ex_handler, timerint, diskcontroller_int, console_int, int1, mod0, int_size, mod_size,
  program_size, mem_os_startup_code, mem_ex_handler, mem_int1, mem_timerint, mem_diskcontroller_int,
  mem_console_int, mem_mod0, mem_int_size, mem_mod_size,
}
use myexpos.Xfs.State.{M}
use myexpos.Xfs.Programs.{load_code, load_code_with_labels}

unfoldable pub os_code : Bytes → M ℤ
unfolding load_code_with_labels
os_code infile =
    load_code_with_labels infile os_startup_code os_startup_code_size mem_os_startup_code

unfoldable pub timer_code : Bytes → M ℤ
unfolding load_code_with_labels
timer_code infile = load_code_with_labels infile timerint program_size mem_timerint

unfoldable pub disk_controller_int_code : Bytes → M ℤ
unfolding load_code_with_labels
disk_controller_int_code infile =
    load_code_with_labels infile diskcontroller_int program_size mem_diskcontroller_int

unfoldable pub console_int_code : Bytes → M ℤ
unfolding load_code_with_labels
console_int_code infile = load_code_with_labels infile console_int program_size mem_console_int

unfoldable pub ex_handler_to_disk : Bytes → M ℤ
unfolding load_code_with_labels
ex_handler_to_disk infile = load_code_with_labels infile ex_handler program_size mem_ex_handler

-- The number of an interrupt is at least 1.
unfoldable pub int_code : Bytes → ℕ → M ℤ
unfolding load_code_with_labels
int_code infile int_no =
    load_code_with_labels infile ((int_no - 1) * int_size + int1) int_size
      ((int_no - 1) * mem_int_size + mem_int1)

unfoldable pub module_code : Bytes → ℕ → M ℤ
unfolding load_code_with_labels
module_code infile mod_no =
    load_code_with_labels infile (mod_no * mod_size + mod0) mod_size
      (mod_no * mem_mod_size + mem_mod0)

unfoldable pub init_code : Bytes → M ℤ
unfolding load_code
init_code infile = load_code infile init_block program_size

unfoldable pub idle_code : Bytes → M ℤ
unfolding load_code
idle_code infile = load_code infile idle_block program_size

unfoldable pub shell_code : Bytes → M ℤ
unfolding load_code
shell_code infile = load_code infile shell_block program_size

unfoldable pub library_code : Bytes → M ℤ
unfolding load_code
library_code infile = load_code infile library_block program_size
