-- ===== src/Xfs/Programs/Delete.antt =====
-- The functions of xfs-interface/diskUtility.c that delete a program: deleteOSCodeFromDisk and so on.
use myexpos.Prelude.{ℕ, ◌+◌, ◌-◌, ◌*◌}
use myexpos.Prelude.Int.{ℤ}
use myexpos.Xfs.Layout.{
  os_startup_code, os_startup_code_size, init_block, shell_block, idle_block, library_block,
  ex_handler, timerint, diskcontroller_int, console_int, int1, mod0, int_size, mod_size,
  program_size,
}
use myexpos.Xfs.State.{M}
use myexpos.Xfs.Programs.{clear_disk_blocks}

unfoldable pub os_code_from_disk : M ℤ
unfolding clear_disk_blocks
os_code_from_disk = clear_disk_blocks os_startup_code os_startup_code_size

unfoldable pub timer_from_disk : M ℤ
unfolding clear_disk_blocks
timer_from_disk = clear_disk_blocks timerint program_size

unfoldable pub disk_controller_int_from_disk : M ℤ
unfolding clear_disk_blocks
disk_controller_int_from_disk = clear_disk_blocks diskcontroller_int program_size

unfoldable pub console_int_from_disk : M ℤ
unfolding clear_disk_blocks
console_int_from_disk = clear_disk_blocks console_int program_size

unfoldable pub ex_handler_from_disk : M ℤ
unfolding clear_disk_blocks
ex_handler_from_disk = clear_disk_blocks ex_handler program_size

unfoldable pub int_code_from_disk : ℕ → M ℤ
unfolding clear_disk_blocks
int_code_from_disk int_no = clear_disk_blocks ((int_no - 1) * int_size + int1) int_size

unfoldable pub module_code_from_disk : ℕ → M ℤ
unfolding clear_disk_blocks
module_code_from_disk mod_no = clear_disk_blocks (mod_no * mod_size + mod0) mod_size

unfoldable pub init_from_disk : M ℤ
unfolding clear_disk_blocks
init_from_disk = clear_disk_blocks init_block program_size

unfoldable pub idle_from_disk : M ℤ
unfolding clear_disk_blocks
idle_from_disk = clear_disk_blocks idle_block program_size

unfoldable pub shell_from_disk : M ℤ
unfolding clear_disk_blocks
shell_from_disk = clear_disk_blocks shell_block program_size

unfoldable pub library_from_disk : M ℤ
unfolding clear_disk_blocks
library_from_disk = clear_disk_blocks library_block program_size
