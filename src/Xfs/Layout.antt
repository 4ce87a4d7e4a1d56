-- ===== src/Xfs/Layout.antt =====
-- xfs-interface/fileSystem.h: where the disk keeps what. Addresses are of words, over all blocks.
use myexpos.Prelude.{ℕ, ◌*◌}
use myexpos.Prelude.Int.{ℤ, pos, negsuc}

abbrev pub block_size : ℕ
block_size = 512

-- The first blocks of the free list, the inode table and the root file.
abbrev pub disk_free_list : ℕ
disk_free_list = 2

abbrev pub inode : ℕ
inode = 3

abbrev pub rootfile : ℕ
rootfile = 5

abbrev pub no_of_inode_blocks : ℕ
no_of_inode_blocks = 2

abbrev pub no_of_disk_blocks : ℕ
no_of_disk_blocks = 512

abbrev pub data_start_block : ℕ
data_start_block = 69

abbrev pub temp_block : ℕ
temp_block = 69

abbrev pub inode_num_data_blocks : ℕ
inode_num_data_blocks = 4

-- The places in an inode entry.
abbrev pub inode_entry_filetype : ℕ
inode_entry_filetype = 0

abbrev pub inode_entry_filename : ℕ
inode_entry_filename = 1

abbrev pub inode_entry_filesize : ℕ
inode_entry_filesize = 2

abbrev pub inode_entry_userid : ℕ
inode_entry_userid = 3

abbrev pub inode_entry_permission : ℕ
inode_entry_permission = 4

abbrev pub inode_entry_datablock : ℕ
inode_entry_datablock = 8

abbrev pub inode_entry_size : ℕ
inode_entry_size = 16

abbrev pub inode_size : ℕ
inode_size = no_of_inode_blocks * block_size

-- The places in a root file entry.
abbrev pub rootfile_entry_filename : ℕ
rootfile_entry_filename = 0

abbrev pub rootfile_entry_filesize : ℕ
rootfile_entry_filesize = 1

abbrev pub rootfile_entry_filetype : ℕ
rootfile_entry_filetype = 2

abbrev pub rootfile_entry_size : ℕ
rootfile_entry_size = 8

-- FILETYPE_ROOT, FILETYPE_DATA and FILETYPE_EXEC: 1, 2 and 3.
pub data FileType : Type 0 where
  root data_file executable : FileType

abbrev pub file_type_number : FileType → ℤ
file_type_number root = pos 1
file_type_number data_file = pos 2
file_type_number executable = pos 3

-- XFS_SUCCESS and XFS_FAILURE.
abbrev pub xfs_success : ℤ
xfs_success = pos 0

abbrev pub xfs_failure : ℤ
xfs_failure = negsuc 0

abbrev pub inode_max_block_num : ℕ
inode_max_block_num = 4

abbrev pub os_startup_code : ℕ
os_startup_code = 0

abbrev pub os_startup_code_size : ℕ
os_startup_code_size = 1

abbrev pub init_block : ℕ
init_block = 7

abbrev pub shell_block : ℕ
shell_block = 9

abbrev pub idle_block : ℕ
idle_block = 11

abbrev pub library_block : ℕ
library_block = 13

abbrev pub ex_handler : ℕ
ex_handler = 15

abbrev pub timerint : ℕ
timerint = 17

abbrev pub diskcontroller_int : ℕ
diskcontroller_int = 19

abbrev pub console_int : ℕ
console_int = 21

abbrev pub int1 : ℕ
int1 = 17

abbrev pub mod0 : ℕ
mod0 = 53

abbrev pub int_size : ℕ
int_size = 2

abbrev pub mod_size : ℕ
mod_size = 2

-- EX_HANDLER_SIZE, TIMERINT_SIZE, NO_OF_INIT_BLOCKS and the others that are two blocks.
abbrev pub program_size : ℕ
program_size = 2

-- The pages of memory that the programs are loaded to (memOrg.h).
abbrev pub mem_os_startup_code : ℕ
mem_os_startup_code = 1

abbrev pub mem_ex_handler : ℕ
mem_ex_handler = 2

abbrev pub mem_int1 : ℕ
mem_int1 = 4

abbrev pub mem_timerint : ℕ
mem_timerint = 4

abbrev pub mem_diskcontroller_int : ℕ
mem_diskcontroller_int = 6

abbrev pub mem_console_int : ℕ
mem_console_int = 8

abbrev pub mem_mod0 : ℕ
mem_mod0 = 40

abbrev pub mem_int_size : ℕ
mem_int_size = 2

abbrev pub mem_mod_size : ℕ
mem_mod_size = 2

abbrev pub xsm_page_size : ℕ
xsm_page_size = 512
