-- ===== src/Xfs/Programs.antt =====
-- The programs of the operating system in their fixed blocks: loadCode, loadCodeWithLabels,
-- clearDiskBlocks and the functions that call them, of xfs-interface/diskUtility.c. The messages they
-- print are left out.
pub mod Load
pub mod Delete
pub mod Opening
pub mod Places
use myexpos.Prelude.{
  ℕ, zero, suc, ◌+◌, ◌-◌, ◌*◌, Bool, true, false, Option, none, some, List, [], ◌∷◌, Bytes,
}
use myexpos.Prelude.Int.{ℤ}
use myexpos.Libc.Streams.{fgets_all}
use myexpos.Xfs.Layout.{
  temp_block, xfs_success, xfs_failure, os_startup_code, os_startup_code_size, init_block,
  shell_block, idle_block, library_block, ex_handler, timerint, diskcontroller_int, console_int,
  int1, mod0, int_size, mod_size, program_size, mem_os_startup_code, mem_ex_handler, mem_int1,
  mem_timerint, mem_diskcontroller_int, mem_console_int, mem_mod0, mem_int_size, mem_mod_size,
  xsm_page_size,
}
use myexpos.Xfs.State.{Disk, M, pure, edit, undefined, ◌>>=◌, ◌>>◌, write_to_disk}
use myexpos.Xfs.VirtualDisk.{empty_block}
use myexpos.Xfs.Names.{expandpath}
use myexpos.Xfs.Labels.{Output, complete, stopped, labels_resolve}
use myexpos.Xfs.WriteFile.{assembly_code, write_file_to_disk}

-- The loop that writes the empty block to `count` blocks from `block` on.
unfoldable pub write_blocks : ℕ → ℕ → M (Unit {0})
unfolding write_to_disk
write_blocks zero block = pure tt
write_blocks (suc count) block = write_to_disk temp_block block >> write_blocks count (block + 1)

unfoldable pub clear_disk_blocks : ℕ → ℕ → M ℤ
unfolding write_blocks empty_block
clear_disk_blocks disk_start_block no_of_disk_blocks =
    edit (empty_block temp_block)
    >> (write_blocks no_of_disk_blocks disk_start_block >> pure xfs_success)

-- The loop of loadCode: it ends at the first block that is not filled. The result is whether the last
-- block written was filled.
unfoldable pub load_blocks : ℕ → ℕ → Bool × List Bytes → M Bool
unfolding write_file_to_disk
load_blocks zero block (j, fp) = pure j
load_blocks (suc count) block (j, fp) =
    write_file_to_disk fp block assembly_code
    >>= (λ r. elim (r.0) [ true ↦ load_blocks count (block + 1) r | false ↦ pure false ])

unfoldable pub unless_full : ℕ → ℕ → Bool → M ℤ
unfolding clear_disk_blocks
unless_full block count true = clear_disk_blocks block count >>= λ _. pure xfs_success
unless_full block count false = pure xfs_success

-- loadCode from where its file is open.
unfoldable pub load_open_code : Bytes → ℕ → ℕ → M ℤ
unfolding load_blocks unless_full fgets_all
load_open_code file disk_start_block no_of_disk_blocks =
    load_blocks no_of_disk_blocks disk_start_block (false, fgets_all 100 file)
    >>= unless_full disk_start_block no_of_disk_blocks

-- fopen(path, "r"), with what to do when the file is not there; `none` is a path that cannot be
-- expanded.
abbrev pub with_file : {A : Type 0} → Option Bytes → M A → (Bytes → M A) → M A
with_file none missing k s = undefined s
with_file (some path) missing k s = elim (s.host path) [ none ↦ missing s | some file ↦ k file s ]

abbrev pub expanded : Bytes → Disk → Option Bytes
unfolding expandpath
expanded path s = expandpath s.getenv path

unfoldable pub load_code : Bytes → ℕ → ℕ → M ℤ
unfolding load_open_code
load_code file_name disk_start_block no_of_disk_blocks s =
    with_file (expanded file_name s) (pure xfs_failure)
      (λ file. load_open_code file disk_start_block no_of_disk_blocks) s

-- What labels_resolve has written is loaded, also where it stopped; `none` it cannot go through.
unfoldable pub load_resolved : Option Output → ℕ → ℕ → M ℤ
unfolding load_open_code
load_resolved none disk_block no_of_disk_blocks = undefined
load_resolved (some (complete file)) disk_block no_of_disk_blocks =
    load_open_code file disk_block no_of_disk_blocks
load_resolved (some (stopped file)) disk_block no_of_disk_blocks =
    load_open_code file disk_block no_of_disk_blocks

-- Without a source file the name of the temporary file is not set. That file, `tempfile.<n>.xsm` with a
-- random number, is taken to be made, and not to be named by an environment variable.
unfoldable pub load_code_with_labels : Bytes → ℕ → ℕ → ℕ → M ℤ
unfolding load_resolved labels_resolve
load_code_with_labels infile disk_block no_of_disk_blocks mem_page s =
    with_file (expanded infile s) undefined
      (λ source.
        load_resolved (labels_resolve source (mem_page * xsm_page_size)) disk_block
          no_of_disk_blocks)
      s
