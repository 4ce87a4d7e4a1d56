-- ===== src/Xfs/Export.antt =====
-- What xfs-interface/diskUtility.c shows of the disk, and writes to files of the host: displayFileContents,
-- exportFile, copyBlocksToFile, dumpRootFile, dumpInodeTable, displayDiskFreeList and listAllFiles.
use myexpos.Prelude.{
  ℕ, zero, suc, ◌+◌, ◌-◌, ◌*◌, Bool, Option, none, some, List, [], ◌∷◌, ◌++◌, Bytes, codes,
  if◌then◌else◌,
}
use myexpos.Prelude.Int.{ℤ, pos, negsuc, eq_ℤ}
use myexpos.Libc.{cstr, strcmp, format_int}
use myexpos.Libc.Streams.{newline}
use myexpos.Xfs.Layout.{
  block_size, disk_free_list, inode, rootfile, no_of_inode_blocks, temp_block, xfs_success,
  xfs_failure,
}
use myexpos.Xfs.State.{
  Virt, M, pure, gets, edit, undefined, ◌>>=◌, ◌>>◌, read_from_disk, disk_check_file_exists,
}
use myexpos.Xfs.VirtualDisk.{XosFile, get_all_files, empty_block, get_value_at}
use myexpos.Xfs.Inode.{get_inode_entry, get_data_blocks}
use myexpos.Xfs.Programs.{expanded}

-- The strings of `count` words from `address` on.
unfoldable pub strings : ℕ → ℕ → Virt → List Bytes
unfolding cstr
strings zero address v = []
strings (suc count) address v = cstr (v address) ∷ strings count (address + 1) v

abbrev pub block_strings : Virt → List Bytes
unfolding strings
block_strings v = strings block_size (temp_block * block_size) v

abbrev pub append_to : List Bytes → List Bytes → M (List Bytes)
append_to lines rest = pure (lines ++ rest)

-- One round of the loops over the blocks of a file, with `rest` for the rounds behind it.
unfoldable pub fetch_block : ℕ → M (List Bytes) → M (List Bytes)
unfolding read_from_disk empty_block block_strings
fetch_block block rest = do
  edit (empty_block temp_block)
  read_from_disk temp_block block
  lines ← gets (λ s. block_strings s.virt)
  edit (empty_block temp_block)
  rest >>= append_to lines

-- `while (blk[k] > 0)`. Four blocks lead to an element that the array does not have.
unfoldable pub file_strings : List ℤ → M (List Bytes)
unfolding fetch_block
file_strings [] = undefined
file_strings (pos zero ∷ blk) = pure []
file_strings (negsuc n ∷ blk) = pure []
file_strings (pos (suc b) ∷ blk) = fetch_block (suc b) (file_strings blk)

-- The words of a file; `none` is a file that is not found.
unfoldable pub strings_at : ℤ → M (Option (List Bytes))
unfolding file_strings get_data_blocks
strings_at (negsuc n) = pure none
strings_at (pos location) = do
  blk ← gets (λ s. get_data_blocks location s.virt)
  file_strings blk >>= λ lines. pure (some lines)

unfoldable pub file_words : Bytes → M (Option (List Bytes))
unfolding strings_at get_inode_entry disk_check_file_exists
file_words name = do
  disk_check_file_exists
  location ← gets (λ s. get_inode_entry name s.virt)
  strings_at location

-- The words that are not empty.
unfoldable pub shown : List Bytes → List Bytes
shown [] = []
shown ([] ∷ lines) = shown lines
shown ((c ∷ s) ∷ lines) = (c ∷ s) ∷ shown lines

abbrev shown_words : Option (List Bytes) → Option (List Bytes)
unfolding shown
shown_words none = none
shown_words (some lines) = some (shown lines)

-- displayFileContents: the lines it prints.
unfoldable pub display_file_contents : Bytes → M (Option (List Bytes))
unfolding file_words shown_words
display_file_contents name = file_words name >>= λ words. pure (shown_words words)

abbrev pub as_lines : List Bytes → Bytes
as_lines [] = []
as_lines (line ∷ lines) = line ++ newline ∷ as_lines lines

-- The file that is opened by fopen(path, "w"), with what is written.
unfoldable pub host_write : Option Bytes → Bytes → M (Unit {0})
unfolding strcmp
host_write none text s = undefined s
host_write (some path) text s =
    pure tt (record s { host = λ q. if eq_ℤ (strcmp path q) (pos 0) then some text else s.host q })

unfoldable pub export_at : ℤ → Bytes → M (Unit {0})
unfolding file_strings get_data_blocks host_write
export_at (negsuc n) unixfile s = pure tt s
export_at (pos location) unixfile s =
    (file_strings (get_data_blocks location s.virt) >>= λ lines.
    host_write (expanded unixfile s) (as_lines lines))
      s

-- exportFile; `allowed` is whether the host lets the file be made. Otherwise a message is printed.
unfoldable pub export_file : Bytes → Bytes → Bool → M (Unit {0})
unfolding export_at get_inode_entry disk_check_file_exists
export_file filename unixfile allowed = do
  disk_check_file_exists
  location ← gets (λ s. get_inode_entry filename s.virt)
  if allowed then export_at location unixfile else pure tt

-- The loop of copyBlocksToFile over `count` blocks from `block` on.
unfoldable pub fetch_blocks : ℕ → ℕ → M (List Bytes)
unfolding read_from_disk empty_block block_strings
fetch_blocks zero block = pure []
fetch_blocks (suc count) block = do
  edit (empty_block temp_block)
  read_from_disk temp_block block
  lines ← gets (λ s. block_strings s.virt)
  fetch_blocks count (block + 1) >>= append_to lines

unfoldable pub copy_blocks_to_file : ℕ → ℕ → Bytes → Bool → M ℤ
unfolding fetch_blocks host_write disk_check_file_exists
copy_blocks_to_file startblock endblock filename allowed s =
    (disk_check_file_exists
        >> (if allowed
            then fetch_blocks (suc endblock - startblock) startblock
              >>= (λ lines. host_write (expanded filename s) (as_lines lines) >> pure xfs_success)
            else pure xfs_failure))
      s

unfoldable pub dump_root_file : Bytes → Bool → M ℤ
unfolding copy_blocks_to_file
dump_root_file filename = copy_blocks_to_file rootfile rootfile filename

unfoldable pub dump_inode_table : Bytes → Bool → M ℤ
unfolding copy_blocks_to_file
dump_inode_table filename = copy_blocks_to_file inode (inode + no_of_inode_blocks - 1) filename

unfoldable pub count_free : ℕ → ℕ → Virt → ℕ
unfolding get_value_at
count_free zero i v = 0
count_free (suc count) i v =
    let rest = count_free count (i + 1) v in
    if eq_ℤ (get_value_at v (disk_free_list * block_size + i)) (pos 0) then suc rest else rest

-- displayDiskFreeList: the words of the free list, and the number of free blocks.
unfoldable pub display_disk_free_list : M (List Bytes × ℕ)
unfolding strings count_free disk_check_file_exists
display_disk_free_list = do
  disk_check_file_exists
  gets (λ s.
      (strings block_size (disk_free_list * block_size) s.virt, count_free block_size 0 s.virt))

-- The lines of listAllFiles, which prints another one when there are none.
unfoldable pub file_lines : List XosFile → List Bytes
unfolding format_int
file_lines [] = []
file_lines (file ∷ files) =
    (codes "Filename: " ++ file.name ++ codes " \t Filesize " ++ format_int file.size)
    ∷ file_lines files

unfoldable pub list_all_files : M (List Bytes)
unfolding file_lines get_all_files
list_all_files = do files ← get_all_files; pure (file_lines files)
