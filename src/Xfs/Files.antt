-- ===== src/Xfs/Files.antt =====
-- The files of the disk: formatDisk, loadDataToDisk, loadExecutableToDisk and deleteFileFromDisk of
-- xfs-interface/diskUtility.c.
pub mod Allocation
pub mod Commit
pub mod Deletion
pub mod GiveUp
use myexpos.Prelude.{
  ℕ, zero, suc, ◌+◌, ◌-◌, ◌*◌, ◌/◌, ◌%◌, Bool, true, false, ◌||◌, Option, none, some, List, [], ◌∷◌,
  ◌++◌, Bytes, codes, ltb, leb, ◌==◌, if◌then◌else◌, length, take, replicate,
}
use myexpos.Prelude.Int.{ℤ, pos, negsuc, eq_ℤ}
use myexpos.Libc.{cstr, strcmp}
use myexpos.Libc.Streams.{newline, fgets_all, met_eof, behind_last}
use myexpos.Xfs.Layout.{
  block_size, inode, rootfile, temp_block, xfs_success, xfs_failure, inode_max_block_num, FileType,
  root, data_file, executable,
}
use myexpos.Xfs.State.{
  Virt, Disk, M, pure, gets, edit, undefined, ◌>>=◌, ◌>>◌, create_disk_file, disk_check_file_exists,
}
use myexpos.Xfs.VirtualDisk.{
  store_string_value_at, empty_block, find_free_block, free_unused_block, free_list, inode_table,
  root_file, set_default_values, commit_mem_copy_to_disk, clear_virt_disk,
}
use myexpos.Xfs.Inode.{
  find_empty_inode_entry, get_inode_entry, add_entry_to_mem_inode, remove_inode_entry,
  get_data_blocks,
}
use myexpos.Xfs.Names.{addext}
use myexpos.Xfs.WriteFile.{WriteType, assembly_code, data_words, write_file_to_disk}
use myexpos.Xfs.Programs.{with_file, expanded}

-- The entry of the root file is made of the blocks of the root file.
abbrev pub root_file_data_blocks : List ℤ
root_file_data_blocks = pos rootfile ∷ replicate 3 (negsuc 0)

-- The user table stands at word 960 of the inode table.
unfoldable pub user_table : Virt → Virt
user_table v =
    let base = inode * block_size + 960 in
    let v1 = store_string_value_at base (codes "kernel") v in
    let v2 = store_string_value_at (base + 1) (codes "-1") v1 in
    let v3 = store_string_value_at (base + 2) (codes "root") v2 in
    store_string_value_at (base + 3) (codes "452") v3

-- formatDisk(TRUE); `allowed` is whether the host lets the disk file be made.
unfoldable pub format_disk : Bool → M (Unit {0})
unfolding create_disk_file clear_virt_disk set_default_values commit_mem_copy_to_disk
    add_entry_to_mem_inode user_table
format_disk allowed = do
  create_disk_file allowed
  edit clear_virt_disk
  edit (set_default_values free_list)
  commit_mem_copy_to_disk free_list
  edit (set_default_values inode_table)
  edit (set_default_values root_file)
  edit (add_entry_to_mem_inode 0 root (codes "root") (pos block_size) root_file_data_blocks)
  edit user_table
  commit_mem_copy_to_disk inode_table
  commit_mem_copy_to_disk root_file

-- The part of a path behind the last slash, cut to 15 characters, with the extension. A part that
-- does not fit the 50 characters of `filename`, or that addext cannot handle, is `none`.
unfoldable pub xfs_name : Bytes → Bytes → Option Bytes
unfolding addext behind_last
xfs_name name ext =
    let filename = behind_last b'/' name name in
    if leb 50 (length filename) then none else addext (take 15 filename) ext

-- getDataFileSize: what fgets reads with no end of the file, with a buffer of a word.
unfoldable pub get_data_file_size : List Bytes → ℕ
unfolding met_eof
get_data_file_size [] = 0
get_data_file_size (piece ∷ file) =
    let rest = get_data_file_size file in if met_eof 16 piece then 0 else suc rest

unfoldable pub data_blocks : ℕ → ℕ
data_blocks num_of_words = num_of_words / 512 + (if num_of_words % 512 == 0 then 0 else 1)

-- A byte 255 reads as EOF, in a `char`. The end of the file counts too.
unfoldable pub num_of_lines : Bytes → ℕ
num_of_lines [] = 1
num_of_lines (c ∷ file) =
    let rest = num_of_lines file in if c == newline || c == 255 then suc rest else rest

unfoldable pub code_blocks : ℕ → ℕ
code_blocks lines = lines / (block_size / 2) + 1

-- The calls of FindFreeBlock: the blocks that were found, then -1 where there was none, and whether
-- all were found. `free_block` are the -1 that fill the array up.
unfoldable pub find_blocks : ℕ → Virt → List ℤ × (Bool × Virt)
unfolding find_free_block
find_blocks zero v = ([], (true, v))
find_blocks (suc count) v =
    let (found, v1) = find_free_block v in
    elim found [
      | pos b ↦ let (blocks, r) = find_blocks count v1 in (pos b ∷ blocks, r)
      | negsuc n ↦ (negsuc n ∷ [], (false, v1))
    ]

-- The array of block numbers, which starts with -1 throughout.
abbrev pub free_block_array : List ℤ → List ℤ
free_block_array blocks = blocks ++ replicate (inode_max_block_num - length blocks) (negsuc 0)

-- What a file that is loaded is.
pub record Upload : Type 0 where
  pub file_type : FileType
  pub write_type : WriteType
  pub filename : Bytes
  pub size : ℕ
  pub stream : List Bytes

unfoldable pub write_all : WriteType → List ℤ → List Bytes → M (Unit {0})
unfolding write_file_to_disk
write_all type [] fp = pure tt
write_all type (pos b ∷ blocks) fp =
    write_file_to_disk fp b type >>= λ r. write_all type blocks (r.1)
write_all type (negsuc n ∷ blocks) fp = undefined

-- The last part of both functions: all is found, and the file is written and entered.
unfoldable pub store_file : Upload → List ℤ → ℕ → M ℤ
unfolding write_all commit_mem_copy_to_disk add_entry_to_mem_inode empty_block
store_file up blocks k = do
  commit_mem_copy_to_disk free_list
  edit (empty_block temp_block)
  write_all up.write_type blocks up.stream
  edit (add_entry_to_mem_inode k up.file_type up.filename (pos up.size) (free_block_array blocks))
  commit_mem_copy_to_disk inode_table
  pure xfs_success

-- The blocks that were found are given back.
unfoldable pub give_up : List ℤ → M ℤ
unfolding free_unused_block
give_up blocks = free_unused_block (free_block_array blocks) >> pure xfs_failure

unfoldable pub with_entry : Upload → List ℤ → ℤ → M ℤ
unfolding store_file give_up
with_entry up blocks (pos k) = store_file up blocks k
with_entry up blocks (negsuc n) = give_up blocks

-- The middle part: the name must be new, and there must be an entry for it.
unfoldable pub enter_file : Upload → List ℤ → Bool → M ℤ
unfolding give_up with_entry get_inode_entry find_empty_inode_entry
enter_file up blocks false s = give_up blocks s
enter_file up blocks true s = elim (get_inode_entry up.filename s.virt) [
  | pos i ↦ give_up blocks s
  | negsuc i ↦ with_entry up blocks (find_empty_inode_entry s.virt) s
]

unfoldable pub upload : Upload → ℕ → M ℤ
unfolding enter_file find_blocks
upload up num_of_blocks_reqd s =
    if ltb inode_max_block_num num_of_blocks_reqd
    then pure xfs_failure s
    else (let (blocks, found) = find_blocks num_of_blocks_reqd s.virt in
        (edit (λ v. found.1) >> enter_file up blocks (found.0)) s)

unfoldable pub data_upload : Bytes → Bytes → Upload
unfolding get_data_file_size fgets_all
data_upload filename file = record {
  file_type = data_file;
  write_type = data_words;
  filename = filename;
  size = get_data_file_size (fgets_all 16 file);
  stream = fgets_all 16 file;
}

unfoldable pub code_upload : Bytes → Bytes → Upload
unfolding num_of_lines fgets_all
code_upload filename file = record {
  file_type = executable;
  write_type = assembly_code;
  filename = filename;
  size = num_of_lines file * 2;
  stream = fgets_all 100 file;
}

unfoldable pub load_data_file : Bytes → Bytes → M ℤ
unfolding data_upload upload data_blocks
load_data_file filename file = let up = data_upload filename file in upload up (data_blocks up.size)

unfoldable pub load_code_file : Bytes → Bytes → M ℤ
unfolding code_upload upload code_blocks
load_code_file filename file = upload (code_upload filename file) (code_blocks (num_of_lines file))

unfoldable pub named : Option Bytes → Bytes → (Bytes → Bytes → M ℤ) → M ℤ
named none name k s = undefined s
named (some filename) name k s = with_file (expanded name s) (pure xfs_failure) (k filename) s

unfoldable pub load_data_to_disk : Bytes → M ℤ
unfolding load_data_file named xfs_name
load_data_to_disk name = named (xfs_name name (codes ".dat")) name load_data_file

unfoldable pub load_executable_to_disk : Bytes → M ℤ
unfolding load_code_file named xfs_name
load_executable_to_disk name = named (xfs_name name (codes ".xsm")) name load_code_file

unfoldable pub delete_at : ℤ → M ℤ
unfolding get_data_blocks free_unused_block remove_inode_entry commit_mem_copy_to_disk
delete_at (negsuc n) = pure xfs_failure
delete_at (pos location) = do
  blocks ← gets (λ s. get_data_blocks location s.virt)
  free_unused_block blocks
  edit (remove_inode_entry location)
  commit_mem_copy_to_disk inode_table
  commit_mem_copy_to_disk free_list
  pure xfs_success

unfoldable pub delete_file_from_disk : Bytes → M ℤ
unfolding delete_at get_inode_entry strcmp disk_check_file_exists
delete_file_from_disk name =
    if eq_ℤ (strcmp name (codes "root")) (pos 0) then pure xfs_failure else do
      disk_check_file_exists
      location ← gets (λ s. get_inode_entry name s.virt)
      delete_at location
