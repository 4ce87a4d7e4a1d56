-- ===== src/Xfs/VirtualDisk.antt =====
-- xfs-interface/virtualDisk.c: the memory copy of the disk, the free list, and the formatting values.
pub mod Words
pub mod FreeList
use myexpos.Prelude.{
  ℕ, zero, suc, ◌+◌, ◌-◌, ◌*◌, ◌/◌, ◌%◌, Bool, true, false, ◌&&◌, ◌||◌, Option, none, some, List,
  [], ◌∷◌, ◌++◌, Bytes, ltb, leb, ◌==◌, if◌then◌else◌, drop, length, replicate,
}
use myexpos.Prelude.Int.{ℤ, pos, negsuc, eq_ℤ}
use myexpos.Libc.{cstr, atoi, format_int}
use myexpos.Xsm.Word.{Word, word_size}
use myexpos.Xsm.State.{update}
use myexpos.Xfs.Layout.{
  block_size, disk_free_list, inode, rootfile, data_start_block, no_of_disk_blocks, temp_block,
  inode_entry_filename, inode_entry_filesize, inode_entry_size, rootfile_entry_filename,
  rootfile_entry_filesize, rootfile_entry_size,
}
use myexpos.Xfs.State.{
  Virt, Disk, M, ok, pure, edit, undefined, ◌>>=◌, ◌>>◌, in_block, write_to_disk, read_from_disk,
  disk_check_file_exists, gets,
}

-- getValue and storeValue on the characters of a word.
unfoldable pub get_value : Word → ℤ
unfolding atoi
get_value str = atoi str

unfoldable pub store_value : Word → ℤ → Word
unfolding format_int
store_value str num = let out = format_int num ++ 0 ∷ [] in out ++ drop (length out) str

-- strcpy into a word. A string of 16 or more characters would run into the next word; the callers'
-- strings are shorter.
unfoldable pub store_string : Word → Bytes → Word
unfolding cstr
store_string str value = let out = cstr value ++ 0 ∷ [] in out ++ drop (length out) str

unfoldable pub get_value_at : Virt → ℕ → ℤ
get_value_at v address = get_value (v address)

unfoldable pub store_value_at : ℕ → ℤ → Virt → Virt
unfolding update
store_value_at address num v = update v address (store_value (v address) num)

unfoldable pub store_string_value_at : ℕ → Bytes → Virt → Virt
unfolding update
store_string_value_at address value v = update v address (store_string (v address) value)

-- emptyBlock: an empty string in every word of a block.
unfoldable pub empty_block : ℕ → Virt → Virt
empty_block block_no v a = if in_block block_no a then 0 ∷ drop 1 (v a) else v a

-- The loop of FindFreeBlock over the last `count` words of the free list, from `j` on.
unfoldable pub scan_free : ℕ → ℕ → Virt → Option ℕ
unfolding get_value_at
scan_free zero j v = none
scan_free (suc count) j v =
    let rest = scan_free count (j + 1) v in
    if eq_ℤ (get_value_at v (disk_free_list * block_size + j)) (pos 0) then some j else rest

abbrev pub take_block : Option ℕ → Virt → ℤ × Virt
unfolding store_value_at
take_block none v = (negsuc 0, v)
take_block (some j) v = (pos j, store_value_at (disk_free_list * block_size + j) (pos 1) v)

unfoldable pub find_free_block : Virt → ℤ × Virt
unfolding scan_free
find_free_block v = take_block (scan_free block_size 0 v) v

-- The loop of freeUnusedBlock: it ends at the first -1 or 0. Below -1 a number leads before the free
-- list, which is left open. From 512 on it leads to the words behind the free list, and behind the
-- end of the disk file; that so large a number may lead out of the memory copy is not modelled.
unfoldable pub free_unused_block : List ℤ → M (Unit {0})
unfolding empty_block write_to_disk
free_unused_block [] = pure tt
free_unused_block (pos zero ∷ free_block) = pure tt
free_unused_block (pos (suc b) ∷ free_block) = do
  edit (store_value_at (disk_free_list * block_size + suc b) (pos 0))
  edit (empty_block temp_block)
  write_to_disk temp_block (suc b)
  free_unused_block free_block
free_unused_block (negsuc zero ∷ free_block) = pure tt
free_unused_block (negsuc (suc b) ∷ free_block) = undefined

-- A loop that stores `num` in `count` words, `step` apart.
unfoldable pub store_range : ℕ → ℕ → ℕ → ℤ → Virt → Virt
store_range zero address step num v = v
store_range (suc count) address step num v =
    store_range count (address + step) step num (store_value_at address num v)

-- DISK_FREE_LIST, INODE and ROOTFILE as arguments.
pub data DataStructure : Type 0 where
  free_list inode_table root_file : DataStructure

-- The words of the free list from `j` on: 0 for the blocks from the first data block on.
unfoldable pub default_free_list : ℕ → ℕ → Virt → Virt
default_free_list zero j v = v
default_free_list (suc count) j v = default_free_list count (j + 1) (
    store_value_at (disk_free_list * block_size + j)
      (if leb data_start_block j && ltb j no_of_disk_blocks then pos 0 else pos 1) v)

unfoldable pub set_default_values : DataStructure → Virt → Virt
unfolding default_free_list store_range
set_default_values free_list v = default_free_list block_size 0 v
set_default_values inode_table v =
    let first = inode * block_size in
    let second = (inode + 1) * block_size in
    let v1 = store_range 512 first 1 (negsuc 0) v in
    let v2 = store_range 32 (first + inode_entry_filesize) inode_entry_size (pos 0) v1 in
    let v3 = store_range 32 (first + inode_entry_filename) inode_entry_size (negsuc 0) v2 in
    let v4 = store_range 448 second 1 (negsuc 0) v3 in
    let v5 = store_range 28 (second + inode_entry_filesize) inode_entry_size (pos 0) v4 in
    let v6 = store_range 28 (second + inode_entry_filename) inode_entry_size (negsuc 0) v5 in
    store_range 64 (second + 448) 1 (negsuc 0) v6
set_default_values root_file v =
    let base = rootfile * block_size in
    let v1 = store_range 512 base 1 (negsuc 0) v in
    let v2 = store_range 64 (base + rootfile_entry_filesize) rootfile_entry_size (pos 0) v1 in
    store_range 64 (base + rootfile_entry_filename) rootfile_entry_size (negsuc 0) v2

-- The case INODE runs on into the case ROOTFILE.
unfoldable pub commit_mem_copy_to_disk : DataStructure → M (Unit {0})
unfolding write_to_disk
commit_mem_copy_to_disk free_list = write_to_disk disk_free_list disk_free_list
commit_mem_copy_to_disk inode_table = do
  write_to_disk inode inode
  write_to_disk (inode + 1) (inode + 1)
  write_to_disk rootfile rootfile
commit_mem_copy_to_disk root_file = write_to_disk rootfile rootfile

pub record XosFile : Type 0 where
  pub name : Bytes
  pub size : ℤ

-- The entries of the inode table that have a name, `count` of them from entry `e` on. The part of the
-- second block from word 448 on is the user table.
unfoldable pub files_from : ℕ → ℕ → Virt → List XosFile
unfolding get_value_at
files_from zero e v = []
files_from (suc count) e v =
    let base = inode * block_size + e * inode_entry_size in
    let rest = files_from count (e + 1) v in
    if eq_ℤ (get_value_at v (base + inode_entry_filename)) (negsuc 0) || leb 60 e
    then rest
    else record {
      name = cstr (v (base + inode_entry_filename));
      size = get_value_at v (base + inode_entry_filesize);
    }
      ∷ rest

unfoldable pub get_all_files : M (List XosFile)
unfolding disk_check_file_exists files_from
get_all_files = do disk_check_file_exists; gets (λ s. files_from 64 0 s.virt)

unfoldable pub load_file_to_virtual_disk : M (Unit {0})
unfolding read_from_disk
load_file_to_virtual_disk = do
  read_from_disk disk_free_list disk_free_list
  read_from_disk inode inode
  read_from_disk (inode + 1) (inode + 1)
  read_from_disk rootfile rootfile

-- `bzero(disk, sizeof(BLOCK))` clears one block, the first.
unfoldable pub clear_virt_disk : Virt → Virt
clear_virt_disk v a = if in_block 0 a then replicate word_size 0 else v a
