-- ===== src/Xfs/Inode.antt =====
-- xfs-interface/inode.c: the entries of the inode table and of the root file. The loops over the two
-- blocks and the entries in each are one loop here over the 64 places for entries.
pub mod Frames
pub mod Scan
pub mod Table
use myexpos.Prelude.{
  ℕ, zero, suc, ◌+◌, ◌-◌, ◌*◌, ◌/◌, ◌%◌, Bool, true, false, ◌&&◌, ◌||◌, not, Option, none, some,
  List, [], ◌∷◌, Bytes, ltb, leb, ◌==◌, if◌then◌else◌,
}
use myexpos.Prelude.Int.{ℤ, pos, negsuc, eq_ℤ}
use myexpos.Libc.{cstr, strcmp}
use myexpos.Xfs.Layout.{
  block_size, inode, rootfile, inode_size, inode_num_data_blocks, inode_entry_filetype,
  inode_entry_filename, inode_entry_filesize, inode_entry_userid, inode_entry_permission,
  inode_entry_datablock, inode_entry_size, rootfile_entry_filename, rootfile_entry_filesize,
  rootfile_entry_filetype, rootfile_entry_size, FileType, root, data_file, executable,
  file_type_number,
}
use myexpos.Xfs.State.{Virt}
use myexpos.Xfs.VirtualDisk.{get_value, get_value_at, store_value_at, store_string_value_at}

-- The loop of FindEmptyInodeEntry over `count` places from place `e` on: the word of the name, counted
-- from the start of the table.
unfoldable pub scan_empty : ℕ → ℕ → Virt → Option ℕ
unfolding get_value_at
scan_empty zero e v = none
scan_empty (suc count) e v =
    let rest = scan_empty count (e + 1) v in
    if eq_ℤ (get_value_at v (inode * block_size + e * inode_entry_size + inode_entry_filename))
      (negsuc 0)
    then some (e * inode_entry_size + inode_entry_filename)
    else rest

-- Where nothing is found `entryNumber` is still 0, and the result is -1.
abbrev pub entry_found : Option ℕ → ℤ
entry_found none = negsuc 0
entry_found (some entry_number) =
    if ltb inode_size entry_number then negsuc 0 else pos (entry_number - inode_entry_filename)

unfoldable pub find_empty_inode_entry : Virt → ℤ
unfolding scan_empty
find_empty_inode_entry v = entry_found (scan_empty 64 0 v)

-- The loop of getInodeEntry. The places from 60 on are the user table.
unfoldable pub scan_name : ℕ → ℕ → Bytes → Virt → Option ℕ
unfolding get_value
scan_name zero e name v = none
scan_name (suc count) e name v =
    let rest = scan_name count (e + 1) name v in
    let word = v (inode * block_size + e * inode_entry_size + inode_entry_filename) in
    if leb 60 e
    then rest
    else if eq_ℤ (strcmp (cstr word) name) (pos 0) && not (eq_ℤ (get_value word) (negsuc 0))
    then some (e * inode_entry_size)
    else rest

abbrev pub or_failure : Option ℕ → ℤ
or_failure none = negsuc 0
or_failure (some n) = pos n

unfoldable pub get_inode_entry : Bytes → Virt → ℤ
unfolding scan_name
get_inode_entry name v = or_failure (scan_name 64 0 name v)

-- The data blocks of an entry: `values` from `address` on.
unfoldable pub store_values : ℕ → List ℤ → Virt → Virt
store_values address [] v = v
store_values address (n ∷ values) v = store_values (address + 1) values (store_value_at address n v)

unfoldable pub add_entry_to_mem_root_file : ℕ → FileType → Bytes → ℤ → Virt → Virt
add_entry_to_mem_root_file start_index file_type name size v =
    let base = rootfile * block_size + start_index in
    let v1 = store_string_value_at (base + rootfile_entry_filename) name v in
    let v2 = store_value_at (base + rootfile_entry_filesize) size v1 in
    store_value_at (base + rootfile_entry_filetype) (file_type_number file_type) v2

-- The user and the permission that a type of file gets.
abbrev pub owner_of : FileType → ℤ × ℤ
owner_of root = (pos 0, pos 0)
owner_of data_file = (pos 1, pos 1)
owner_of executable = (pos 0, negsuc 0)

unfoldable pub add_entry_to_mem_inode : ℕ → FileType → Bytes → ℤ → List ℤ → Virt → Virt
unfolding store_values add_entry_to_mem_root_file
add_entry_to_mem_inode start_index file_type name size blocks v =
    let base = inode * block_size + start_index in
    let v1 = store_value_at (base + inode_entry_filetype) (file_type_number file_type) v in
    let v2 = store_string_value_at (base + inode_entry_filename) name v1 in
    let v3 = store_value_at (base + inode_entry_filesize) size v2 in
    let v4 = store_value_at (base + inode_entry_userid) (owner_of file_type).0 v3 in
    let v5 = store_value_at (base + inode_entry_permission) (owner_of file_type).1 v4 in
    let v6 = store_values (base + inode_entry_datablock) blocks v5 in
    add_entry_to_mem_root_file (start_index / inode_entry_size * rootfile_entry_size) file_type name
      size v6

unfoldable pub remove_root_file_entry : ℕ → Virt → Virt
remove_root_file_entry location v =
    let base = rootfile * block_size + location in
    let v1 = store_value_at (base + rootfile_entry_filetype) (negsuc 0) v in
    let v2 = store_value_at (base + rootfile_entry_filename) (negsuc 0) v1 in
    store_value_at (base + rootfile_entry_filesize) (pos 0) v2

abbrev pub no_blocks : List ℤ
no_blocks = negsuc 0 ∷ negsuc 0 ∷ negsuc 0 ∷ negsuc 0 ∷ []

unfoldable pub remove_inode_entry : ℕ → Virt → Virt
unfolding store_values remove_root_file_entry
remove_inode_entry location v =
    let base = inode * block_size + location in
    let v1 = store_value_at (base + inode_entry_filetype) (negsuc 0) v in
    let v2 = store_value_at (base + inode_entry_filename) (negsuc 0) v1 in
    let v3 = store_value_at (base + inode_entry_filesize) (pos 0) v2 in
    let v4 = store_value_at (base + inode_entry_userid) (negsuc 0) v3 in
    let v5 = store_value_at (base + inode_entry_permission) (negsuc 0) v4 in
    let v6 = store_values (base + inode_entry_datablock) no_blocks v5 in
    remove_root_file_entry (location / inode_entry_size * rootfile_entry_size) v6

-- `count` values from `address` on.
unfoldable pub load_values : ℕ → ℕ → Virt → List ℤ
unfolding get_value_at
load_values zero address v = []
load_values (suc count) address v = get_value_at v address ∷ load_values count (address + 1) v

unfoldable pub get_data_blocks : ℕ → Virt → List ℤ
unfolding load_values
get_data_blocks location v =
    load_values inode_num_data_blocks (inode * block_size + location + inode_entry_datablock) v
