-- ===== src/Xfs/Inode/Frames.antt =====
-- Which words the functions of xfs-interface/inode.c leave as they are.
use myexpos.Prelude.{
  ◌≡◌, refl, ◌∙◌, sym, ap, ℕ, zero, suc, ◌+◌, ◌*◌, ◌/◌, ◌≤◌, ◌<◌, true, ◌||◌, List, [], ◌∷◌, Bytes,
  arith, ltb, leb, length, All,
}
use myexpos.Prelude.Int.{ℤ, pos, negsuc, InInt}
use myexpos.Xfs.Layout.{FileType, file_type_number}
use myexpos.Xfs.State.{Virt}
use myexpos.Xfs.VirtualDisk.{get_value_at, store_value_at, store_string_value_at, store_string}
use myexpos.Xfs.VirtualDisk.Words.{
  store_value_at_other, store_string_value_at_other, get_value_at-word, get_value_at_same,
  store_string_value_at_same,
}
use myexpos.Xfs.Inode.{
  store_values, add_entry_to_mem_root_file, owner_of, add_entry_to_mem_inode,
  remove_root_file_entry, remove_inode_entry, no_blocks, load_values, get_data_blocks,
}

pub store_values_other :
    (values : List ℤ) (a b : ℕ) (v : Virt)
    → (ltb b a || leb (a + length values) b) ≡ true
    → store_values a values v b ≡ v b
unfolding store_values
store_values_other [] a b v h = refl
store_values_other (n ∷ values) a b v h =
    store_values_other values (a + 1) b (store_value_at a n v) (ground arith)
    ∙ store_value_at_other v a b n (ground arith)

-- Values that were stored are loaded.
pub load_values-store_values :
    (values : List ℤ) (a : ℕ) (v : Virt)
    → All InInt values
    → load_values (length values) a (store_values a values v) ≡ values
unfolding load_values store_values
load_values-store_values [] a v h = refl
load_values-store_values (n ∷ values) a v (hn, h) =
    let first : get_value_at (store_values (a + 1) values (store_value_at a n v)) a ≡ n =
      get_value_at-word (store_values (a + 1) values (store_value_at a n v)) (store_value_at a n v)
        a (store_values_other values (a + 1) a (store_value_at a n v) (ground arith))
      ∙ get_value_at_same v a n hn in
    rw (first, load_values-store_values values (a + 1) (store_value_at a n v) h) refl

pub load_values_same :
    (count a : ℕ) (v w : Virt)
    → ((b : ℕ) → a ≤ b → b < a + count → w b ≡ v b)
    → load_values count a w ≡ load_values count a v
unfolding load_values
load_values_same zero a v w h = refl
load_values_same (suc count) a v w h = rw (
  get_value_at-word w v a (h a (omega arith) (omega arith)),
  load_values_same count (a + 1) v w (λ b k l. h b (omega arith) (omega arith)),
)

root_entry_other :
    (a b d i : ℕ) (name : Bytes) (n m : ℤ) (v : Virt)
    → i < 2560
    → 2560 ≤ a
    → 2560 ≤ b
    → 2560 ≤ d
    → store_value_at d m (store_value_at b n (store_string_value_at a name v)) i ≡ v i
root_entry_other a b d i name n m v h ha hb hd =
    store_value_at_other (store_value_at b n (store_string_value_at a name v)) d i m (ground arith)
    ∙ store_value_at_other (store_string_value_at a name v) b i n (ground arith)
    ∙ store_string_value_at_other v a i name (ground arith)

pub add_entry_to_mem_root_file_other :
    (start i : ℕ) (ft : FileType) (name : Bytes) (size : ℤ) (v : Virt)
    → i < 2560
    → add_entry_to_mem_root_file start ft name size v i ≡ v i
unfolding add_entry_to_mem_root_file
add_entry_to_mem_root_file_other start i ft name size v h =
    root_entry_other _ _ _ i name size (file_type_number ft) v h (omega arith) (omega arith)
      (omega arith)

-- The words of an entry that a new file gets: all but its own are as they were.
pub add_entry_other :
    (k i : ℕ) (ft : FileType) (name : Bytes) (size : ℤ) (blocks : List ℤ) (v : Virt)
    → length blocks ≤ 4
    → i < 2560
    → (ltb i (1536 + k) || leb (1536 + k + 12) i) ≡ true
    → add_entry_to_mem_inode k ft name size blocks v i ≡ v i
unfolding add_entry_to_mem_inode
add_entry_other k i ft name size blocks v hl h o =
    add_entry_to_mem_root_file_other (k / 16 * 8) i ft name size _ h
    ∙ store_values_other blocks (1536 + k + 8) i _ (ground arith)
    ∙ store_value_at_other _ (1536 + k + 4) i ((owner_of ft).1) (ground arith)
    ∙ store_value_at_other _ (1536 + k + 3) i ((owner_of ft).0) (ground arith)
    ∙ store_value_at_other _ (1536 + k + 2) i size (ground arith)
    ∙ store_string_value_at_other _ (1536 + k + 1) i name (ground arith)
    ∙ store_value_at_other v (1536 + k + 0) i (file_type_number ft) (ground arith)

-- The name that the entry gets.
pub add_entry_name :
    (k : ℕ) (ft : FileType) (name : Bytes) (size : ℤ) (blocks : List ℤ) (v : Virt)
    → k < 1000
    → add_entry_to_mem_inode k ft name size blocks v (1536 + k + 1)
      ≡ store_string (v (1536 + k + 1)) name
unfolding add_entry_to_mem_inode
add_entry_name k ft name size blocks v h =
    add_entry_to_mem_root_file_other (k / 16 * 8) (1536 + k + 1) ft name size _ (omega arith)
    ∙ store_values_other blocks (1536 + k + 8) (1536 + k + 1) _ (ground arith)
    ∙ store_value_at_other _ (1536 + k + 4) (1536 + k + 1) ((owner_of ft).1) (ground arith)
    ∙ store_value_at_other _ (1536 + k + 3) (1536 + k + 1) ((owner_of ft).0) (ground arith)
    ∙ store_value_at_other _ (1536 + k + 2) (1536 + k + 1) size (ground arith)
    ∙ store_string_value_at_same _ (1536 + k + 1) name
    ∙ ap (λ w. store_string w name)
        (store_value_at_other v (1536 + k + 0) (1536 + k + 1) (file_type_number ft) (ground arith))

pub remove_entry_other :
    (k i : ℕ) (v : Virt)
    → i < 2560
    → (ltb i (1536 + k) || leb (1536 + k + 12) i) ≡ true
    → remove_inode_entry k v i ≡ v i
unfolding remove_inode_entry remove_root_file_entry
remove_entry_other k i v h o =
    store_value_at_other _ (2560 + k / 16 * 8 + 1) i (pos 0) (ground arith)
    ∙ store_value_at_other _ (2560 + k / 16 * 8 + 0) i (negsuc 0) (ground arith)
    ∙ store_value_at_other _ (2560 + k / 16 * 8 + 2) i (negsuc 0) (ground arith)
    ∙ store_values_other no_blocks (1536 + k + 8) i _ (ground arith)
    ∙ store_value_at_other _ (1536 + k + 4) i (negsuc 0) (ground arith)
    ∙ store_value_at_other _ (1536 + k + 3) i (negsuc 0) (ground arith)
    ∙ store_value_at_other _ (1536 + k + 2) i (pos 0) (ground arith)
    ∙ store_value_at_other _ (1536 + k + 1) i (negsuc 0) (ground arith)
    ∙ store_value_at_other v (1536 + k + 0) i (negsuc 0) (ground arith)

-- The name that is left behind reads as -1.
pub remove_entry_name :
    (k : ℕ) (v : Virt) → k < 1000 → get_value_at (remove_inode_entry k v) (1536 + k + 1) ≡ negsuc 0
unfolding remove_inode_entry remove_root_file_entry
remove_entry_name k v h =
    get_value_at-word _ (store_value_at (1536 + k + 1) (negsuc 0) _) (1536 + k + 1) (
      store_value_at_other _ (2560 + k / 16 * 8 + 1) (1536 + k + 1) (pos 0) (ground arith)
      ∙ store_value_at_other _ (2560 + k / 16 * 8 + 0) (1536 + k + 1) (negsuc 0) (ground arith)
      ∙ store_value_at_other _ (2560 + k / 16 * 8 + 2) (1536 + k + 1) (negsuc 0) (ground arith)
      ∙ store_values_other no_blocks (1536 + k + 8) (1536 + k + 1) _ (ground arith)
      ∙ store_value_at_other _ (1536 + k + 4) (1536 + k + 1) (negsuc 0) (ground arith)
      ∙ store_value_at_other _ (1536 + k + 3) (1536 + k + 1) (negsuc 0) (ground arith)
      ∙ store_value_at_other _ (1536 + k + 2) (1536 + k + 1) (pos 0) (ground arith))
    ∙ get_value_at_same (store_value_at (1536 + k + 0) (negsuc 0) v) (1536 + k + 1) (negsuc 0)
        (omega arith)

-- The entry with all but its data blocks.
abbrev fields : ℕ → FileType → Bytes → ℤ → Virt → Virt
fields k ft name size v = store_value_at (1536 + k + 4) ((owner_of ft).1) (
    store_value_at (1536 + k + 3) ((owner_of ft).0) (
      store_value_at (1536 + k + 2) size (
        store_string_value_at (1536 + k + 1) name
          (store_value_at (1536 + k + 0) (file_type_number ft) v))))

-- The data blocks of the entry.
pub add_entry_blocks :
    (k : ℕ) (ft : FileType) (name : Bytes) (size : ℤ) (blocks : List ℤ) (v : Virt)
    → k < 1000
    → length blocks ≡ 4
    → All InInt blocks
    → get_data_blocks k (add_entry_to_mem_inode k ft name size blocks v) ≡ blocks
unfolding get_data_blocks add_entry_to_mem_inode
add_entry_blocks k ft name size blocks v h l hb =
    let w = store_values (1536 + k + 8) blocks (fields k ft name size v) in
    load_values_same 4 (1536 + k + 8) w (add_entry_to_mem_root_file (k / 16 * 8) ft name size w)
      (λ b m n. add_entry_to_mem_root_file_other (k / 16 * 8) b ft name size w (omega arith))
    ∙ ap (λ count. load_values count (1536 + k + 8) w) (sym l)
    ∙ load_values-store_values blocks (1536 + k + 8) (fields k ft name size v) hb
