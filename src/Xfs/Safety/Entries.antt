-- ===== src/Xfs/Safety/Entries.antt =====
-- The entries that are found, filled and emptied, of a sound memory copy.
use myexpos.Prelude.{
  ◌≡◌, refl, ap, ◌∙◌, inl, inr, ℕ, zero, suc, ◌+◌, ◌*◌, ◌/◌, ◌%◌, ◌≤◌, ◌<◌, ◌&&◌, List, [], ◌∷◌,
  Bytes, arith, leb, ltb, All, Bool-cases,
}
use myexpos.Prelude.Int.{ℤ, pos, negsuc, InInt}
use myexpos.Xfs.Layout.{
  block_size, inode, rootfile, inode_entry_datablock, inode_entry_size, FileType, file_type_number,
}
use myexpos.Xfs.State.{Virt}
use myexpos.Xfs.VirtualDisk.{get_value_at, store_value_at, store_string_value_at}
use myexpos.Xfs.VirtualDisk.Words.{get_value-store_value}
use myexpos.Xfs.Inode.{
  store_values, add_entry_to_mem_root_file, owner_of, add_entry_to_mem_inode,
  remove_root_file_entry, no_blocks, remove_inode_entry, load_values, get_data_blocks,
}
use myexpos.Xfs.Safety.{
  Sound, Sound-at, zone, owned, elsewhere, Sound-store, Sound-store_elsewhere,
  Sound-string_elsewhere,
}
use myexpos.Xfs.Safety.Alloc.{IsBlock}

-- A block number in any word behind the first entry.
Sound-store_number :
    (v : Virt) (a : ℕ) (n : ℤ) → 1552 ≤ a → IsBlock n → Sound v → Sound (store_value_at a n v)
Sound-store_number v a n h hn s =
    Sound-store v a n
      (elim (Bool-cases (ltb a 2496 && (leb 8 (a % 16) && ltb (a % 16) 12))) [
        | inl e ↦
            let here : zone a ≡ owned = ground arith in
            rw (here, get_value-store_value (v a) n (number-InInt n hn)) hn
        | inr e ↦ let nowhere : zone a ≡ elsewhere = ground arith in rw nowhere tt
      ])
      s
  where
    number-InInt : (n : ℤ) → IsBlock n → InInt n
    number-InInt (pos b) k = ground arith
    number-InInt (negsuc b) k = ground arith

store_values-Sound :
    (values : List ℤ) (a : ℕ) (v : Virt)
    → 1552 ≤ a
    → All IsBlock values
    → Sound v
    → Sound (store_values a values v)
unfolding store_values
store_values-Sound [] a v h hn s = s
store_values-Sound (n ∷ values) a v h (hn, hs) s =
    store_values-Sound values (a + 1) (store_value_at a n v) (omega arith) hs
      (Sound-store_number v a n h hn s)

root_entry-Sound :
    (a b d : ℕ) (name : Bytes) (n m : ℤ) (v : Virt)
    → 2560 ≤ a
    → 2560 ≤ b
    → 2560 ≤ d
    → Sound v
    → Sound (store_value_at d m (store_value_at b n (store_string_value_at a name v)))
root_entry-Sound a b d name n m v ha hb hd s =
    Sound-store_elsewhere (store_value_at b n (store_string_value_at a name v)) d m (ground arith) (
      Sound-store_elsewhere (store_string_value_at a name v) b n (ground arith)
        (Sound-string_elsewhere v a name (ground arith) s))

-- The words of an entry that are no data blocks.
abbrev entry_word : ℕ → ℕ → ℕ
entry_word e i = inode * block_size + e * inode_entry_size + i

entry_word-elsewhere : (e i : ℕ) → 1 ≤ e → i < 8 → zone (entry_word e i) ≡ elsewhere
entry_word-elsewhere e i h k = ground arith

pub add_entry-Sound :
    (e : ℕ) (file_type : FileType) (name : Bytes) (size : ℤ) (blocks : List ℤ) (v : Virt)
    → 1 ≤ e
    → All IsBlock blocks
    → Sound v
    → Sound (add_entry_to_mem_inode (e * inode_entry_size) file_type name size blocks v)
unfolding add_entry_to_mem_inode add_entry_to_mem_root_file
add_entry-Sound e file_type name size blocks v h hb s0 =
    let s1 =
      Sound-store_elsewhere v (entry_word e 0) (file_type_number file_type)
        (entry_word-elsewhere e 0 h (omega arith)) s0 in
    let s2 =
      Sound-string_elsewhere _ (entry_word e 1) name (entry_word-elsewhere e 1 h (omega arith))
        s1 in
    let s3 =
      Sound-store_elsewhere _ (entry_word e 2) size (entry_word-elsewhere e 2 h (omega arith)) s2 in
    let s4 =
      Sound-store_elsewhere _ (entry_word e 3) ((owner_of file_type).0)
        (entry_word-elsewhere e 3 h (omega arith)) s3 in
    let s5 =
      Sound-store_elsewhere _ (entry_word e 4) ((owner_of file_type).1)
        (entry_word-elsewhere e 4 h (omega arith)) s4 in
    let s6 = store_values-Sound blocks (entry_word e 8) _ (omega arith) hb s5 in
    root_entry-Sound _ _ _ name size (file_type_number file_type) _ (omega arith) (omega arith)
      (omega arith) s6

pub remove_entry-Sound :
    (e : ℕ) (v : Virt) → 1 ≤ e → Sound v → Sound (remove_inode_entry (e * inode_entry_size) v)
unfolding remove_inode_entry remove_root_file_entry
remove_entry-Sound e v h s0 =
    let s1 =
      Sound-store_elsewhere v (entry_word e 0) (negsuc 0) (entry_word-elsewhere e 0 h (omega arith))
        s0 in
    let s2 =
      Sound-store_elsewhere _ (entry_word e 1) (negsuc 0) (entry_word-elsewhere e 1 h (omega arith))
        s1 in
    let s3 =
      Sound-store_elsewhere _ (entry_word e 2) (pos 0) (entry_word-elsewhere e 2 h (omega arith))
        s2 in
    let s4 =
      Sound-store_elsewhere _ (entry_word e 3) (negsuc 0) (entry_word-elsewhere e 3 h (omega arith))
        s3 in
    let s5 =
      Sound-store_elsewhere _ (entry_word e 4) (negsuc 0) (entry_word-elsewhere e 4 h (omega arith))
        s4 in
    let s6 =
      store_values-Sound no_blocks (entry_word e 8) _ (omega arith)
        (refl, (refl, (refl, (refl, tt)))) s5 in
    let s7 =
      Sound-store_elsewhere _ (rootfile * block_size + e * 16 / 16 * 8 + 2) (negsuc 0)
        (ground arith) s6 in
    let s8 =
      Sound-store_elsewhere _ (rootfile * block_size + e * 16 / 16 * 8 + 0) (negsuc 0)
        (ground arith) s7 in
    Sound-store_elsewhere _ (rootfile * block_size + e * 16 / 16 * 8 + 1) (pos 0) (ground arith) s8

load_values-IsBlock :
    (count a : ℕ) (v : Virt)
    → Sound v
    → ((i : ℕ) → i < count → zone (a + i) ≡ owned)
    → All IsBlock (load_values count a v)
unfolding load_values get_value_at
load_values-IsBlock zero a v s h = tt
load_values-IsBlock (suc count) a v s h = (
  Sound-at a s (ap zone {x = a} {y = a + 0} (omega arith) ∙ h 0 (omega arith)),
  load_values-IsBlock count (a + 1) v s
      (λ i k. ap zone {x = a + 1 + i} {y = a + suc i} (omega arith) ∙ h (suc i) (omega arith)),
)

-- The data blocks that an entry other than the first names.
pub get_data_blocks-IsBlock :
    (e : ℕ) (v : Virt)
    → 1 ≤ e
    → e < 60
    → Sound v
    → All IsBlock (get_data_blocks (e * inode_entry_size) v)
unfolding get_data_blocks
get_data_blocks-IsBlock e v h k s =
    load_values-IsBlock 4 (inode * block_size + e * inode_entry_size + inode_entry_datablock) v s
      (λ i l. ground arith)
