-- ===== src/Xfs/Safety/Format.antt =====
-- A disk that has been formatted is sound.
use myexpos.Prelude.{
  ◌≡◌, refl, ap, ◌∙◌, inl, inr, ℕ, zero, suc, ◌+◌, ◌-◌, ◌%◌, ◌≤◌, ◌<◌, false, ◌&&◌, codes, arith,
  leb, ltb, ◌==◌, if◌then◌else◌, Bool-cases,
}
use myexpos.Prelude.Int.{ℤ, pos, negsuc, InInt}
use myexpos.Libc.{cstr}
use myexpos.Xsm.Word.{Word}
use myexpos.Xfs.Layout.{block_size, root, data_start_block, no_of_disk_blocks}
use myexpos.Xfs.State.{Virt}
use myexpos.Xfs.VirtualDisk.{
  get_value, get_value_at, store_value_at, store_string, store_range, default_free_list,
  set_default_values, free_list, inode_table, root_file,
}
use myexpos.Xfs.VirtualDisk.Words.{
  get_value_at-word, get_value_at_same, store_value_at_other, store_string_value_at_other,
}
use myexpos.Xfs.Inode.{add_entry_to_mem_inode}
use myexpos.Xfs.Inode.Frames.{add_entry_other, add_entry_name}
use myexpos.Xfs.Files.{root_file_data_blocks, user_table}
use myexpos.Xfs.Safety.{Sound, reserved, owned, root_name, elsewhere, zone}

default_free_list_below :
    (count j i : ℕ) (v : Virt) → i < 1024 + j → default_free_list count j v i ≡ v i
unfolding default_free_list
default_free_list_below zero j i v h = refl
default_free_list_below (suc count) j i v h =
    default_free_list_below count (j + 1) i _ (omega arith)
    ∙ store_value_at_other v (1024 + j) i
        (if leb data_start_block j && ltb j no_of_disk_blocks then pos 0 else pos 1) (ground arith)

-- The word for a block below the first data block says that it is taken.
default_free_list_reserved :
    (count j i : ℕ) (v : Virt)
    → j ≤ i
    → i < j + count
    → i < 69
    → get_value_at (default_free_list count j v) (1024 + i) ≡ pos 1
unfolding default_free_list
default_free_list_reserved zero j i v h k l = absurd (omega arith)
default_free_list_reserved (suc count) j i v h k l = elim (Bool-cases (i == j)) [
  | inl e ↦
      (let same : i ≡ j = ground arith in
        let taken : (leb data_start_block j && ltb j no_of_disk_blocks) ≡ false = ground arith in
        rw (same, taken)
          (get_value_at-word _ (store_value_at (1024 + j) (pos 1) v) (1024 + j) (
              default_free_list_below count (j + 1) (1024 + j) (store_value_at (1024 + j) (pos 1) v)
                (omega arith))
            ∙ get_value_at_same v (1024 + j) (pos 1) (omega arith)))
  | inr e ↦ default_free_list_reserved count (j + 1) i _ (ground arith) (omega arith) l
]

store_range_below :
    (count a step i : ℕ) (n : ℤ) (v : Virt) → i < a → store_range count a step n v i ≡ v i
unfolding store_range
store_range_below zero a step i n v h = refl
store_range_below (suc count) a step i n v h =
    store_range_below count (a + step) step i n _ (omega arith)
    ∙ store_value_at_other v a i n (ground arith)

-- A loop over a field of the entries leaves the other words of the entries.
store_range_field :
    (count a i : ℕ) (n : ℤ) (v : Virt)
    → 8 ≤ i % 16
    → a % 16 < 8
    → store_range count a 16 n v i ≡ v i
unfolding store_range
store_range_field zero a i n v h k = refl
store_range_field (suc count) a i n v h k =
    store_range_field count (a + 16) i n _ h (omega arith)
    ∙ store_value_at_other v a i n (ground arith)

store_range_covers :
    (count a i : ℕ) (n : ℤ) (v : Virt)
    → InInt n
    → a ≤ i
    → i < a + count
    → get_value_at (store_range count a 1 n v) i ≡ n
unfolding store_range
store_range_covers zero a i n v h k l = absurd (omega arith)
store_range_covers (suc count) a i n v h k l = elim (Bool-cases (i == a)) [
  | inl e ↦
      (let same : i ≡ a = ground arith in
        rw same (
          get_value_at-word _ (store_value_at a n v) a
            (store_range_below count (a + 1) 1 a n (store_value_at a n v) (omega arith))
          ∙ get_value_at_same v a n h))
  | inr e ↦ store_range_covers count (a + 1) i n _ h (ground arith) (omega arith)
]

inode_table_below : (v : Virt) (i : ℕ) → i < 1536 → set_default_values inode_table v i ≡ v i
unfolding set_default_values
inode_table_below v i h =
    store_range_below 64 2496 1 i (negsuc 0) _ (omega arith)
    ∙ store_range_below 28 2049 16 i (negsuc 0) _ (omega arith)
    ∙ store_range_below 28 2050 16 i (pos 0) _ (omega arith)
    ∙ store_range_below 448 2048 1 i (negsuc 0) _ (omega arith)
    ∙ store_range_below 32 1537 16 i (negsuc 0) _ (omega arith)
    ∙ store_range_below 32 1538 16 i (pos 0) _ (omega arith)
    ∙ store_range_below 512 1536 1 i (negsuc 0) v (omega arith)

-- Every data block of the table reads as -1.
inode_table_owned :
    (v : Virt) (i : ℕ)
    → 1552 ≤ i
    → i < 2496
    → 8 ≤ i % 16
    → get_value_at (set_default_values inode_table v) i ≡ negsuc 0
unfolding set_default_values
inode_table_owned v i h k l =
    let v1 = store_range 512 1536 1 (negsuc 0) v in
    let v3 = store_range 32 1537 16 (negsuc 0) (store_range 32 1538 16 (pos 0) v1) in
    let v4 = store_range 448 2048 1 (negsuc 0) v3 in
    let v6 = store_range 28 2049 16 (negsuc 0) (store_range 28 2050 16 (pos 0) v4) in
    get_value_at-word (store_range 64 2496 1 (negsuc 0) v6) v4 i (
      store_range_below 64 2496 1 i (negsuc 0) v6 k
      ∙ store_range_field 28 2049 i (negsuc 0) (store_range 28 2050 16 (pos 0) v4) l (omega arith)
      ∙ store_range_field 28 2050 i (pos 0) v4 l (omega arith))
    ∙ elim (Bool-cases (leb 2048 i)) [
      | inl e ↦
          store_range_covers 448 2048 i (negsuc 0) v3 (omega arith) (ground arith) (omega arith)
      | inr e ↦
          get_value_at-word v4 v1 i (
            store_range_below 448 2048 1 i (negsuc 0) v3 (ground arith)
            ∙ store_range_field 32 1537 i (negsuc 0) (store_range 32 1538 16 (pos 0) v1) l
                (omega arith)
            ∙ store_range_field 32 1538 i (pos 0) v1 l (omega arith))
          ∙ store_range_covers 512 1536 i (negsuc 0) v (omega arith) (omega arith) (ground arith)
    ]

root_file_below : (v : Virt) (i : ℕ) → i < 2560 → set_default_values root_file v i ≡ v i
unfolding set_default_values
root_file_below v i h =
    store_range_below 64 2560 8 i (negsuc 0) _ h
    ∙ store_range_below 64 2561 8 i (pos 0) _ (omega arith)
    ∙ store_range_below 512 2560 1 i (negsuc 0) v h

user_table_below : (v : Virt) (i : ℕ) → i < 2496 → user_table v i ≡ v i
unfolding user_table
user_table_below v i h =
    store_string_value_at_other _ 2499 i (codes "452") (ground arith)
    ∙ store_string_value_at_other _ 2498 i (codes "root") (ground arith)
    ∙ store_string_value_at_other _ 2497 i (codes "-1") (ground arith)
    ∙ store_string_value_at_other v 2496 i (codes "kernel") (ground arith)

-- The memory copy as formatDisk leaves it.
abbrev pub formatted : Virt → Virt
formatted v = user_table (
    add_entry_to_mem_inode 0 root (codes "root") (pos block_size) root_file_data_blocks (
      set_default_values root_file
        (set_default_values inode_table (set_default_values free_list v))))

formatted_free_list :
    (v : Virt) (i : ℕ) → i < 1536 → formatted v i ≡ set_default_values free_list v i
formatted_free_list v i h =
    user_table_below _ i (omega arith)
    ∙ add_entry_other 0 i root (codes "root") (pos block_size) root_file_data_blocks _ (omega arith)
        (omega arith) (ground arith)
    ∙ root_file_below _ i (omega arith)
    ∙ inode_table_below (set_default_values free_list v) i h

formatted_owned :
    (v : Virt) (i : ℕ) → 1552 ≤ i → i < 2496 → 8 ≤ i % 16 → get_value_at (formatted v) i ≡ negsuc 0
formatted_owned v i h k l =
    get_value_at-word (formatted v)
      (set_default_values inode_table (set_default_values free_list v)) i
      (user_table_below _ i k
        ∙ add_entry_other 0 i root (codes "root") (pos block_size) root_file_data_blocks _
            (omega arith) (omega arith) (ground arith)
        ∙ root_file_below _ i (omega arith))
    ∙ inode_table_owned (set_default_values free_list v) i h k l

store_root : (w : Word) → cstr (store_string w (codes "root")) ≡ codes "root"
unfolding store_string cstr
store_root w = refl

formatted_root : (v : Virt) → cstr (formatted v 1537) ≡ codes "root"
formatted_root v =
    ap cstr (
      user_table_below _ 1537 (omega arith)
      ∙ add_entry_name 0 root (codes "root") (pos block_size) root_file_data_blocks
          (set_default_values root_file
            (set_default_values inode_table (set_default_values free_list v)))
          (omega arith))
    ∙ store_root _

formatted_reserved : (v : Virt) (i : ℕ) → 1024 ≤ i → i < 1093 → get_value_at (formatted v) i ≡ pos 1
unfolding set_default_values
formatted_reserved v i h k =
    get_value_at-word (formatted v) (set_default_values free_list v) i
      (formatted_free_list v i (omega arith))
    ∙ ap (get_value_at (default_free_list block_size 0 v)) {x = i} {y = 1024 + (i - 1024)}
        (omega arith)
    ∙ default_free_list_reserved block_size 0 (i - 1024) v (omega arith) (omega arith) (omega arith)

pub formatted-Sound : (v : Virt) → Sound (formatted v)
unfolding get_value_at
formatted-Sound v = record {
  good = λ a. elim (Bool-cases (leb 1024 a && ltb a 1093)) [
    | inl e ↦
        (let here : zone a ≡ reserved = ground arith in
          let taken : get_value (formatted v a) ≡ pos 1 =
            formatted_reserved v a (ground arith) (ground arith) in
          rw (here, taken) refl)
    | inr e ↦
        elim (Bool-cases (leb 1552 a && (ltb a 2496 && (leb 8 (a % 16) && ltb (a % 16) 12)))) [
          | inl k ↦
              (let here : zone a ≡ owned = ground arith in
                let none_yet : get_value (formatted v a) ≡ negsuc 0 =
                  formatted_owned v a (ground arith) (ground arith) (ground arith) in
                rw (here, none_yet) refl)
          | inr k ↦ elim (Bool-cases (a == 1537)) [
            | inl l ↦
                (let here : zone a ≡ root_name = ground arith in
                  let same : a ≡ 1537 = ground arith in rw (here, same) (formatted_root v))
            | inr l ↦ (let here : zone a ≡ elsewhere = ground arith in rw here tt)
          ]
        ]
  ];
}
