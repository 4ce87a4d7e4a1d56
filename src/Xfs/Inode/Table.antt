-- ===== src/Xfs/Inode/Table.antt =====
-- The inode table as a map from names to entries.
use myexpos.Prelude.{
  ◌≡◌, ◌≢◌, refl, sym, ap, ◌∙◌, inl, inr, ℕ, ◌+◌, ◌*◌, ◌<◌, true, false, List, Bytes, arith, ◌==◌,
  All, Bool-cases, length,
}
use myexpos.Prelude.Int.{ℤ, pos, negsuc, eq_ℤ, InInt}
use myexpos.Libc.{strcmp}
use myexpos.Libc.Decimal.{IsText, cstr-IsText}
use myexpos.Libc.Strings.{same_strcmp, strcmp_refl}
use myexpos.Xsm.Word.{Word}
use myexpos.Xfs.Layout.{inode_entry_size, FileType}
use myexpos.Xfs.State.{Virt}
use myexpos.Xfs.VirtualDisk.{get_value, get_value_at, store_string}
use myexpos.Xfs.VirtualDisk.Words.{cstr-store_string}
use myexpos.Xfs.Inode.{
  or_failure, get_inode_entry, add_entry_to_mem_inode, remove_inode_entry, get_data_blocks,
}
use myexpos.Xfs.Inode.Frames.{
  add_entry_other, add_entry_name, add_entry_blocks, remove_entry_other, remove_entry_name,
}
use myexpos.Xfs.Inode.Scan.{
  is_named, name_at, is_findable, scan_name_same, scan_name_hit, unknown_name, get_value-cstr,
}

stored_name-named :
    (w : Word) (name : Bytes)
    → IsText name
    → is_findable name ≡ true
    → is_named name (store_string w name) ≡ true
stored_name-named w name h k =
    let text = cstr-store_string w name h in
    rw
      (
        text,
        strcmp_refl name,
        get_value-cstr (store_string w name) name (text ∙ sym (cstr-IsText name h)),
      )
      k

stored_name-other :
    (w : Word) (name other : Bytes)
    → IsText name
    → other ≢ name
    → is_named other (store_string w name) ≡ false
stored_name-other w name other h d = elim (Bool-cases (eq_ℤ (strcmp name other) (pos 0))) [
  | inl e ↦ absurd (d (sym (same_strcmp name other (ground arith))))
  | inr e ↦ rw (cstr-store_string w name h, e) refl
]

module _ (e : ℕ) (ft : FileType) (name : Bytes) (size : ℤ) (blocks : List ℤ) (v : Virt)
    (inside : e < 60) (four : length blocks ≡ 4) where
  abbrev entered : Virt
  entered = add_entry_to_mem_inode (e * inode_entry_size) ft name size blocks v

  entered_elsewhere : (i : ℕ) → i < 60 → (i == e) ≡ false → name_at entered i ≡ name_at v i
  entered_elsewhere i h k =
      add_entry_other (e * 16) (1536 + i * 16 + 1) ft name size blocks v (omega (arith, four))
        (omega arith) (ground arith)

  entered_found :
      get_inode_entry name v ≡ negsuc 0
      → IsText name
      → is_findable name ≡ true
      → get_inode_entry name entered ≡ pos (e * inode_entry_size)
  unfolding get_inode_entry
  entered_found h t k = ap or_failure (
      scan_name_hit 64 0 e name entered (omega arith) (omega arith) inside
        (ap (is_named name) (add_entry_name (e * 16) ft name size blocks v (omega arith))
          ∙ stored_name-named (v (1536 + e * 16 + 1)) name t k)
        (λ i l.
          ap (is_named name) (entered_elsewhere i (omega arith) (ground arith))
          ∙ unknown_name name v i h (omega arith)))

  empty_entry :
      (other : Bytes)
      → eq_ℤ (get_value (name_at v e)) (negsuc 0) ≡ true
      → is_named other (name_at v e) ≡ false
  empty_entry other h = rw h (ground arith)

  entered_others :
      (other : Bytes)
      → IsText name
      → eq_ℤ (get_value (name_at v e)) (negsuc 0) ≡ true
      → other ≢ name
      → (i : ℕ) → i < 60
      → is_named other (name_at entered i) ≡ is_named other (name_at v i)
  entered_others other t empty d i h = elim (Bool-cases (i == e)) [
    | inl same ↦
        (let here : i ≡ e = ground arith in
          ap (λ j. is_named other (name_at entered j)) here
          ∙ ap (is_named other) (add_entry_name (e * 16) ft name size blocks v (omega arith))
          ∙ stored_name-other (v (1536 + e * 16 + 1)) name other t d
          ∙ sym (empty_entry other empty)
          ∙ sym (ap (λ j. is_named other (name_at v j)) here))
    | inr apart ↦ ap (is_named other) (entered_elsewhere i h apart)
  ]

  -- A file that is entered in an empty one of the 60 entries, under a name that the table did not have,
  -- is found under it, and with its data blocks. What any other name leads to is unchanged. (The name has no NUL,
  -- and does not read as the number -1; there are four block numbers of type `int`.)
  pub get_inode_entry-add_entry_to_mem_inode :
      (other : Bytes)
      → other ≢ name
      → get_inode_entry name v ≡ negsuc 0
      → IsText name
      → is_findable name ≡ true
      → eq_ℤ (get_value (name_at v e)) (negsuc 0) ≡ true
      → All InInt blocks
      → (get_inode_entry name entered ≡ pos (e * inode_entry_size))
        × (get_data_blocks (e * inode_entry_size) entered ≡ blocks)
        × (get_inode_entry other entered ≡ get_inode_entry other v)
  unfolding get_inode_entry
  get_inode_entry-add_entry_to_mem_inode other d h t k empty ints = (
    entered_found h t k,
    add_entry_blocks (e * 16) ft name size blocks v (omega arith) four ints,
    ap or_failure (scan_name_same 64 0 other v entered (entered_others other t empty d)),
  )

  -- When a file, with a name that has no NUL and with four block numbers, is entered in an empty one of
  -- the 60 entries, and the entry is then emptied, every name leads to what it led to before.
  pub get_inode_entry-remove_inode_entry :
      IsText name
      → eq_ℤ (get_value (name_at v e)) (negsuc 0) ≡ true
      → (any : Bytes)
      → get_inode_entry any (remove_inode_entry (e * inode_entry_size) entered)
        ≡ get_inode_entry any v
  unfolding get_inode_entry get_value_at
  get_inode_entry-remove_inode_entry t empty any = ap or_failure (
      scan_name_same 64 0 any v (remove_inode_entry (e * 16) entered) (λ i h.
        elim (Bool-cases (i == e)) [
          | inl same ↦
              (let here : i ≡ e = ground arith in
                let gone = remove_entry_name (e * 16) entered (omega arith) in
                ap (λ j. is_named any (name_at (remove_inode_entry (e * 16) entered) j)) here
                ∙ rw gone (ground arith)
                ∙ sym (empty_entry any empty)
                ∙ sym (ap (λ j. is_named any (name_at v j)) here))
          | inr apart ↦ ap (is_named any) (
              remove_entry_other (e * 16) (1536 + i * 16 + 1) entered (omega arith) (ground arith)
              ∙ entered_elsewhere i h apart)
        ]))
