-- ===== src/Xfs/Safety/Commands.antt =====
-- Loading and deleting files keeps the operating system's blocks as they are.
use myexpos.Prelude.{
  ◌≡◌, refl, sym, ap, ◌∙◌, inl, inr, ℕ, zero, suc, ◌+◌, ◌*◌, ◌≤◌, ◌<◌, Bool, true, false, Option,
  none, some, List, Bytes, codes, arith, ltb, if◌then◌else◌, All, Bool-cases,
}
use myexpos.Prelude.Int.{ℤ, pos, negsuc, eq_ℤ}
use myexpos.Libc.{cstr, strcmp}
use myexpos.Libc.Strings.{strcmp_refl}
use myexpos.Xfs.Layout.{
  inode, rootfile, disk_free_list, temp_block, xfs_success, xfs_failure, inode_max_block_num,
}
use myexpos.Xfs.State.{Virt, Disk, M, ◌>>◌, pure, edit, write_to_disk, disk_check_file_exists}
use myexpos.Xfs.VirtualDisk.{
  DataStructure, free_list, inode_table, root_file, commit_mem_copy_to_disk, empty_block,
  free_unused_block,
}
use myexpos.Xfs.Inode.{
  find_empty_inode_entry, get_inode_entry, add_entry_to_mem_inode, remove_inode_entry,
  get_data_blocks,
}
use myexpos.Xfs.Programs.{expanded}
use myexpos.Xfs.Files.{
  Upload, find_blocks, free_block_array, write_all, store_file, give_up, with_entry, enter_file,
  upload, xfs_name, named, data_blocks, code_blocks, load_data_file, load_code_file,
  load_data_to_disk, load_executable_to_disk, delete_at, delete_file_from_disk, num_of_lines,
  data_upload, code_upload,
}
use myexpos.Xfs.Programs.Opening.{Keeps-with_file}
use myexpos.Xfs.Keeps.{Ends, Keeps, Keeps-pure, Keeps-bind, Keeps-undefined, Keeps-gets}
use myexpos.Xfs.Safety.{
  Sound-at, Safe, Sound-empty_block, Safe-edit, Safe-write_to_disk, Safe-open_disk_file,
}
use myexpos.Xfs.Safety.Alloc.{
  IsBlock, Blocks, find_blocks-Blocks, free_unused_block-Safe, free_block_array-IsBlock,
}
use myexpos.Xfs.Safety.Found.{
  Place, no_place, place, find_empty_inode_entry-Place, Named, unknown, entry,
  get_inode_entry-Named,
}
use myexpos.Xfs.Safety.Entries.{add_entry-Sound, remove_entry-Sound, get_data_blocks-IsBlock}
use myexpos.Xfs.Safety.Writes.{write_all-Safe}

module _ {c : Virt} {partial : Bool} where
  commit-Safe : (d : DataStructure) → Keeps partial (Safe c) (commit_mem_copy_to_disk d)
  unfolding commit_mem_copy_to_disk
  commit-Safe free_list = Safe-write_to_disk disk_free_list disk_free_list refl
  commit-Safe inode_table =
      Keeps-bind {P = Safe c} (write_to_disk inode inode) _ (Safe-write_to_disk inode inode refl)
        (λ _.
          Keeps-bind {P = Safe c} (write_to_disk (inode + 1) (inode + 1)) _
            (Safe-write_to_disk (inode + 1) (inode + 1) refl)
            (λ _. Safe-write_to_disk rootfile rootfile refl))
  commit-Safe root_file = Safe-write_to_disk rootfile rootfile refl

  give_up-Safe : (blocks : List ℤ) → All IsBlock blocks → Keeps partial (Safe c) (give_up blocks)
  unfolding give_up
  give_up-Safe blocks h =
      Keeps-bind {P = Safe c} (free_unused_block (free_block_array blocks)) _
        (free_unused_block-Safe (free_block_array blocks) (free_block_array-IsBlock blocks h))
        (λ _. Keeps-pure {P = Safe c} xfs_failure)

  delete_entry-Safe : (e : ℕ) → 1 ≤ e → e < 60 → Keeps partial (Safe c) (delete_at (pos (e * 16)))
  unfolding delete_at
  delete_entry-Safe e h k =
      Keeps-gets {P = Safe c} (λ s. get_data_blocks (e * 16) s.virt) _
        (λ s p.
          (Keeps-bind {P = Safe c} (free_unused_block (get_data_blocks (e * 16) s.virt)) _
              (free_unused_block-Safe (get_data_blocks (e * 16) s.virt)
                (get_data_blocks-IsBlock e s.virt h k p.sound))
              (λ _.
                Keeps-bind {P = Safe c} (edit (remove_inode_entry (e * 16))) _
                  (Safe-edit (remove_inode_entry (e * 16)) (λ v q. remove_entry-Sound e v h q))
                  (λ _.
                    Keeps-bind {P = Safe c} (commit_mem_copy_to_disk inode_table) _
                      (commit-Safe inode_table)
                      (λ _.
                        Keeps-bind {P = Safe c} (commit_mem_copy_to_disk free_list) _
                          (commit-Safe free_list) (λ _. Keeps-pure {P = Safe c} xfs_success))))).at
            s p)

  delete_at-Named :
      (name : Bytes) (s : Disk) (n : ℤ)
      → eq_ℤ (strcmp name (codes "root")) (pos 0) ≡ false
      → Safe c s
      → Named (s.virt) name n
      → Ends partial (Safe c) (delete_at n s)
  unfolding delete_at
  delete_at-Named name s (negsuc _) h p unknown = (Keeps-pure {P = Safe c} xfs_failure).at s p
  delete_at-Named name s (pos _) h p (entry zero l m) =
      (let first : cstr (s.virt 1537) ≡ codes "root" = Sound-at 1537 p.sound refl in
        let same : name ≡ codes "root" = sym m ∙ first in absurd (not_root same))
    where
      not_root : name ≡ codes "root" → ⊥
      not_root same = absurd (
          let e = ap (λ t. strcmp t (codes "root")) same ∙ strcmp_refl (codes "root") in
          ground arith)
  delete_at-Named name s (pos _) h p (entry (suc e) l m) =
      (delete_entry-Safe (suc e) (omega arith) l).at s p

  -- A deletion from a safe disk does nothing that C gives no meaning to.
  pub delete_file-Safe : (name : Bytes) → Keeps partial (Safe c) (delete_file_from_disk name)
  unfolding delete_file_from_disk disk_check_file_exists
  delete_file-Safe name = elim (Bool-cases (eq_ℤ (strcmp name (codes "root")) (pos 0))) [
    | inl e ↦ rw e (Keeps-pure {P = Safe c} xfs_failure)
    | inr e ↦ rw e (
        Keeps-bind {P = Safe c} disk_check_file_exists _ Safe-open_disk_file (λ _.
          Keeps-gets {P = Safe c} (λ s. get_inode_entry name s.virt) delete_at
            (λ s p.
              delete_at-Named name s (get_inode_entry name s.virt) e p
                (get_inode_entry-Named name s.virt))))
  ]

module _ {c : Virt} where
  store_file-Safe :
      (up : Upload) (blocks : List ℤ) (e : ℕ)
      → All IsBlock blocks
      → 1 ≤ e
      → Keeps true (Safe c) (store_file up blocks (e * 16))
  unfolding store_file
  store_file-Safe up blocks e h k =
      Keeps-bind {P = Safe c} (commit_mem_copy_to_disk free_list) _ (commit-Safe free_list) (λ _.
        Keeps-bind {P = Safe c} (edit (empty_block temp_block)) _
          (Safe-edit (empty_block temp_block) Sound-empty_block)
          (λ _.
            Keeps-bind {P = Safe c} (write_all up.write_type blocks up.stream) _
              (write_all-Safe up.write_type blocks up.stream h)
              (λ _.
                Keeps-bind {P = Safe c}
                  (edit (
                    add_entry_to_mem_inode (e * 16) up.file_type up.filename (pos up.size)
                      (free_block_array blocks)))
                  _
                  (Safe-edit _ (λ v s.
                    add_entry-Sound e up.file_type up.filename (pos up.size)
                      (free_block_array blocks) v k (free_block_array-IsBlock blocks h) s))
                  (λ _.
                    Keeps-bind {P = Safe c} (commit_mem_copy_to_disk inode_table) _
                      (commit-Safe inode_table) (λ _. Keeps-pure {P = Safe c} xfs_success)))))

  with_entry-Safe :
      (up : Upload) (blocks : List ℤ) (n : ℤ)
      → All IsBlock blocks
      → Place n
      → Keeps true (Safe c) (with_entry up blocks n)
  unfolding with_entry
  with_entry-Safe up blocks (negsuc _) h no_place = give_up-Safe blocks h
  with_entry-Safe up blocks (pos _) h (place e k l) = store_file-Safe up blocks e h k

  enter_file-Safe :
      (up : Upload) (blocks : List ℤ) (all_found : Bool)
      → All IsBlock blocks
      → Keeps true (Safe c) (enter_file up blocks all_found)
  unfolding enter_file
  enter_file-Safe up blocks false h = record { at = λ s p. (give_up-Safe blocks h).at s p }
  enter_file-Safe up blocks true h = record {
    at = λ s p.
        known s p (get_inode_entry up.filename s.virt)
          (find_empty_inode_entry-Place s.virt p.sound);
  }
    where
      known :
          (s : Disk)
          → Safe c s
          → (n : ℤ) → Place (find_empty_inode_entry s.virt)
          → Ends true (Safe c) (elim n [
            | pos i ↦ give_up blocks s
            | negsuc i ↦ with_entry up blocks (find_empty_inode_entry s.virt) s
          ])
      known s p (pos i) q = (give_up-Safe blocks h).at s p
      known s p (negsuc i) q =
          (with_entry-Safe up blocks (find_empty_inode_entry s.virt) h q).at s p

  upload-Safe : (up : Upload) (count : ℕ) → Keeps true (Safe c) (upload up count)
  unfolding upload
  upload-Safe up count = record { at = λ s p. by_size s p (ltb inode_max_block_num count) }
    where
      all_blocks : (s : Disk) → Safe c s → Blocks count (find_blocks count s.virt)
      all_blocks s p = find_blocks-Blocks count s.virt p.sound

      by_size :
          (s : Disk)
          → Safe c s
          → (b : Bool)
          → Ends true (Safe c) (
              if b
              then pure xfs_failure s
              else (let (blocks, r) = find_blocks count s.virt in
                  (edit (λ v. r.1) >> enter_file up blocks (r.0)) s))
      by_size s p true = (Keeps-pure {P = Safe c} xfs_failure).at s p
      by_size s p false =
          (Keeps-bind {P = Safe c} (edit (λ v. (find_blocks count s.virt).1.1)) _
              (Safe-edit (λ v. (find_blocks count s.virt).1.1) (λ v _. (all_blocks s p).sound))
              (λ _.
                enter_file-Safe up ((find_blocks count s.virt).0) ((find_blocks count s.virt).1.0)
                  ((all_blocks s p).data_blocks))).at
            s p

  named-Safe :
      (o : Option Bytes) (name : Bytes) (k : Bytes → Bytes → M ℤ)
      → ((filename file : Bytes) → Keeps true (Safe c) (k filename file))
      → Keeps true (Safe c) (named o name k)
  unfolding named
  named-Safe none name k h = record { at = λ s p. (Keeps-undefined {P = Safe c} refl).at s p }
  named-Safe (some filename) name k h = record {
    at = λ s p.
        (Keeps-with_file {P = Safe c} (expanded name s) (pure xfs_failure) (k filename)
            (Keeps-pure {P = Safe c} xfs_failure) (h filename)).at
          s p;
  }

  pub load_data-Safe : (name : Bytes) → Keeps true (Safe c) (load_data_to_disk name)
  unfolding load_data_to_disk load_data_file
  load_data-Safe name =
      named-Safe (xfs_name name (codes ".dat")) name load_data_file (λ filename file.
        upload-Safe (data_upload filename file) (data_blocks (data_upload filename file).size))

  pub load_executable-Safe : (name : Bytes) → Keeps true (Safe c) (load_executable_to_disk name)
  unfolding load_executable_to_disk load_code_file
  load_executable-Safe name =
      named-Safe (xfs_name name (codes ".xsm")) name load_code_file
        (λ filename file. upload-Safe (code_upload filename file) (code_blocks (num_of_lines file)))
