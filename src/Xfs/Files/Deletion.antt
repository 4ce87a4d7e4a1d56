-- ===== src/Xfs/Files/Deletion.antt =====
-- deleteFileFromDisk of xfs-interface/diskUtility.c on a file that is there.
use myexpos.Prelude.{
  ◌≡◌, ◌≢◌, refl, ap, ◌∙◌, inl, inr, ℕ, zero, suc, ◌+◌, ◌*◌, ◌≤◌, ◌<◌, true, ◌&&◌, ◌||◌, List, [],
  ◌∷◌, Bytes, codes, arith, leb, ltb, All, Bool-cases,
}
use myexpos.Prelude.Int.{ℤ, pos, negsuc, eq_ℤ}
use myexpos.Libc.{strcmp}
use myexpos.Xfs.Layout.{xfs_success}
use myexpos.Xfs.State.{
  Virt, Disk, M, ◌>>◌, ok, ◌>>=◌, gets, edit, flushed, padded, disk_check_file_exists,
  open_disk_file,
}
use myexpos.Xfs.VirtualDisk.{get_value_at, free_unused_block}
use myexpos.Xfs.VirtualDisk.Words.{get_value_at-word}
use myexpos.Xfs.VirtualDisk.FreeList.{free_word, is_free}
use myexpos.Xfs.Inode.{get_inode_entry, get_data_blocks, remove_inode_entry}
use myexpos.Xfs.Inode.Frames.{remove_entry_other, remove_entry_name}
use myexpos.Xfs.Files.{delete_at, delete_file_from_disk}
use myexpos.Xfs.Files.Commit.{
  bind-ok, commit_tables, commit_tables-runs, committed, committed-tables,
}
use myexpos.Xfs.Files.Allocation.{has_block}
use myexpos.Xfs.Files.GiveUp.{Usable, free_unused_block-Freed}
use myexpos.Xfs.Safety.{Safe}
use myexpos.Xfs.Safety.Alloc.{IsBlock, free_unused_block-Safe}
use myexpos.Xfs.Keeps.{Ends-ok}
use myexpos.Libc.Strings.{same_strcmp}
use myexpos.Xfs.Safety.Entries.{get_data_blocks-IsBlock}

-- The blocks of a file: the numbers of its entry before the first -1.
abbrev pub used : List ℤ → List ℤ
used [] = []
used (pos b ∷ blocks) = pos b ∷ used blocks
used (negsuc n ∷ blocks) = []

used-Usable : (blocks : List ℤ) → All IsBlock blocks → Usable (used blocks)
used-Usable [] h = tt
used-Usable (pos zero ∷ blocks) (hb, h) = absurd (ground arith)
used-Usable (pos (suc b) ∷ blocks) (hb, h) = (ground arith, used-Usable blocks h)
used-Usable (negsuc n ∷ blocks) h = tt

-- freeUnusedBlock stops at the first -1.
free_unused_block-used :
    (blocks : List ℤ)
    → All IsBlock blocks
    → free_unused_block blocks ≡ free_unused_block (used blocks)
unfolding free_unused_block
free_unused_block-used [] h = refl
free_unused_block-used (pos zero ∷ blocks) (hb, h) = absurd (ground arith)
free_unused_block-used (pos (suc b) ∷ blocks) (hb, h) = rw (free_unused_block-used blocks h) refl
free_unused_block-used (negsuc zero ∷ blocks) h = refl
free_unused_block-used (negsuc (suc n) ∷ blocks) (hb, h) = absurd (ground arith)

-- The disk behind a deletion: the blocks freed, the entry emptied, the tables written.
abbrev emptied : ℕ → Disk → Disk
emptied location t = record t { virt = remove_inode_entry location t.virt }

delete_at-runs :
    (location : ℕ) (s t : Disk)
    → free_unused_block (get_data_blocks location s.virt) s ≡ ok tt t
    → t.present ≡ true
    → delete_at (pos location) s ≡ ok xfs_success (committed (emptied location t))
unfolding delete_at gets edit commit_tables
delete_at-runs location s t e h =
    bind-ok (gets (λ s. get_data_blocks location s.virt))
      (λ blocks. free_unused_block blocks >> (edit (remove_inode_entry location) >> commit_tables))
      s s (get_data_blocks location s.virt) refl
    ∙ bind-ok (free_unused_block (get_data_blocks location s.virt))
        (λ _. edit (remove_inode_entry location) >> commit_tables) s t tt e
    ∙ bind-ok (edit (remove_inode_entry location)) (λ _. commit_tables) t (emptied location t) tt
        refl
    ∙ commit_tables-runs (emptied location t) h

emptied-is_free :
    (e i : ℕ) (v : Virt) → i < 512 → is_free (remove_inode_entry (e * 16) v) i ≡ is_free v i
emptied-is_free e i v h =
    ap (λ n. eq_ℤ n (pos 0))
      (get_value_at-word (remove_inode_entry (e * 16) v) v (free_word i)
        (remove_entry_other (e * 16) (free_word i) v (omega arith) (ground arith)))

-- What a deletion leaves of the disk `s`, when the file was the one of entry `e`.
pub record Deleted (e : ℕ) (s t : Disk) : Type 0 where
  pub free :
      (i : ℕ)
      → i < 512
      → is_free t.virt i
        ≡ (is_free s.virt i || has_block (used (get_data_blocks (e * 16) s.virt)) i)
  pub no_name : get_value_at t.virt (1536 + e * 16 + 1) ≡ negsuc 0
  pub other_entries :
      (a : ℕ)
      → 1536 ≤ a
      → a < 2560
      → (ltb a (1536 + e * 16) || leb (1536 + e * 16 + 12) a) ≡ true
      → t.virt a ≡ s.virt a
  pub file : (a : ℕ) → (leb 1024 a && ltb a 3072) ≡ true → padded t a ≡ t.virt a

delete_at-Deleted :
    {c : Virt} (e : ℕ) (s : Disk)
    → Safe c s
    → 1 ≤ e
    → e < 60
    → (t : Disk) × (delete_at (pos (e * 16)) s ≡ ok xfs_success t) × Deleted e s t
unfolding flushed
delete_at-Deleted {c = c} e s p h k =
    let blocks = get_data_blocks (e * 16) s.virt in
    let good = get_data_blocks-IsBlock e s.virt h k p.sound in
    let freed = free_unused_block-Freed (used blocks) s p.present (used-Usable blocks good) in
    let u = freed.disk in
    let all_freed =
      ap (λ (m : M (Unit {0})). m s) (free_unused_block-used blocks good) ∙ freed.returned in
    let safe =
      Ends-ok {P = Safe c} ((free_unused_block-Safe {partial = true} blocks good).at s p)
        all_freed in
    (
      committed (emptied (e * 16) u),
      delete_at-runs (e * 16) s u all_freed safe.present,
      record {
        free = λ i l. emptied-is_free e i u.virt l ∙ freed.offers.free i l;
        no_name = remove_entry_name (e * 16) u.virt (omega arith);
        other_entries = λ a l m o.
            remove_entry_other (e * 16) a u.virt m o ∙ freed.offers.tables a (ground arith);
        file = λ a l. committed-tables (emptied (e * 16) u) a l;
      },
    )

is_there : (s : Disk) → s.present ≡ true → disk_check_file_exists s ≡ ok tt s
unfolding disk_check_file_exists open_disk_file
is_there s h = rw h refl

found_and_deleted :
    (name : Bytes) (location : ℤ) (s : Disk)
    → s.present ≡ true
    → name ≢ codes "root"
    → get_inode_entry name s.virt ≡ location
    → delete_file_from_disk name s ≡ delete_at location s
unfolding delete_file_from_disk gets
found_and_deleted name location s h d f =
    elim (Bool-cases (eq_ℤ (strcmp name (codes "root")) (pos 0))) [
      | inl e ↦ absurd (d (same_strcmp name (codes "root") (ground arith)))
      | inr e ↦
          rw (delete_file_from_disk, e)
            (bind-ok disk_check_file_exists
                (λ _. gets (λ s. get_inode_entry name s.virt) >>= delete_at) s s tt (is_there s h)
              ∙ bind-ok (gets (λ s. get_inode_entry name s.virt)) delete_at s s location
                  (ap (λ l. ok l s) f))
    ]

-- On a safe disk, the deletion of a file whose name leads to one of the entries 1 to 59, and is not that of
-- the root file, succeeds.
-- Then those blocks are free that were free or that the entry named before its first -1; the entry has no
-- name; the other entries of the inode table are as they were; and the disk file has the memory copy's
-- free list, inode table and root file.
pub delete_file_from_disk-Deleted :
    {c : Virt} (name : Bytes) (e : ℕ) (s : Disk)
    → Safe c s
    → name ≢ codes "root"
    → get_inode_entry name s.virt ≡ pos (e * 16)
    → 1 ≤ e
    → e < 60
    → (t : Disk) × (delete_file_from_disk name s ≡ ok xfs_success t) × Deleted e s t
delete_file_from_disk-Deleted name e s p d f h k =
    let (t, runs, deleted) = delete_at-Deleted e s p h k in
    (t, found_and_deleted name (pos (e * 16)) s p.present d f ∙ runs, deleted)
