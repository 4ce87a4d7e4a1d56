-- ===== src/Xfs/Files/Commit.antt =====
-- The tables of the memory copy written to the disk file: commitMemCopyToDisk of
-- xfs-interface/virtualDisk.c for both tables, as deleteFileFromDisk calls it.
use myexpos.Prelude.{
  ◌≡◌, ◌⊎◌, refl, ◌∙◌, inl, inr, ℕ, suc, ◌+◌, ◌-◌, ◌*◌, true, ◌&&◌, arith, leb, ltb, Bool-cases,
  if◌then◌else◌,
}
use myexpos.Prelude.Int.{ℤ}
use myexpos.Xfs.Layout.{xfs_success}
use myexpos.Xfs.State.{
  Disk, M, ◌>>◌, ok, ◌>>=◌, pure, flushed, padded, in_block, copy_block, write_to_disk,
}
use myexpos.Xfs.State.Transfer.{write_to_disk-present}
use myexpos.Xfs.VirtualDisk.{commit_mem_copy_to_disk, inode_table, free_list}
use myexpos.Xfs.Safety.{padded-flushed}

-- A block of the memory copy that was written to its own place is what the file holds there.
padded-flushed_same :
    (s : Disk) (b a : ℕ) → in_block b a ≡ true → padded (flushed b b s) a ≡ s.virt a
unfolding flushed copy_block padded
padded-flushed_same s b a h =
    let long : ltb a ((if ltb b s.blocks then s.blocks else suc b) * 512) ≡ true = ground arith in
    let back : b * 512 + (a - b * 512) ≡ a = ground arith in rw (long, h, back) refl

-- The disk with the tables of its memory copy written to the file.
abbrev pub committed : Disk → Disk
committed s = flushed 2 2 (flushed 5 5 (flushed 4 4 (flushed 3 3 s)))

pub kept_present : (b : ℕ) (s : Disk) → s.present ≡ true → (flushed b b s).present ≡ true
unfolding flushed
kept_present b s h = h

-- A function that returns is followed by the next one.
pub bind-ok :
    {A B : Type 0} (m : M A) (k : A → M B) (s t : Disk) (a : A) → m s ≡ ok a t → (m >>= k) s ≡ k a t
unfolding ◌>>=◌
bind-ok m k s t a e = rw (◌>>=◌, e) refl

commit-inode_table :
    (s : Disk)
    → s.present ≡ true
    → commit_mem_copy_to_disk inode_table s ≡ ok tt (flushed 5 5 (flushed 4 4 (flushed 3 3 s)))
unfolding commit_mem_copy_to_disk
commit-inode_table s h =
    let h3 = kept_present 3 s h in
    let h4 = kept_present 4 (flushed 3 3 s) h3 in
    bind-ok (write_to_disk 3 3) (λ _. write_to_disk 4 4 >> write_to_disk 5 5) s (flushed 3 3 s) tt
      (write_to_disk-present 3 3 s h)
    ∙ bind-ok (write_to_disk 4 4) (λ _. write_to_disk 5 5) (flushed 3 3 s)
        (flushed 4 4 (flushed 3 3 s)) tt (write_to_disk-present 4 4 (flushed 3 3 s) h3)
    ∙ write_to_disk-present 5 5 (flushed 4 4 (flushed 3 3 s)) h4

commit-free_list :
    (s : Disk) → s.present ≡ true → commit_mem_copy_to_disk free_list s ≡ ok tt (flushed 2 2 s)
unfolding commit_mem_copy_to_disk
commit-free_list s h = write_to_disk-present 2 2 s h

unfoldable pub commit_tables : M ℤ
commit_tables =
    commit_mem_copy_to_disk inode_table >> (commit_mem_copy_to_disk free_list >> pure xfs_success)

pub commit_tables-runs :
    (s : Disk) → s.present ≡ true → commit_tables s ≡ ok xfs_success (committed s)
unfolding commit_tables pure
commit_tables-runs s h =
    let t = flushed 5 5 (flushed 4 4 (flushed 3 3 s)) in
    let ht =
      kept_present 5 (flushed 4 4 (flushed 3 3 s))
        (kept_present 4 (flushed 3 3 s) (kept_present 3 s h)) in
    bind-ok (commit_mem_copy_to_disk inode_table)
      (λ _. commit_mem_copy_to_disk free_list >> pure xfs_success) s t tt (commit-inode_table s h)
    ∙ bind-ok (commit_mem_copy_to_disk free_list) (λ _. pure xfs_success) t (flushed 2 2 t) tt
        (commit-free_list t ht)

flushed-tables :
    (s : Disk) (b a : ℕ)
    → (in_block b a ≡ true) ⊎ (padded s a ≡ s.virt a)
    → padded (flushed b b s) a ≡ s.virt a
flushed-tables s b a (inl h) = padded-flushed_same s b a h
flushed-tables s b a (inr h) = elim (Bool-cases (in_block b a)) [
  | inl e ↦ padded-flushed_same s b a e
  | inr e ↦ padded-flushed s b b a e ∙ h
]

-- A word that one of several writes covers is written.
written_first :
    (s : Disk) (b c a : ℕ)
    → (in_block b a ≡ true) ⊎ ((in_block c a ≡ true) ⊎ (padded s a ≡ s.virt a))
    → padded (flushed c c (flushed b b s)) a ≡ s.virt a
unfolding flushed
written_first s b c a (inl h) =
    flushed-tables (flushed b b s) c a (inr (flushed-tables s b a (inl h)))
written_first s b c a (inr (inl h)) = flushed-tables (flushed b b s) c a (inl h)
written_first s b c a (inr (inr h)) =
    flushed-tables (flushed b b s) c a (inr (flushed-tables s b a (inr h)))

which_block :
    (a : ℕ)
    → (leb 1024 a && ltb a 3072) ≡ true
    → ((in_block 3 a ≡ true) ⊎ (in_block 4 a ≡ true))
      ⊎ ((in_block 5 a ≡ true) ⊎ (in_block 2 a ≡ true))
which_block a h = ground arith

pub committed-tables :
    (s : Disk) (a : ℕ) → (leb 1024 a && ltb a 3072) ≡ true → padded (committed s) a ≡ s.virt a
unfolding flushed
committed-tables s a h = by_block (which_block a h)
  where
    t : Disk
    t = flushed 4 4 (flushed 3 3 s)

    by_block :
        ((in_block 3 a ≡ true) ⊎ (in_block 4 a ≡ true))
          ⊎ ((in_block 5 a ≡ true) ⊎ (in_block 2 a ≡ true))
        → padded (committed s) a ≡ s.virt a
    by_block (inl (inl e)) = written_first t 5 2 a (inr (inr (written_first s 3 4 a (inl e))))
    by_block (inl (inr e)) = written_first t 5 2 a (inr (inr (written_first s 3 4 a (inr (inl e)))))
    by_block (inr (inl e)) = written_first t 5 2 a (inl e)
    by_block (inr (inr e)) = written_first t 5 2 a (inr (inl e))
