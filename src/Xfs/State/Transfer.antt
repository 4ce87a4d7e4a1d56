-- ===== src/Xfs/State/Transfer.antt =====
-- Blocks that are written to the disk file and read from it.
use myexpos.Prelude.{
  ◌≡◌, refl, ◌∙◌, ap, ℕ, ◌+◌, ◌*◌, ◌-◌, ◌<◌, Bool, true, false, arith, ltb, if◌then◌else◌,
}
use myexpos.Xfs.Layout.{block_size}
use myexpos.Xfs.State.{
  Virt, Disk, Result, ok, thrown, unspecified, cant_open_disk, ◌>>=◌, ◌>>◌, in_block, copy_block,
  open_disk_file, fetched, flushed, read_from_disk, write_to_disk,
}

pub write_to_disk-present :
    (virt_block file_block : ℕ) (s : Disk)
    → s.present ≡ true
    → write_to_disk virt_block file_block s ≡ ok tt (flushed virt_block file_block s)
unfolding write_to_disk open_disk_file ◌>>=◌
write_to_disk-present virt_block file_block s h = by_presence (s.present) h
  where
    by_presence :
        (b : Bool)
        → b ≡ true
        → (elim (if b then ok tt s else thrown cant_open_disk s) [
          | ok a t ↦ ok tt (flushed virt_block file_block t)
          | thrown e t ↦ thrown e t
          | unspecified ↦ unspecified
        ])
          ≡ ok tt (flushed virt_block file_block s)
    by_presence true e = refl
    by_presence false e = absurd (ground arith)

read_from_disk-present :
    (virt_block file_block : ℕ) (s : Disk)
    → s.present ≡ true
    → read_from_disk virt_block file_block s ≡ ok tt (fetched virt_block file_block s)
unfolding read_from_disk open_disk_file ◌>>=◌
read_from_disk-present virt_block file_block s h = by_presence (s.present) h
  where
    by_presence :
        (b : Bool)
        → b ≡ true
        → (elim (if b then ok tt s else thrown cant_open_disk s) [
          | ok a t ↦ ok tt (fetched virt_block file_block t)
          | thrown e t ↦ thrown e t
          | unspecified ↦ unspecified
        ])
          ≡ ok tt (fetched virt_block file_block s)
    by_presence true e = refl
    by_presence false e = absurd (ground arith)

fetched-inside :
    (y b : ℕ) (s : Disk)
    → ltb b s.blocks ≡ true
    → (fetched y b s).virt ≡ copy_block s.virt y s.content b
unfolding fetched
fetched-inside y b s h = rw (fetched, h) refl

flushed-inside : (x b : ℕ) (s : Disk) → ltb b ((flushed x b s).blocks) ≡ true
unfolding flushed
flushed-inside x b s = ground arith

pub flushed-present : (x b : ℕ) (s : Disk) → s.present ≡ true → (flushed x b s).present ≡ true
unfolding flushed
flushed-present x b s h = h

-- What is read back into block `y` of the memory copy.
copied_twice :
    (x y b i : ℕ) (s : Disk)
    → i < block_size
    → copy_block ((flushed x b s).virt) y ((flushed x b s).content) b (y * block_size + i)
      ≡ s.virt (x * block_size + i)
unfolding flushed copy_block
copied_twice x y b i s h =
    let here : in_block y (y * block_size + i) ≡ true = ground arith in
    let from : in_block b (b * block_size + (y * block_size + i - y * block_size)) ≡ true =
      ground arith in
    rw (here, from)
      (ap s.virt
        {x = x * block_size
          + (b * block_size + (y * block_size + i - y * block_size) - b * block_size)}
        {y = x * block_size + i} (omega arith))

copied_elsewhere :
    (x y b a : ℕ) (s : Disk)
    → in_block y a ≡ false
    → copy_block ((flushed x b s).virt) y ((flushed x b s).content) b a ≡ s.virt a
unfolding flushed copy_block
copied_elsewhere x y b a s h = rw h refl

-- A block of the memory copy that is written to a block of the disk file, also behind its end, and read
-- from there into any block of the memory copy: that block is then the first one's copy, and the rest of
-- the memory copy is as it was. (The disk file is there.)
pub read_from_disk-write_to_disk :
    (x y b : ℕ) (s : Disk)
    → s.present ≡ true
    → (t : Disk) × ((write_to_disk x b >> read_from_disk y b) s ≡ ok tt t)
      × ((i : ℕ) → i < block_size → t.virt (y * block_size + i) ≡ s.virt (x * block_size + i))
      × ((a : ℕ) → in_block y a ≡ false → t.virt a ≡ s.virt a)
unfolding ◌>>=◌
read_from_disk-write_to_disk x y b s h = (
  fetched y b (flushed x b s),
  ap
        (λ (r : Result (Unit {0})). elim r [
          | ok a t ↦ read_from_disk y b t
          | thrown e t ↦ thrown e t
          | unspecified ↦ unspecified
        ])
        (write_to_disk-present x b s h)
      ∙ read_from_disk-present y b (flushed x b s) (flushed-present x b s h),
  λ i k.
      ap (λ (v : Virt). v (y * block_size + i))
        (fetched-inside y b (flushed x b s) (flushed-inside x b s))
      ∙ copied_twice x y b i s k,
  λ a k.
      ap (λ (v : Virt). v a) (fetched-inside y b (flushed x b s) (flushed-inside x b s))
      ∙ copied_elsewhere x y b a s k,
)
