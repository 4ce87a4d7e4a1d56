-- ===== src/Xfs/Files/GiveUp.antt =====
-- Loading a file is given up: freeUnusedBlock puts back what FindFreeBlock took.
use myexpos.Prelude.{
  ◌≡◌, refl, sym, ap, ◌∙◌, inl, inr, ℕ, zero, suc, ◌+◌, ◌-◌, ◌<◌, Bool, true, false, ◌&&◌, ◌||◌,
  List, [], ◌∷◌, ◌++◌, arith, leb, ltb, ◌==◌, Bool-cases, length, replicate,
}
use myexpos.Prelude.Int.{ℤ, pos, negsuc}
use myexpos.Xfs.Layout.{temp_block, xfs_failure, inode_max_block_num}
use myexpos.Xfs.State.{Virt, Disk, Result, ok, thrown, unspecified, ◌>>=◌, pure, edit, flushed}
use myexpos.Xfs.VirtualDisk.{get_value_at, store_value_at, empty_block, free_unused_block}
use myexpos.Xfs.VirtualDisk.Words.{get_value_at_same, get_value_at_other, store_value_at_other}
use myexpos.Xfs.VirtualDisk.FreeList.{free_word, is_free}
use myexpos.Xfs.Files.{find_blocks, give_up, free_block_array}
use myexpos.Xfs.State.Transfer.{write_to_disk-present}
use myexpos.Xfs.Files.Allocation.{
  Taken, enough, one_more, no_more, find_blocks-Taken, Taken-free, has_block,
}

-- The words of the inode table and the root file.
abbrev pub is_table_word : ℕ → Bool
is_table_word a = leb 1536 a && ltb a 3072

-- The memory copy `t` offers the blocks of a list besides those that `v` offers.
pub record Offers (blocks : List ℤ) (v t : Virt) : Type 0 where
  pub free : (i : ℕ) → i < 512 → is_free t i ≡ (is_free v i || has_block blocks i)
  pub tables : (a : ℕ) → is_table_word a ≡ true → t a ≡ v a

empty_block-is_free :
    (v : Virt) (i : ℕ) → i < 512 → is_free (empty_block temp_block v) i ≡ is_free v i
unfolding empty_block get_value_at
empty_block-is_free v i h =
    let out : (leb 35328 (1024 + i) && ltb (1024 + i) 35840) ≡ false = ground arith in rw out refl

empty_block-table : (v : Virt) (a : ℕ) → is_table_word a ≡ true → empty_block temp_block v a ≡ v a
unfolding empty_block
empty_block-table v a h = ground arith

-- One block is offered again.
offered : ℕ → Virt → Virt
offered b v = empty_block temp_block (store_value_at (free_word b) (pos 0) v)

offered-is_free :
    (v : Virt) (b i : ℕ) → b < 512 → i < 512 → is_free (offered b v) i ≡ (is_free v i || (i == b))
unfolding offered
offered-is_free v b i h k =
    empty_block-is_free (store_value_at (free_word b) (pos 0) v) i k ∙ elim (Bool-cases (i == b)) [
      | inl e ↦
          (let same : i ≡ b = ground arith in
            rw (same, get_value_at_same v (free_word b) (pos 0) (omega arith)) (ground arith))
      | inr e ↦
          rw (get_value_at_other v (free_word b) (free_word i) (pos 0) (ground arith), e)
            (ground arith)
    ]

offered-table : (v : Virt) (b a : ℕ) → b < 512 → is_table_word a ≡ true → offered b v a ≡ v a
unfolding offered
offered-table v b a h k =
    empty_block-table (store_value_at (free_word b) (pos 0) v) a k
    ∙ store_value_at_other v (free_word b) a (pos 0) (ground arith)

-- The lists that freeUnusedBlock goes through to their -1, with no block 0.
abbrev pub Usable : List ℤ → Type 0
Usable [] = Unit
Usable (pos zero ∷ blocks) = ⊥
Usable (pos (suc b) ∷ blocks) = (suc b < 512) × Usable blocks
Usable (negsuc zero ∷ blocks) = (i : ℕ) → has_block blocks i ≡ false
Usable (negsuc (suc n) ∷ blocks) = ⊥

pub record Freed (blocks : List ℤ) (s : Disk) : Type 0 where
  pub disk : Disk
  pub returned : free_unused_block blocks s ≡ ok tt disk
  pub offers : Offers blocks s.virt disk.virt

Offers-none :
    (blocks : List ℤ) (v : Virt) → ((i : ℕ) → has_block blocks i ≡ false) → Offers blocks v v
Offers-none blocks v h = record {
  free = λ i k. (let out = h i in rw out (ground arith));
  tables = λ a k. refl;
}

Offers-more :
    (b : ℕ) (blocks : List ℤ) (v t : Virt)
    → b < 512
    → Offers blocks (offered b v) t
    → Offers (pos b ∷ blocks) v t
Offers-more b blocks v t h k = record {
  free = λ i l. k.free i l ∙ rw (offered-is_free v b i h l) (ground arith);
  tables = λ a l. k.tables a l ∙ offered-table v b a h l;
}

flushed-present : (b : ℕ) (t : Disk) → t.present ≡ true → (flushed temp_block b t).present ≡ true
unfolding flushed
flushed-present b t e = e

flushed-Offers :
    (b : ℕ) (blocks : List ℤ) (u : Virt) (t : Disk)
    → Offers blocks ((flushed temp_block b t).virt) u
    → Offers blocks t.virt u
unfolding flushed
flushed-Offers b blocks u t e = e

free_unused_block-first :
    (b : ℕ) (blocks : List ℤ) (s : Disk)
    → s.present ≡ true
    → free_unused_block (pos (suc b) ∷ blocks) s
      ≡ free_unused_block blocks
          (flushed temp_block (suc b) (record s { virt = offered (suc b) s.virt }))
unfolding free_unused_block edit ◌>>=◌ offered
free_unused_block-first b blocks s h =
    ap
      (λ (r : Result (Unit {0})). elim r [
        | ok a t ↦ free_unused_block blocks t
        | thrown e t ↦ thrown e t
        | unspecified ↦ unspecified
      ])
      (write_to_disk-present temp_block (suc b) (record s { virt = offered (suc b) s.virt }) h)

pub free_unused_block-Freed :
    (blocks : List ℤ) (s : Disk) → s.present ≡ true → Usable blocks → Freed blocks s
unfolding free_unused_block pure
free_unused_block-Freed [] s h k = record {
  disk = s;
  returned = refl;
  offers = Offers-none [] s.virt (λ i. refl);
}
free_unused_block-Freed (pos zero ∷ blocks) s h k = elim k [ ]
free_unused_block-Freed (pos (suc b) ∷ blocks) s h (hb, hs) =
    let s1 : Disk = record s { virt = offered (suc b) s.virt } in
    let rest =
      free_unused_block-Freed blocks (flushed temp_block (suc b) s1) (flushed-present (suc b) s1 h)
        hs in
    record {
      disk = rest.disk;
      returned = free_unused_block-first b blocks s h ∙ rest.returned;
      offers =
          Offers-more (suc b) blocks s.virt rest.disk.virt hb
            (flushed-Offers (suc b) blocks rest.disk.virt s1 rest.offers);
    }
free_unused_block-Freed (negsuc zero ∷ blocks) s h k = record {
  disk = s;
  returned = refl;
  offers = Offers-none (negsuc 0 ∷ blocks) s.virt k;
}
free_unused_block-Freed (negsuc (suc n) ∷ blocks) s h k = elim k [ ]

has_block_filled :
    (blocks : List ℤ) (m i : ℕ)
    → has_block (blocks ++ replicate m (negsuc 0)) i ≡ has_block blocks i
has_block_filled [] zero i = refl
has_block_filled [] (suc m) i = has_block_filled [] m i
has_block_filled (pos b ∷ blocks) m i = ap (λ r. (i == b) || r) (has_block_filled blocks m i)
has_block_filled (negsuc n ∷ blocks) m i = has_block_filled blocks m i

Taken-Usable :
    {v u : Virt} {blocks : List ℤ} {all_found : Bool} (m : ℕ)
    → Taken v (blocks, (all_found, u))
    → is_free v 0 ≡ false
    → Usable (blocks ++ replicate m (negsuc 0))
Taken-Usable zero enough h = tt
Taken-Usable (suc m) enough h = has_block_filled [] m
Taken-Usable {v} m (one_more {w = w} {b = zero} t rest) h =
    absurd (let k = t.free_before.member in ground arith)
Taken-Usable {v} m (one_more {w = w} {b = suc b} t rest) h =
    (t.inside, Taken-Usable m rest (t.free_after 0 ∙ rw h refl))
Taken-Usable m no_more h = has_block_filled [] m

Taken-tables :
    {v u : Virt} {blocks : List ℤ} {all_found : Bool} (a : ℕ)
    → Taken v (blocks, (all_found, u))
    → is_table_word a ≡ true
    → u a ≡ v a
Taken-tables a enough h = refl
Taken-tables a (one_more {b = b} t rest) h =
    Taken-tables a rest h ∙ t.elsewhere a (let small = t.inside in ground arith)
Taken-tables a no_more h = refl

-- The disk with what find_blocks left of the memory copy.
abbrev pub after_find_blocks : ℕ → Disk → Disk
after_find_blocks count s = record s { virt = (find_blocks count s.virt).1.1 }

-- When loading a file is given up, after its blocks were looked for, and whether or not they were all
-- found: giving them back returns, with the result XFS_FAILURE; every block is free that was free before
-- the load, and no other; and the inode table and the root file are as they were. (The disk file is
-- there, and block 0 is not free.)
pub give_up-find_blocks :
    (count : ℕ) (s : Disk)
    → s.present ≡ true
    → is_free s.virt 0 ≡ false
    → (t : Disk) × (give_up ((find_blocks count s.virt).0) (after_find_blocks count s)
        ≡ ok xfs_failure t)
      × ((i : ℕ) → i < 512 → is_free t.virt i ≡ is_free s.virt i)
      × ((a : ℕ) → is_table_word a ≡ true → t.virt a ≡ s.virt a)
unfolding give_up ◌>>=◌ pure
give_up-find_blocks count s h k =
    let blocks = (find_blocks count s.virt).0 in
    let m = inode_max_block_num - length blocks in
    let taken = find_blocks-Taken count s.virt in
    let freed =
      free_unused_block-Freed (free_block_array blocks) (after_find_blocks count s) h
        (Taken-Usable m taken k) in
    (
      freed.disk,
      ap
          (λ (r : Result (Unit {0})). elim r [
            | ok a t ↦ ok xfs_failure t
            | thrown e t ↦ thrown e t
            | unspecified ↦ unspecified
          ])
          freed.returned,
      λ i l.
          freed.offers.free i l
          ∙ ap (λ r. is_free ((find_blocks count s.virt).1.1) i || r) (has_block_filled blocks m i)
          ∙ sym (Taken-free taken i),
      λ a l. freed.offers.tables a l ∙ Taken-tables a taken l,
    )
