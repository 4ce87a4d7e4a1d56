-- ===== src/Xfs/Safety/Alloc.antt =====
-- What the blocks are that the free list gives out, and that giving them back keeps the disk safe.
use myexpos.Prelude.{
  ◌≡◌, refl, inl, inr, ℕ, zero, suc, ◌-◌, ◌≤◌, ◌<◌, Bool, true, false, List, [], ◌∷◌, ◌++◌, arith,
  leb, ◌==◌, All, Bool-cases, length, replicate,
}
use myexpos.Prelude.Int.{ℤ, pos, negsuc}
use myexpos.Xfs.Layout.{temp_block, inode_max_block_num}
use myexpos.Xfs.State.{Virt, edit, write_to_disk}
use myexpos.Xfs.VirtualDisk.{
  get_value_at, store_value_at, empty_block, find_free_block, free_unused_block,
}
use myexpos.Xfs.VirtualDisk.FreeList.{
  free_word, is_free, Takes, FreeBlock, found, all_taken, find_free_block-FreeBlock,
}
use myexpos.Xfs.Files.{find_blocks, free_block_array}
use myexpos.Xfs.Keeps.{Keeps, Keeps-pure, Keeps-bind}
use myexpos.Xfs.Safety.{
  Sound, Sound-at, Safe, is_block, zone, elsewhere, reserved, Sound-store_elsewhere,
  Sound-empty_block, Safe-edit, Safe-write_to_disk,
}

abbrev pub IsBlock : ℤ → Type 0
IsBlock n = is_block n ≡ true

reserved_taken : (v : Virt) (b : ℕ) → b < 69 → Sound v → is_free v b ≡ false
unfolding get_value_at
reserved_taken v b h s =
    let here : zone (free_word b) ≡ reserved = ground arith in Sound-at (free_word b) s here

Takes-IsBlock : {v w : Virt} {b : ℕ} → Sound v → Takes v w b → IsBlock (pos b)
Takes-IsBlock {v} {w} {b} s t = elim (Bool-cases (leb 69 b)) [
  | inl e ↦ (let small = t.inside in ground arith)
  | inr e ↦
      (let taken = reserved_taken v b (ground arith) s in
        let free = t.free_before.member in absurd (ground arith))
]

Takes-Sound : {v w : Virt} {b : ℕ} → Sound v → Takes v w b → Sound w
Takes-Sound {v} {w} {b} s t = record {
  good = λ a. elim (Bool-cases (a == free_word b)) [
    | inl e ↦
        (let data_block = Takes-IsBlock s t in
          let nowhere : zone a ≡ elsewhere = ground arith in rw nowhere tt)
    | inr e ↦ rw (t.elsewhere a e) (s.good a)
  ];
}

-- What find_blocks gives, of a sound memory copy.
pub record Blocks (count : ℕ) (r : List ℤ × (Bool × Virt)) : Type 0 where
  pub data_blocks : All IsBlock (r.0)
  pub few : length (r.0) ≤ count
  pub sound : Sound (r.1.1)

FreeBlock-Blocks :
    (count : ℕ) (v w : Virt) (n : ℤ)
    → Sound v
    → FreeBlock v w n
    → (Sound w → Blocks count (find_blocks count w))
    → Blocks (suc count) (elim n [
      | pos b ↦ let (blocks, r) = find_blocks count w in (pos b ∷ blocks, r)
      | negsuc n ↦ (negsuc n ∷ [], (false, w))
    ])
FreeBlock-Blocks count v w (pos b) s (found _ t) rest =
    let later = rest (Takes-Sound s t) in
    record {
      data_blocks = (Takes-IsBlock s t, later.data_blocks);
      few = omega (arith, later.few);
      sound = later.sound;
    }
FreeBlock-Blocks count v w (negsuc _) s (all_taken h same) rest = record {
  data_blocks = (refl, tt);
  few = omega arith;
  sound = rw same s;
}

pub find_blocks-Blocks : (count : ℕ) (v : Virt) → Sound v → Blocks count (find_blocks count v)
unfolding find_blocks
find_blocks-Blocks zero v s = record { data_blocks = tt; few = omega arith; sound = s }
find_blocks-Blocks (suc count) v s =
    FreeBlock-Blocks count v ((find_free_block v).1) ((find_free_block v).0) s
      (find_free_block-FreeBlock v) (find_blocks-Blocks count ((find_free_block v).1))

module _ {c : Virt} {partial : Bool} where
  pub free_unused_block-Safe :
      (blocks : List ℤ) → All IsBlock blocks → Keeps partial (Safe c) (free_unused_block blocks)
  unfolding free_unused_block
  free_unused_block-Safe [] h = Keeps-pure {P = Safe c} tt
  free_unused_block-Safe (pos zero ∷ blocks) h = Keeps-pure {P = Safe c} tt
  free_unused_block-Safe (pos (suc b) ∷ blocks) (hb, h) =
      Keeps-bind {P = Safe c} (edit (store_value_at (free_word (suc b)) (pos 0))) _
        (Safe-edit (store_value_at (free_word (suc b)) (pos 0))
          (λ v s. Sound-store_elsewhere v (free_word (suc b)) (pos 0) (ground arith) s))
        (λ _.
          Keeps-bind {P = Safe c} (edit (empty_block temp_block)) _
            (Safe-edit (empty_block temp_block) Sound-empty_block)
            (λ _.
              Keeps-bind {P = Safe c} (write_to_disk temp_block (suc b)) _
                (Safe-write_to_disk temp_block (suc b) (ground arith))
                (λ _. free_unused_block-Safe blocks h)))
  free_unused_block-Safe (negsuc zero ∷ blocks) h = Keeps-pure {P = Safe c} tt
  free_unused_block-Safe (negsuc (suc n) ∷ blocks) (hb, h) = absurd (ground arith)

All-append : (xs ys : List ℤ) → All IsBlock xs → All IsBlock ys → All IsBlock (xs ++ ys)
All-append [] ys h k = k
All-append (x ∷ xs) ys (hx, h) k = (hx, All-append xs ys h k)

All-replicate : (n : ℕ) → All IsBlock (replicate n (negsuc 0))
All-replicate zero = tt
All-replicate (suc n) = (refl, All-replicate n)

pub free_block_array-IsBlock :
    (blocks : List ℤ) → All IsBlock blocks → All IsBlock (free_block_array blocks)
free_block_array-IsBlock blocks h =
    All-append blocks (replicate (inode_max_block_num - length blocks) (negsuc 0)) h
      (All-replicate (inode_max_block_num - length blocks))
