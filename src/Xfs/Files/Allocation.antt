-- ===== src/Xfs/Files/Allocation.antt =====
-- The blocks for a file: what the loops over FindFreeBlock take, and what giving up puts back.
use myexpos.Prelude.{
  ◌≡◌, refl, sym, ap, ◌∙◌, ◌⊎◌, inl, inr, ℕ, zero, suc, ◌<◌, Bool, true, false, ◌&&◌, ◌||◌, not,
  List, [], ◌∷◌, arith, ◌==◌, Bool-cases, length,
}
use myexpos.Prelude.Int.{ℤ, pos, negsuc}
use myexpos.Xfs.Layout.{block_size}
use myexpos.Xfs.State.{Virt}
use myexpos.Xfs.VirtualDisk.{find_free_block}
use myexpos.Xfs.VirtualDisk.FreeList.{
  is_free, without, Takes, FreeBlock, found, all_taken, find_free_block-FreeBlock,
}
use myexpos.Xfs.Files.{find_blocks}

-- The calls of FindFreeBlock one after the other.
pub data Taken : Virt → List ℤ × (Bool × Virt) → Type 0 where
  enough : {v : Virt} → Taken v ([], (true, v))
  one_more :
      {v w u : Virt} {b : ℕ} {blocks : List ℤ} {all_found : Bool}
      → Takes v w b
      → Taken w (blocks, (all_found, u))
      → Taken v (pos b ∷ blocks, (all_found, u))
  no_more : {v : Virt} → Taken v (negsuc 0 ∷ [], (false, v))

FreeBlock-Taken :
    (count : ℕ) (v w : Virt) (n : ℤ)
    → FreeBlock v w n
    → Taken w (find_blocks count w)
    → Taken v (elim n [
      | pos b ↦ let (blocks, r) = find_blocks count w in (pos b ∷ blocks, r)
      | negsuc n ↦ (negsuc n ∷ [], (false, w))
    ])
FreeBlock-Taken count v w (pos b) (found _ t) rest = one_more t rest
FreeBlock-Taken count v w (negsuc _) (all_taken h same) rest = rw same no_more

pub find_blocks-Taken : (count : ℕ) (v : Virt) → Taken v (find_blocks count v)
unfolding find_blocks
find_blocks-Taken zero v = enough
find_blocks-Taken (suc count) v =
    FreeBlock-Taken count v ((find_free_block v).1) ((find_free_block v).0)
      (find_free_block-FreeBlock v) (find_blocks-Taken count ((find_free_block v).1))

-- Whether a block is in a list of block numbers.
abbrev pub has_block : List ℤ → ℕ → Bool
has_block [] i = false
has_block (pos b ∷ blocks) i = (i == b) || has_block blocks i
has_block (negsuc n ∷ blocks) i = has_block blocks i

-- The numbers of a list are of blocks that a set has; each is taken out of it for the rest.
abbrev pub AreTakenFrom : (ℕ → Bool) → List ℤ → Type 0
AreTakenFrom f [] = Unit
AreTakenFrom f (pos b ∷ blocks) =
    (b < block_size) × (f b ≡ true) × AreTakenFrom (without f b) blocks
AreTakenFrom f (negsuc n ∷ blocks) = AreTakenFrom f blocks

AreTakenFrom-same :
    (blocks : List ℤ) (f g : ℕ → Bool)
    → ((i : ℕ) → f i ≡ g i)
    → AreTakenFrom f blocks
    → AreTakenFrom g blocks
AreTakenFrom-same [] f g h k = tt
AreTakenFrom-same (pos b ∷ blocks) f g h (hb, hf, hs) = (
  hb,
  sym (h b) ∙ hf,
  AreTakenFrom-same blocks (without f b) (without g b) (λ i. rw (h i) refl) hs,
)
AreTakenFrom-same (negsuc n ∷ blocks) f g h k = AreTakenFrom-same blocks f g h k

-- What is free before is what is free afterwards, and what was taken.
pub Taken-free :
    {v u : Virt} {blocks : List ℤ} {all_found : Bool}
    → Taken v (blocks, (all_found, u))
    → (i : ℕ) → is_free v i ≡ (is_free u i || has_block blocks i)
Taken-free enough i = ground arith
Taken-free {v} {u} (one_more {w = w} {b = b} {blocks = blocks} t rest) i =
    let member = t.free_before.member in
    let later = Taken-free rest i in
    let now = t.free_after i in
    elim (Bool-cases (i == b)) [
      | inl e ↦ (let same : i ≡ b = ground arith in rw (same, member) (ground arith))
      | inr e ↦
          (let kept : is_free v i ≡ is_free w i = sym (now ∙ (rw e (ground arith))) in
            kept ∙ later ∙ rw e refl)
    ]
Taken-free no_more i = ground arith

Taken-AreTakenFrom :
    {v u : Virt} {blocks : List ℤ} {all_found : Bool}
    → Taken v (blocks, (all_found, u))
    → AreTakenFrom (is_free v) blocks
Taken-AreTakenFrom enough = tt
Taken-AreTakenFrom {v} (one_more {w = w} {b = b} {blocks = blocks} t rest) = (
  t.inside,
  t.free_before.member,
  AreTakenFrom-same blocks (is_free w) (without (is_free v) b) t.free_after
      (Taken-AreTakenFrom rest),
)
Taken-AreTakenFrom no_more = tt

Taken-after :
    {v u : Virt} {blocks : List ℤ} {all_found : Bool}
    → Taken v (blocks, (all_found, u))
    → (i : ℕ) → is_free u i ≡ (is_free v i && not (has_block blocks i))
Taken-after enough i = ground arith
Taken-after {v} {u} (one_more {w = w} {b = b} {blocks = blocks} t rest) i =
    Taken-after rest i ∙ rw (t.free_after i) (ground arith)
Taken-after no_more i = ground arith

find_blocks-length :
    (count : ℕ) (v : Virt)
    → (find_blocks count v).1.0 ≡ true
    → length ((find_blocks count v).0) ≡ count
unfolding find_blocks
find_blocks-length zero v h = refl
find_blocks-length (suc count) v h =
    by_block ((find_free_block v).0) ((find_free_block v).1)
      (find_blocks-length count ((find_free_block v).1)) h
  where
    by_block :
        (n : ℤ) (w : Virt)
        → ((find_blocks count w).1.0 ≡ true → length ((find_blocks count w).0) ≡ count)
        → let r : List ℤ × (Bool × Virt) = elim n [
          | pos b ↦ let (blocks, r) = find_blocks count w in (pos b ∷ blocks, r)
          | negsuc n ↦ (negsuc n ∷ [], (false, w))
        ] in
          r.1.0 ≡ true → length (r.0) ≡ suc count
    by_block (pos b) w rest h = ap suc (rest h)
    by_block (negsuc n) w rest h = absurd (ground arith)

-- The calls of FindFreeBlock for a file: they return different blocks, each of which was free; those
-- blocks are free no longer, all others are as they were; and there are as many as were wanted, unless
-- one of the calls failed.
pub find_blocks-AreTakenFrom :
    (count : ℕ) (v : Virt)
    → AreTakenFrom (is_free v) ((find_blocks count v).0)
      × ((i : ℕ)
          → is_free ((find_blocks count v).1.1) i
            ≡ (is_free v i && not (has_block ((find_blocks count v).0) i)))
      × (((find_blocks count v).1.0 ≡ false) ⊎ (length ((find_blocks count v).0) ≡ count))
find_blocks-AreTakenFrom count v = (
  Taken-AreTakenFrom (find_blocks-Taken count v),
  Taken-after (find_blocks-Taken count v),
  elim (Bool-cases ((find_blocks count v).1.0)) [
    | inl e ↦ inr (find_blocks-length count v e)
    | inr e ↦ inl e
  ],
)
