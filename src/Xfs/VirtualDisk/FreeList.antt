-- ===== src/Xfs/VirtualDisk/FreeList.antt =====
-- The free list as a set of blocks, and FindFreeBlock on it.
use myexpos.Prelude.{
  ◌≡◌, refl, ap, ◌∙◌, inl, inr, ℕ, zero, suc, ◌+◌, ◌*◌, ◌≤◌, ◌<◌, Bool, true, false, ◌&&◌, not,
  Option, none, some, arith, ◌==◌, Bool-cases,
}
use myexpos.Prelude.Int.{ℤ, pos, negsuc, eq_ℤ}
use myexpos.Xfs.Layout.{block_size, disk_free_list}
use myexpos.Xfs.State.{Virt}
use myexpos.Xfs.VirtualDisk.{get_value_at, store_value_at, scan_free, take_block, find_free_block}
use myexpos.Xfs.VirtualDisk.Words.{get_value_at_same, store_value_at_other, get_value_at_other}

abbrev pub free_word : ℕ → ℕ
free_word b = disk_free_list * block_size + b

-- The set of free blocks that the words of the free list stand for.
abbrev pub is_free : Virt → ℕ → Bool
is_free v b = eq_ℤ (get_value_at v (free_word b)) (pos 0)

-- `b` is the first member of a set from `j` on.
pub record IsFirst (f : ℕ → Bool) (j b : ℕ) : Type 0 where
  pub behind : j ≤ b
  pub member : f b ≡ true
  pub first : (i : ℕ) → j ≤ i → i < b → f i ≡ false

IsFirst-later : {f : ℕ → Bool} {j b : ℕ} → f j ≡ false → IsFirst f (j + 1) b → IsFirst f j b
IsFirst-later {f} {j} {b} h r = record {
  behind = omega (arith, r.behind);
  member = r.member;
  first = λ i hj hb. elim (Bool-cases (i == j)) [
    | inl e ↦ ap f (ground arith) ∙ h
    | inr e ↦ r.first i (ground arith) hb
  ];
}

IsFirst-here : {f : ℕ → Bool} {j : ℕ} → f j ≡ true → IsFirst f j j
IsFirst-here h = record {
  behind = omega arith;
  member = h;
  first = λ i hj hb. absurd (omega arith);
}

-- How the scan comes out.
pub data Scanned (f : ℕ → Bool) (count j : ℕ) : Option ℕ → Type 0 where
  nowhere : ((i : ℕ) → j ≤ i → i < j + count → f i ≡ false) → Scanned f count j none
  at : (b : ℕ) → IsFirst f j b → b < j + count → Scanned f count j (some b)

Scanned-later :
    {f : ℕ → Bool} {count j : ℕ} {r : Option ℕ}
    → f j ≡ false
    → Scanned f count (j + 1) r
    → Scanned f (suc count) j r
Scanned-later {f} {count} {j} h (nowhere k) = nowhere (λ i hj hb. elim (Bool-cases (i == j)) [
  | inl e ↦ ap f (ground arith) ∙ h
  | inr e ↦ k i (ground arith) (omega arith)
])
Scanned-later h (at b k l) = at b (IsFirst-later h k) (omega arith)

pub scan_free-Scanned : (count j : ℕ) (v : Virt) → Scanned (is_free v) count j (scan_free count j v)
unfolding scan_free
scan_free-Scanned zero j v = nowhere (λ i hj hb. absurd (omega arith))
scan_free-Scanned (suc count) j v = elim (Bool-cases (is_free v j)) [
  | inl e ↦ rw e (at j (IsFirst-here {f = is_free v} e) (omega arith))
  | inr e ↦ rw e (Scanned-later e (scan_free-Scanned count (j + 1) v))
]

-- A block of the set is taken out of it.
abbrev pub without : (ℕ → Bool) → ℕ → ℕ → Bool
without f b i = f i && not (i == b)

-- `w` is `v` with one block fewer free.
pub record Takes (v w : Virt) (b : ℕ) : Type 0 where
  pub free_before : IsFirst (is_free v) 0 b
  pub inside : b < block_size
  pub free_after : (i : ℕ) → is_free w i ≡ without (is_free v) b i
  pub elsewhere : (a : ℕ) → (a == free_word b) ≡ false → w a ≡ v a

pub data FreeBlock (v w : Virt) : ℤ → Type 0 where
  found : (b : ℕ) → Takes v w b → FreeBlock v w (pos b)
  all_taken : ((i : ℕ) → i < block_size → is_free v i ≡ false) → w ≡ v → FreeBlock v w (negsuc 0)

is_free_mark :
    (v : Virt) (b i : ℕ)
    → is_free (store_value_at (free_word b) (pos 1) v) i ≡ without (is_free v) b i
is_free_mark v b i = elim (Bool-cases (i == b)) [
  | inl e ↦
      let same : i ≡ b = ground arith in
      rw (same, get_value_at_same v (free_word b) (pos 1) (omega arith)) (ground arith)
  | inr e ↦
      rw (get_value_at_other v (free_word b) (free_word i) (pos 1) (ground arith), e) (ground arith)
]

take_block-FreeBlock :
    (v : Virt) (r : Option ℕ)
    → Scanned (is_free v) block_size 0 r
    → FreeBlock v ((take_block r v).1) ((take_block r v).0)
unfolding take_block
take_block-FreeBlock v none (nowhere k) = all_taken (λ i h. k i (omega arith) (omega arith)) refl
take_block-FreeBlock v (some b) (at _ k l) = found b (record {
  free_before = k;
  inside = omega arith;
  free_after = is_free_mark v b;
  elsewhere = λ a h. store_value_at_other v (free_word b) a (pos 1) h;
})

-- FindFreeBlock on the set of free blocks: it returns the first member of the set, which it takes out
-- of it, and changes one word; or there is no member below 512, and then it returns -1 and changes
-- nothing.
pub find_free_block-FreeBlock :
    (v : Virt) → FreeBlock v ((find_free_block v).1) ((find_free_block v).0)
unfolding find_free_block
find_free_block-FreeBlock v =
    take_block-FreeBlock v (scan_free block_size 0 v) (scan_free-Scanned block_size 0 v)
