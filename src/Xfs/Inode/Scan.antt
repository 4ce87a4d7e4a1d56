-- ===== src/Xfs/Inode/Scan.antt =====
-- The loop of getInodeEntry: which of the entries it finds.
use myexpos.Prelude.{
  ◌≡◌, refl, sym, ap, ◌∙◌, inl, inr, ℕ, zero, suc, ◌+◌, ◌*◌, ◌≤◌, ◌<◌, Bool, true, false, ◌&&◌, not,
  Option, none, some, Bytes, arith, leb, ◌==◌, Bool-cases,
}
use myexpos.Prelude.Int.{pos, negsuc, eq_ℤ}
use myexpos.Libc.{cstr, strcmp, atoi}
use myexpos.Xsm.Word.{Word}
use myexpos.Xfs.Layout.{block_size, inode, inode_entry_filename, inode_entry_size}
use myexpos.Xfs.State.{Virt}
use myexpos.Xfs.VirtualDisk.{get_value}
use myexpos.Xfs.Inode.{scan_name, or_failure, get_inode_entry}

-- What getInodeEntry asks of the word of a name.
abbrev pub is_named : Bytes → Word → Bool
is_named name w = eq_ℤ (strcmp (cstr w) name) (pos 0) && not (eq_ℤ (get_value w) (negsuc 0))

abbrev pub name_at : Virt → ℕ → Word
name_at v e = v (inode * block_size + e * inode_entry_size + inode_entry_filename)

-- A name that getInodeEntry can find: it does not read as -1.
abbrev pub is_findable : Bytes → Bool
is_findable name = not (eq_ℤ (get_value name) (negsuc 0))

pub scan_name_same :
    (count e : ℕ) (name : Bytes) (v w : Virt)
    → ((i : ℕ) → i < 60 → is_named name (name_at w i) ≡ is_named name (name_at v i))
    → scan_name count e name w ≡ scan_name count e name v
unfolding scan_name
scan_name_same zero e name v w h = refl
scan_name_same (suc count) e name v w h = elim (Bool-cases (leb 60 e)) [
  | inl k ↦ rw k (scan_name_same count (e + 1) name v w h)
  | inr k ↦ rw (k, h e (ground arith), scan_name_same count (e + 1) name v w h) refl
]

scan_name-none :
    (count e i : ℕ) (name : Bytes) (v : Virt)
    → scan_name count e name v ≡ none
    → e ≤ i
    → i < e + count
    → i < 60
    → is_named name (name_at v i) ≡ false
unfolding scan_name
scan_name-none zero e i name v h k l m = absurd (omega arith)
scan_name-none (suc count) e i name v h k l m = elim (Bool-cases (is_named name (name_at v e))) [
  | inl n ↦
      absurd
        (let small : leb 60 e ≡ false = ground arith in let hit = first small n ∙ h in ground arith)
  | inr n ↦ elim (Bool-cases (i == e)) [
    | inl same ↦ ap (λ j. is_named name (name_at v j)) (ground arith) ∙ n
    | inr other ↦ scan_name-none count (e + 1) i name v (later n h) (ground arith) (omega arith) m
  ]
]
  where
    first :
        leb 60 e ≡ false
        → is_named name (name_at v e) ≡ true
        → some (e * 16) ≡ scan_name (suc count) e name v
    first small n = rw (small, n) refl

    later :
        is_named name (name_at v e) ≡ false
        → scan_name (suc count) e name v ≡ none
        → scan_name count (e + 1) name v ≡ none
    later n h = elim (Bool-cases (leb 60 e)) [
      | inl k ↦
          (let step : scan_name (suc count) e name v ≡ scan_name count (e + 1) name v = rw k refl in
            sym step ∙ h)
      | inr k ↦
          (let step : scan_name (suc count) e name v ≡ scan_name count (e + 1) name v =
              rw (k, n) refl in
            sym step ∙ h)
    ]

pub scan_name_hit :
    (count e j : ℕ) (name : Bytes) (v : Virt)
    → e ≤ j
    → j < e + count
    → j < 60
    → is_named name (name_at v j) ≡ true
    → ((i : ℕ) → i < j → is_named name (name_at v i) ≡ false)
    → scan_name count e name v ≡ some (j * 16)
unfolding scan_name
scan_name_hit zero e j name v h k l m n = absurd (omega arith)
scan_name_hit (suc count) e j name v h k l m n =
    let small : leb 60 e ≡ false = ground arith in
    elim (Bool-cases (e == j)) [
      | inl same ↦
          let here : e ≡ j = ground arith in
          let hit : is_named name (name_at v e) ≡ true =
            ap (λ i. is_named name (name_at v i)) here ∙ m in
          rw (small, hit) (ap (λ i. some (i * 16)) here)
      | inr other ↦
          rw (small, n e (ground arith))
            (scan_name_hit count (e + 1) j name v (ground arith) (omega arith) l m n)
    ]

or_failure-none : (r : Option ℕ) → or_failure r ≡ negsuc 0 → r ≡ none
or_failure-none none h = refl
or_failure-none (some n) h = absurd (ground arith)

pub unknown_name :
    (name : Bytes) (v : Virt) (i : ℕ)
    → get_inode_entry name v ≡ negsuc 0
    → i < 60
    → is_named name (name_at v i) ≡ false
unfolding get_inode_entry
unknown_name name v i h k =
    scan_name-none 64 0 i name v (or_failure-none (scan_name 64 0 name v) h) (omega arith)
      (omega arith) k

pub get_value-cstr : (w : Word) (name : Bytes) → cstr w ≡ cstr name → get_value w ≡ get_value name
unfolding get_value atoi
get_value-cstr w name h = rw h refl
