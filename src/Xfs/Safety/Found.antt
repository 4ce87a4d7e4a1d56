-- ===== src/Xfs/Safety/Found.antt =====
-- The entries that are found, of a sound memory copy.
use myexpos.Prelude.{
  ◌≡◌, refl, sym, ap, ◌∙◌, inl, inr, ℕ, zero, suc, ◌+◌, ◌*◌, ◌-◌, ◌/◌, ◌%◌, ◌≤◌, ◌<◌, Bool, true,
  false, ◌&&◌, ◌||◌, not, Option, none, some, List, [], ◌∷◌, ◌++◌, Bytes, codes, arith, leb, ltb,
  ◌==◌, if◌then◌else◌, All, Bool-cases, length,
}
use myexpos.Prelude.Int.{ℤ, pos, negsuc, eq_ℤ, InInt}
use myexpos.Libc.{cstr, strcmp, atoi}
use myexpos.Libc.Strings.{same_strcmp}
use myexpos.Xfs.Layout.{block_size, inode, inode_entry_filename, inode_entry_size}
use myexpos.Xfs.State.{Virt}
use myexpos.Xfs.VirtualDisk.{get_value, get_value_at}
use myexpos.Xfs.Inode.{
  scan_empty, entry_found, find_empty_inode_entry, scan_name, or_failure, get_inode_entry,
}
use myexpos.Xfs.Safety.{Sound}

abbrev pub name_word : ℕ → ℕ
name_word e = inode * block_size + e * inode_entry_size + inode_entry_filename

-- The places that an entry for a new file may have: never that of the root file.
pub data Place : ℤ → Type 0 where
  no_place : Place (negsuc 0)
  place : (e : ℕ) → 1 ≤ e → e < 64 → Place (pos (e * inode_entry_size))

data Empty (v : Virt) (count e : ℕ) : Option ℕ → Type 0 where
  none_empty : Empty v count e none
  empty_at :
      (i : ℕ)
      → e ≤ i
      → i < e + count
      → eq_ℤ (get_value_at v (name_word i)) (negsuc 0) ≡ true
      → Empty v count e (some (i * inode_entry_size + inode_entry_filename))

Empty-later :
    {v : Virt} {count e : ℕ} {r : Option ℕ} → Empty v count (e + 1) r → Empty v (suc count) e r
Empty-later none_empty = none_empty
Empty-later (empty_at i h k l) = empty_at i (omega arith) (omega arith) l

scan_empty-Empty : (count e : ℕ) (v : Virt) → Empty v count e (scan_empty count e v)
unfolding scan_empty
scan_empty-Empty zero e v = none_empty
scan_empty-Empty (suc count) e v =
    elim (Bool-cases (eq_ℤ (get_value_at v (name_word e)) (negsuc 0))) [
      | inl h ↦ rw h (empty_at e (omega arith) (omega arith) h)
      | inr h ↦ rw h (Empty-later (scan_empty-Empty count (e + 1) v))
    ]

root_not_empty : (v : Virt) → Sound v → eq_ℤ (get_value_at v (name_word 0)) (negsuc 0) ≡ false
unfolding get_value_at get_value atoi cstr myexpos.Libc.skip_space myexpos.Libc.signed_value
    myexpos.Libc.leading myexpos.Prelude.Int.wrap32
root_not_empty v s = let name : cstr (v 1537) ≡ codes "root" = s.good 1537 in rw name refl

Empty-Place : (v : Virt) (r : Option ℕ) → Sound v → Empty v 64 0 r → Place (entry_found r)
Empty-Place v none s none_empty = no_place
Empty-Place v (some _) s (empty_at zero h k l) =
    absurd (let full = root_not_empty v s in ground arith)
Empty-Place v (some _) s (empty_at (suc i) h k l) =
    let inside : ltb 1024 (suc i * 16 + 1) ≡ false = ground arith in
    let back : suc i * 16 + 1 - 1 ≡ suc i * 16 = omega arith in
    rw (inside, back) (place (suc i) (omega arith) (omega arith))

pub find_empty_inode_entry-Place : (v : Virt) → Sound v → Place (find_empty_inode_entry v)
unfolding find_empty_inode_entry
find_empty_inode_entry-Place v s = Empty-Place v (scan_empty 64 0 v) s (scan_empty-Empty 64 0 v)

-- The entries that a name leads to.
pub data Named (v : Virt) (name : Bytes) : ℤ → Type 0 where
  unknown : Named v name (negsuc 0)
  entry :
      (e : ℕ) → e < 60 → cstr (v (name_word e)) ≡ name → Named v name (pos (e * inode_entry_size))

scan_name-Named :
    (count e : ℕ) (name : Bytes) (v : Virt) → Named v name (or_failure (scan_name count e name v))
unfolding scan_name
scan_name-Named zero e name v = unknown
scan_name-Named (suc count) e name v =
    let rest = scan_name-Named count (e + 1) name v in
    elim (Bool-cases (leb 60 e)) [
      | inl h ↦ rw h rest
      | inr h ↦
          elim (Bool-cases (
            eq_ℤ (strcmp (cstr (v (name_word e))) name) (pos 0)
            && not (eq_ℤ (get_value (v (name_word e))) (negsuc 0)))) [
              | inl k ↦
                  rw (h, k)
                    (entry e (ground arith)
                      (same_strcmp (cstr (v (name_word e))) name (ground arith)))
              | inr k ↦ rw (h, k) rest
            ]
    ]

pub get_inode_entry-Named : (name : Bytes) (v : Virt) → Named v name (get_inode_entry name v)
unfolding get_inode_entry
get_inode_entry-Named name v = scan_name-Named 64 0 name v
