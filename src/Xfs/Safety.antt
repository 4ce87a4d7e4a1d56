-- ===== src/Xfs/Safety.antt =====
-- What keeps the operating system's blocks out of reach of the files: the free list never offers them,
-- the entries of files never name them, and the first entry is the root file's.
pub mod Alloc
pub mod Found
pub mod Entries
pub mod Writes
pub mod Commands
pub mod Format
pub mod Reaches
use myexpos.Prelude.{
  ◌≡◌, refl, sym, ap, ◌∙◌, inl, inr, ℕ, suc, ◌+◌, ◌*◌, ◌%◌, ◌≤◌, ◌<◌, Bool, true, false, ◌&&◌, ◌||◌,
  not, List, Bytes, codes, arith, ltb, leb, ◌==◌, if◌then◌else◌, Bool-cases, replicate,
}
use mathlib.Core.Path.{subst}
use myexpos.Prelude.Int.{ℤ, pos, negsuc, eq_ℤ, InInt}
use myexpos.Libc.{cstr}
use myexpos.Xsm.Word.{Word, word_size}
use myexpos.Xfs.Layout.{
  block_size, disk_free_list, inode, rootfile, temp_block, data_start_block, no_of_disk_blocks,
}
use myexpos.Xfs.State.{
  Virt, Disk, M, write_to_disk, open_disk_file, copy_block, in_block, padded, flushed, ok, thrown,
  cant_open_disk, ◌>>=◌, ◌>>◌, pure, edit,
}
use myexpos.Xfs.VirtualDisk.{
  get_value, store_value, store_value_at, store_string_value_at, store_string, empty_block,
}
use myexpos.Xfs.VirtualDisk.Words.{get_value-store_value, update_same}
use myexpos.Xsm.State.{update}
use myexpos.Xfs.Keeps.{Ends, returns, Keeps, Keeps-edit, Keeps-bind}

-- A number that an entry may have as a data block: -1, or a data block of the disk.
abbrev pub is_block : ℤ → Bool
is_block (pos b) = leb data_start_block b && ltb b 512
is_block (negsuc n) = n == 0

-- The words that matter: those of the free list for the blocks below the first data block; the data
-- blocks of the entries 1 to 59; and the name in the first entry.
pub data Zone : Type 0 where
  reserved owned root_name elsewhere : Zone

abbrev pub zone : ℕ → Zone
zone a =
    if leb 1024 a && ltb a 1093
    then reserved
    else if leb 1552 a && (ltb a 2496 && (leb 8 (a % 16) && ltb (a % 16) 12))
    then owned
    else if a == 1537
    then root_name
    else elsewhere

abbrev pub IsGood : Zone → Word → Type 0
IsGood reserved w = eq_ℤ (get_value w) (pos 0) ≡ false
IsGood owned w = is_block (get_value w) ≡ true
IsGood root_name w = cstr w ≡ codes "root"
IsGood elsewhere w = Unit

pub record Sound (v : Virt) : Type 0 where
  pub good : (a : ℕ) → IsGood (zone a) (v a)

pub Sound-at : {v : Virt} {z : Zone} (a : ℕ) → Sound v → zone a ≡ z → IsGood z (v a)
Sound-at {v} a s h = subst (λ z. IsGood z (v a)) h (s.good a)

-- One word is changed.
pub Sound-update :
    (v : Virt) (a : ℕ) (w : Word) → IsGood (zone a) w → Sound v → Sound (update v a w)
unfolding update
Sound-update v a w h s = record {
  good = λ b. elim (Bool-cases (b == a)) [
    | inl e ↦ let same : b ≡ a = ground arith in rw (same, update_same v a w) h
    | inr e ↦ rw e (s.good b)
  ];
}

pub Sound-store :
    (v : Virt) (a : ℕ) (n : ℤ)
    → IsGood (zone a) (store_value (v a) n)
    → Sound v
    → Sound (store_value_at a n v)
unfolding store_value_at
Sound-store v a n = Sound-update v a (store_value (v a) n)

-- Where no word matters, any number and any string may be stored.
pub Sound-store_elsewhere :
    (v : Virt) (a : ℕ) (n : ℤ) → zone a ≡ elsewhere → Sound v → Sound (store_value_at a n v)
Sound-store_elsewhere v a n h = Sound-store v a n (rw h tt)

pub Sound-string_elsewhere :
    (v : Virt) (a : ℕ) (str : Bytes)
    → zone a ≡ elsewhere
    → Sound v
    → Sound (store_string_value_at a str v)
unfolding store_string_value_at
Sound-string_elsewhere v a str h = Sound-update v a (store_string (v a) str) (rw h tt)

pub Sound-store_block :
    (v : Virt) (a : ℕ) (n : ℤ)
    → zone a ≡ owned
    → InInt n
    → is_block n ≡ true
    → Sound v
    → Sound (store_value_at a n v)
Sound-store_block v a n h hn hb = Sound-store v a n (rw (h, get_value-store_value (v a) n hn) hb)

pub Sound-same : (v w : Virt) → ((a : ℕ) → a < 2560 → w a ≡ v a) → Sound v → Sound w
Sound-same v w h s = record {
  good = λ a. elim (Bool-cases (ltb a 2560)) [
    | inl e ↦ rw (h a (ground arith)) (s.good a)
    | inr e ↦ let none_here : zone a ≡ elsewhere = ground arith in rw none_here tt
  ];
}

-- The words of the operating system's programs on the disk, which are all below the first data block but
-- the free list, the inode table and the root file; and every place behind the disk's 512 blocks.
abbrev pub is_kept_word : ℕ → Bool
is_kept_word a =
    ltb a 1024
    || ((leb 3072 a && ltb a (data_start_block * block_size))
        || leb (no_of_disk_blocks * block_size) a)

-- A disk file that is there, with a sound memory copy, and with the words `c` in those places.
pub record Safe (c : Virt) (s : Disk) : Type 0 where
  pub present : s.present ≡ true
  pub sound : Sound (s.virt)
  pub programs : (a : ℕ) → is_kept_word a ≡ true → padded s a ≡ c a

-- A block of the disk that holds no word of those programs.
abbrev pub is_open_block : ℕ → Bool
is_open_block b = (leb 2 b && leb b 5) || (leb data_start_block b && ltb b no_of_disk_blocks)

pub padded-flushed :
    (s : Disk) (virt_block file_block a : ℕ)
    → in_block file_block a ≡ false
    → padded (flushed virt_block file_block s) a ≡ padded s a
unfolding flushed copy_block padded
padded-flushed s virt_block file_block a h = ground (arith, h)

pub is_open_block-os :
    (b a : ℕ) → is_open_block b ≡ true → is_kept_word a ≡ true → in_block b a ≡ false
is_open_block-os b a h k = ground arith

flushed-Safe :
    {c : Virt} (virt_block b : ℕ) (s : Disk)
    → is_open_block b ≡ true
    → Safe c s
    → Safe c (flushed virt_block b s)
unfolding flushed
flushed-Safe virt_block b s h k = record {
  present = k.present;
  sound = k.sound;
  programs = λ a e. padded-flushed s virt_block b a (is_open_block-os b a h e) ∙ k.programs a e;
}

module _ {c : Virt} {partial : Bool} where
  -- A change of the memory copy that keeps what matters of it.
  pub Safe-edit :
      (f : Virt → Virt) → ((v : Virt) → Sound v → Sound (f v)) → Keeps partial (Safe c) (edit f)
  unfolding padded
  Safe-edit f h =
      Keeps-edit {P = Safe c} f
        (λ s k. record { present = k.present; sound = h s.virt k.sound; programs = k.programs })

  pub Safe-open_disk_file : Keeps partial (Safe c) open_disk_file
  unfolding open_disk_file
  Safe-open_disk_file = record { at = λ s k. open_at s (s.present) k.present k }
    where
      open_at :
          (s : Disk) (b : Bool)
          → b ≡ true
          → Safe c s
          → Ends partial (Safe c) (if b then ok tt s else thrown cant_open_disk s)
      open_at s true e k = returns k
      open_at s false e k = absurd (ground arith)

  pub Safe-write_to_disk :
      (virt_block b : ℕ)
      → is_open_block b ≡ true
      → Keeps partial (Safe c) (write_to_disk virt_block b)
  unfolding write_to_disk
  Safe-write_to_disk virt_block b h =
      Keeps-bind {P = Safe c} open_disk_file (λ _ s. ok tt (flushed virt_block b s))
        Safe-open_disk_file (λ _. record { at = λ s k. returns (flushed-Safe virt_block b s h k) })

pub Sound-empty_block : (v : Virt) → Sound v → Sound (empty_block temp_block v)
unfolding empty_block
Sound-empty_block v s = Sound-same v (empty_block temp_block v) (λ a h. ground arith) s
