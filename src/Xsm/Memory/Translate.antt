-- ===== src/Xsm/Memory/Translate.antt =====
-- What the page table does to an address.
use myexpos.Prelude.{
  ◌≡◌, ◌≢◌, ◌↔◌, ◌≤◌, ◌<◌, refl, ℕ, ◌+◌, ◌*◌, ◌/◌, ◌%◌, Bool, true, false, ◌&&◌, ◌||◌, arith, ◌==◌,
  if◌then◌else◌, get_or, some, lt→ltb, Bool-cases, inl, inr,
}
use native.Mathlib.Decide.{dec_lt}
use myexpos.Prelude.Int.{ℤ, pos, negsuc, add32, mul32, mod_ℤ, ltb_ℤ, leb_ℤ, wrap32, ◌+ℤ◌, ◌*ℤ◌}
use myexpos.Xsm.Word.{Word, word_get_integer}
use myexpos.Xsm.Memory.{
  page_size, num_pages, memory_size, mem_illpage, mem_pagefault, mem_nowrite, memory_get_word,
  page_entry, page_entry_at, memory_translate_page, page_address, page_address?, memory_addr_page,
  memory_translate_address,
}

entry_index :
    (b l page : ℕ)
    → page < l
    → b + 2 * l ≤ memory_size
    → add32 (mul32 (pos page) (pos 2)) (pos b) ≡ pos (page * 2 + b)
unfolding ◌+ℤ◌ ◌*ℤ◌ wrap32
entry_index b l page h k = ground arith

info_index : (e : ℕ) → e < memory_size → add32 (pos e) (pos 1) ≡ pos (e + 1)
unfolding ◌+ℤ◌ wrap32
info_index e h = ground arith

word_inside : (n : ℕ) → n < memory_size → memory_get_word (pos n) ≡ some n
unfolding memory_get_word
word_inside n h = rw (lt→ltb n memory_size h)

translate_page-inside :
    (mem : ℕ → Word) (b l page : ℕ) (write : Bool)
    → page < l
    → b + 2 * l ≤ memory_size
    → memory_translate_page mem (pos b) (pos l) (pos page) write
      ≡ some (page_entry (mem (page * 2 + b)) (mem (page * 2 + b + 1)) write)
unfolding memory_translate_page page_entry_at
translate_page-inside mem b l page write h k =
    let legal : (ltb_ℤ (pos page) (pos 0) || leb_ℤ (pos l) (pos page)) ≡ false = ground arith in
    rw (
      legal,
      entry_index b l page h k,
      info_index (page * 2 + b) (omega arith),
      word_inside (page * 2 + b) (omega arith),
      word_inside (page * 2 + b + 1) (omega arith),
    )

translate_page-outside :
    (mem : ℕ → Word) (b l page : ℕ) (write : Bool)
    → l ≤ page
    → memory_translate_page mem (pos b) (pos l) (pos page) write ≡ some mem_illpage
unfolding memory_translate_page
translate_page-outside mem b l page write h =
    let illegal : (ltb_ℤ (pos page) (pos 0) || leb_ℤ (pos l) (pos page)) ≡ true = ground arith in
    rw illegal

address_in :
    (f offset : ℕ)
    → f < num_pages
    → offset < page_size
    → page_address (pos f) (pos offset) ≡ pos (f * page_size + offset)
unfolding page_address ◌+ℤ◌ ◌*ℤ◌ wrap32
address_in f offset h k = ground arith

offset_of : (a : ℕ) → mod_ℤ (pos a) (pos page_size) ≡ pos (a % page_size)
unfolding mod_ℤ
offset_of a = ground arith

fault : (offset : ℤ) (n : ℕ) → page_address (negsuc n) offset ≡ negsuc n
unfolding page_address
fault offset n = let negative : ltb_ℤ (negsuc n) (pos 0) ≡ true = ground arith in rw negative

entry_address :
    (entry info : Word) (write : Bool) (f offset : ℕ)
    → word_get_integer entry ≡ pos f
    → f < num_pages
    → offset < page_size
    → page_address? (some (page_entry entry info write)) (pos offset)
      ≡ some (
          if get_or info 1 0 == b'0'
          then mem_pagefault
          else if write && (get_or info 2 0 == b'0')
          then mem_nowrite
          else pos (f * page_size + offset))
unfolding page_entry page_address?
entry_address entry info write f offset e h k = elim (Bool-cases (get_or info 1 0 == b'0')) [
  | inl v ↦ rw (v, fault (pos offset) 1) refl
  | inr v ↦ elim (Bool-cases (write && (get_or info 2 0 == b'0'))) [
    | inl w ↦ rw (v, w, fault (pos offset) 0) refl
    | inr w ↦ rw (v, w, e, address_in f offset h k) refl
  ]
]

inside :
    (mem : ℕ → Word) (b l a f : ℕ) (write : Bool)
    → b + 2 * l ≤ memory_size
    → word_get_integer (mem (a / page_size * 2 + b)) ≡ pos f
    → f < num_pages
    → a / page_size < l
    → memory_translate_address mem (pos b) (pos l) (pos a) write
      ≡ some (
          if get_or (mem (a / page_size * 2 + b + 1)) 1 0 == b'0'
          then mem_pagefault
          else if write && (get_or (mem (a / page_size * 2 + b + 1)) 2 0 == b'0')
          then mem_nowrite
          else pos (f * page_size + a % page_size))
unfolding memory_translate_address memory_addr_page
inside mem b l a f write room e h lt =
    rw (translate_page-inside mem b l (a / page_size) write lt room, offset_of a)
      (entry_address (mem (a / page_size * 2 + b)) (mem (a / page_size * 2 + b + 1)) write f
        (a % page_size) e h (omega arith))

outside_table :
    (mem : ℕ → Word) (b l a : ℕ) (write : Bool)
    → l ≤ a / page_size
    → memory_translate_address mem (pos b) (pos l) (pos a) write ≡ some mem_illpage
unfolding memory_translate_address memory_addr_page page_address?
outside_table mem b l a write h =
    rw
      (
        translate_page-outside mem b l (a / page_size) write h,
        fault (mod_ℤ (pos a) (pos page_size)) 2,
      )
      refl

-- With a page table of `l` entries from `b` on, all of it in the memory, and the number of a page of
-- the memory in the entry of the address's page, a logical address is translated to the physical
-- address `p` exactly if its page is in the table, the page is valid, it is writable or the access
-- is a read, and `p` has the same place in the page that the entry names.
pub memory_translate_address_iff :
    (mem : ℕ → Word) (b l a f p : ℕ) (write : Bool)
    → b + 2 * l ≤ memory_size
    → word_get_integer (mem (a / page_size * 2 + b)) ≡ pos f
    → f < num_pages
    → (memory_translate_address mem (pos b) (pos l) (pos a) write ≡ some (pos p)) ↔ (
        (a / page_size < l)
        × (get_or (mem (a / page_size * 2 + b + 1)) 1 0 ≢ b'0')
        × (write ≡ true → get_or (mem (a / page_size * 2 + b + 1)) 2 0 ≢ b'0')
        × (p ≡ f * page_size + a % page_size))
memory_translate_address_iff mem b l a f p write room e h = elim (dec_lt (a / page_size) l) [
  | yes lt ↦ (let i = inside mem b l a f write room e h lt in ground (arith, i))
  | no ge ↦ (let i = outside_table mem b l a write (omega arith) in ground (arith, i))
]
