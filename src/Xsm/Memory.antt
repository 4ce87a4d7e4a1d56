-- ===== src/Xsm/Memory.antt =====
-- xsm/memory.c: the bounds of the memory, and the page table.
pub mod Translate
mod Tests
use myexpos.Prelude.{
  ℕ, ◌*◌, ◌/◌, Bool, ◌&&◌, ◌||◌, Option, none, some, ltb, ◌==◌, if◌then◌else◌, get_or,
}
use myexpos.Prelude.Int.{ℤ, pos, negsuc, ltb_ℤ, leb_ℤ, add32, mul32, mod_ℤ}
use myexpos.Xsm.Word.{Word, word_get_integer}

abbrev pub page_size : ℕ
page_size = 512

abbrev pub num_pages : ℕ
num_pages = 128

abbrev pub memory_size : ℕ
memory_size = page_size * num_pages

-- XSM_MEM_NOWRITE, XSM_MEM_PAGEFAULT and XSM_MEM_ILLPAGE: -1, -2 and -3.
abbrev pub mem_nowrite : ℤ
mem_nowrite = negsuc 0

abbrev pub mem_pagefault : ℤ
mem_pagefault = negsuc 1

abbrev pub mem_illpage : ℤ
mem_illpage = negsuc 2

-- memory_get_word and the test that it makes: the index of the word, and `none` for NULL.
unfoldable pub memory_get_word : ℤ → Option ℕ
memory_get_word (pos a) = if ltb a memory_size then some a else none
memory_get_word (negsuc a) = none

unfoldable pub memory_addr_page : ℤ → ℤ
memory_addr_page (pos a) = pos (a / page_size)
memory_addr_page (negsuc a) = negsuc 0

-- The tests on the two words of a page's entry.
unfoldable pub page_entry : Word → Word → Bool → ℤ
unfolding word_get_integer
page_entry entry_w info_w write =
    if get_or info_w 1 0 == b'0'
    then mem_pagefault
    else if write && (get_or info_w 2 0 == b'0')
    then mem_nowrite
    else word_get_integer entry_w

-- The two lookups of a page's entry: a NULL entry is followed, which is `none` here.
unfoldable pub page_entry_at : (ℕ → Word) → Option ℕ → Option ℕ → Bool → Option ℤ
unfolding page_entry
page_entry_at mem (some e) (some i) write = some (page_entry (mem e) (mem i) write)
page_entry_at mem _ _ write = none

unfoldable pub memory_translate_page : (ℕ → Word) → ℤ → ℤ → ℤ → Bool → Option ℤ
unfolding page_entry_at memory_get_word
memory_translate_page mem ptbr ptlr page write =
    if ltb_ℤ page (pos 0) || leb_ℤ ptlr page
    then some mem_illpage
    else (let entry = add32 (mul32 page (pos 2)) ptbr in
        page_entry_at mem (memory_get_word entry) (memory_get_word (add32 entry (pos 1))) write)

-- The physical address of a page and an offset; a negative page is passed on as it is.
unfoldable pub page_address : ℤ → ℤ → ℤ
page_address target_page offset =
    if ltb_ℤ target_page (pos 0)
    then target_page
    else add32 (mul32 target_page (pos page_size)) offset

unfoldable pub page_address? : Option ℤ → ℤ → Option ℤ
unfolding page_address
page_address? none offset = none
page_address? (some target_page) offset = some (page_address target_page offset)

unfoldable pub memory_translate_address : (ℕ → Word) → ℤ → ℤ → ℤ → Bool → Option ℤ
unfolding memory_translate_page memory_addr_page page_address? mod_ℤ
memory_translate_address mem ptbr ptlr address write =
    page_address? (memory_translate_page mem ptbr ptlr (memory_addr_page address) write)
      (mod_ℤ address (pos page_size))
