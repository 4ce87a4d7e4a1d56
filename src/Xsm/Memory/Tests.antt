-- ===== src/Xsm/Memory/Tests.antt =====
-- A small page table.
use myexpos.Prelude.{
  ◌≡◌, ◌≢◌, ◌↔◌, ◌<◌, refl, ℕ, ◌+◌, ◌*◌, ◌/◌, ◌%◌, true, [], ◌∷◌, codes, get_or, some, arith,
}
use myexpos.Prelude.Int.{pos, wrap32}
use myexpos.Libc.{atoi}
use myexpos.Xsm.Word.{Word, word_get_integer}
use myexpos.Xsm.Memory.{page_size, memory_translate_address}
use myexpos.Xsm.Memory.Translate.{memory_translate_address_iff}

-- One page, in frame 3, that may be written.
abbrev table : ℕ → Word
table a = get_or (codes "3" ∷ codes "111" ∷ []) a (codes "0")

frame_3 : word_get_integer (table (7 / page_size * 2 + 0)) ≡ pos 3
unfolding word_get_integer atoi wrap32
frame_3 = refl

memory_translate_address_iff_example :
    (memory_translate_address table (pos 0) (pos 1) (pos 7) true ≡ some (pos 1543)) ↔ (
      (7 / page_size < 1)
      × (get_or (table (7 / page_size * 2 + 0 + 1)) 1 0 ≢ b'0')
      × (true ≡ true → get_or (table (7 / page_size * 2 + 0 + 1)) 2 0 ≢ b'0')
      × (1543 ≡ 3 * page_size + 7 % page_size))
memory_translate_address_iff_example =
    memory_translate_address_iff table 0 1 7 3 1543 true (omega arith) frame_3 (omega arith)
