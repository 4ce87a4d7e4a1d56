-- ===== src/Xsm/Word.antt =====
-- xsm/word.c and xsm/types.h: a word is an array of 16 characters, each a byte.
pub mod Numbers
pub mod Texts
mod Tests
use myexpos.Prelude.{
  ℕ, ◌+◌, ◌-◌, Bool, true, false, List, [], ◌∷◌, ◌++◌, Bytes, ltb, leb, ◌==◌, ◌||◌, if◌then◌else◌,
  length, take, drop, replicate,
}
use myexpos.Prelude.Int.{ℤ, pos, negsuc, ◌+ℤ◌, sub_ℕ}
use myexpos.Libc.{cstr, is_digit, atoi, format_int}

abbrev pub word_size : ℕ
word_size = 16

-- The bytes of an `xsm_word`, 16 of them.
abbrev pub Word : Type 0
Word = Bytes

-- XSM_TYPE_STRING and XSM_TYPE_INTEGER.
pub data UnixType : Type 0 where
  string integer : UnixType

-- The loop of word_get_unix_type: a string as soon as a character is no digit.
unfoldable pub scan_type : Bytes → UnixType
scan_type [] = integer
scan_type (c ∷ s) = if is_digit c then scan_type s else string

-- The scan starts behind one sign.
unfoldable pub scan_signed : Bytes → UnixType
unfolding scan_type
scan_signed [] = integer
scan_signed (c ∷ s) = if (c == b'+') || (c == b'-') then scan_type s else scan_type (c ∷ s)

unfoldable pub word_get_unix_type : Word → UnixType
unfolding scan_signed cstr
word_get_unix_type w = scan_signed (cstr w)

unfoldable pub word_get_integer : Word → ℤ
unfolding atoi
word_get_integer w = atoi w

unfoldable pub word_get_string : Word → Bytes
unfolding cstr
word_get_string w = cstr w

-- sprintf writes over the front of the array and leaves the bytes behind its NUL.
unfoldable pub word_store_integer : Word → ℤ → Word
unfolding format_int
word_store_integer w n = let out = format_int n ++ 0 ∷ [] in out ++ drop (length out) w

-- strncpy: at most 16 bytes of the string, filled up with NULs.
unfoldable pub word_store_string : Word → Bytes → Word
unfolding cstr
word_store_string w str = take word_size (cstr str ++ replicate word_size 0)

unfoldable pub word_copy : Word → Word → Word
word_copy dest src = src

-- A `char` is signed.
abbrev pub signed_char : ℕ → ℤ
signed_char c = if ltb c 128 then pos c else negsuc (255 - c)

unfoldable pub sum_chars : Bytes → ℤ → ℤ
unfolding ◌+ℤ◌
sum_chars [] result = result
sum_chars (c ∷ s) result = sum_chars s (result +ℤ signed_char c)

-- The sum of the characters, all 16 of them, printed over the word.
unfoldable pub word_encrypt : Word → Word
unfolding sum_chars word_store_integer
word_encrypt w = word_store_integer w (sum_chars w (pos 0))
