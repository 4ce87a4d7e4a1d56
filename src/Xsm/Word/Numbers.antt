-- ===== src/Xsm/Word/Numbers.antt =====
-- Integers in words.
use myexpos.Prelude.{
  suc, refl, Bytes, All, ◌≡◌, [], ◌∷◌, ◌++◌, arith, length, drop, length-append, length-drop,
}
use mathlib.Core.List.{append_assoc}
use myexpos.Prelude.Int.{pos, negsuc, ℤ, InInt}
use myexpos.Libc.{format_int, digits}
use myexpos.Libc.Decimal.{
  IsDigit, cstr-append, format_int-IsText, digits-IsDigit, atoi-format_int, length-format_int,
}
use myexpos.Xsm.Word.{
  integer, scan_type, scan_signed, word_get_unix_type, Word, word_size, word_get_integer,
  word_store_integer,
}

scan_type_digits : (s : Bytes) → All IsDigit s → scan_type s ≡ integer
unfolding scan_type
scan_type_digits [] h = refl
scan_type_digits (c ∷ s) (hc, hs) = ground (arith, scan_type_digits s hs)

scan_signed_digits : (s : Bytes) → All IsDigit s → scan_signed s ≡ integer
unfolding scan_signed scan_type
scan_signed_digits [] h = refl
scan_signed_digits (c ∷ s) (hc, hs) = ground (arith, scan_type_digits s hs)

scan_signed-format_int : (n : ℤ) → scan_signed (format_int n) ≡ integer
unfolding scan_signed format_int
scan_signed-format_int (pos n) = scan_signed_digits (digits 10 n []) (digits-IsDigit 10 n [] tt)
scan_signed-format_int (negsuc n) =
    scan_type_digits (digits 10 (suc n) []) (digits-IsDigit 10 (suc n) [] tt)

-- An `int` that is stored in a word is read back unchanged.
pub word_get_integer-word_store_integer :
    (w : Word) (n : ℤ) → InInt n → word_get_integer (word_store_integer w n) ≡ n
unfolding word_get_integer word_store_integer
word_get_integer-word_store_integer w n h =
    rw (append_assoc (format_int n) (0 ∷ []) (drop (length (format_int n ++ 0 ∷ [])) w))
      (atoi-format_int n _ h)

-- A word stays 16 bytes long under a store.
pub length-word_store_integer :
    (w : Word) (n : ℤ) → length w ≡ word_size → length (word_store_integer w n) ≡ word_size
unfolding word_store_integer
length-word_store_integer w n h =
    let out = format_int n ++ 0 ∷ [] in
    omega (
      arith,
      length-append out (drop (length out) w),
      length-drop (length out) w,
      length-append (format_int n) (0 ∷ []),
      length-format_int n,
    )

-- A word that holds a printed `int` is of the integer type.
pub word_get_unix_type-word_store_integer :
    (w : Word) (n : ℤ) → word_get_unix_type (word_store_integer w n) ≡ integer
unfolding word_get_unix_type word_store_integer
word_get_unix_type-word_store_integer w n =
    rw
      (
        append_assoc (format_int n) (0 ∷ []) (drop (length (format_int n ++ 0 ∷ [])) w),
        cstr-append (format_int n) (drop (length (format_int n ++ 0 ∷ [])) w) (format_int-IsText n),
      )
      (scan_signed-format_int n)
