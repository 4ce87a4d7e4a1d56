-- ===== src/Xsm/Word/Tests.antt =====
-- Words with concrete contents.
use myexpos.Prelude.{◌≡◌, ◌↔◌, All, codes, arith}
use myexpos.Prelude.Int.{negsuc}
use myexpos.Libc.Decimal.{IsDigit}
use myexpos.Xsm.Word.{
  integer, word_get_integer, word_store_integer, word_get_string, word_store_string,
  word_get_unix_type,
}
use myexpos.Xsm.Word.Numbers.{
  word_get_integer-word_store_integer, word_get_unix_type-word_store_integer,
}
use myexpos.Xsm.Word.Texts.{
  word_get_string-word_store_string, word_get_unix_type-integer_iff, unsigned,
}

word_get_integer-word_store_integer_example :
    word_get_integer (word_store_integer (codes "PUSH R0 and more") (negsuc 2147483647))
    ≡ negsuc 2147483647
word_get_integer-word_store_integer_example =
    word_get_integer-word_store_integer (codes "PUSH R0 and more") (negsuc 2147483647) (omega arith)

word_get_unix_type-word_store_integer_example :
    word_get_unix_type (word_store_integer (codes "PUSH R0 and more") (negsuc 41)) ≡ integer
word_get_unix_type-word_store_integer_example =
    word_get_unix_type-word_store_integer (codes "PUSH R0 and more") (negsuc 41)

word_get_string-word_store_string_example :
    word_get_string (word_store_string (codes "PUSH R0 and more") (codes "fifteen letters"))
    ≡ codes "fifteen letters"
word_get_string-word_store_string_example =
    word_get_string-word_store_string (codes "PUSH R0 and more") (codes "fifteen letters")
      (ground arith) (omega arith)

word_get_unix_type-integer_iff_example :
    (word_get_unix_type (codes "-12") ≡ integer)
    ↔ All IsDigit (unsigned (word_get_string (codes "-12")))
word_get_unix_type-integer_iff_example = word_get_unix_type-integer_iff (codes "-12")
