-- ===== src/Xsm/Lexer/Tests.antt =====
-- Scanning concrete texts.
use myexpos.Prelude.{◌≡◌, refl, ◌++◌, codes, arith}
use myexpos.Prelude.Int.{negsuc}
use myexpos.Libc.{format_int}
use myexpos.Xsm.State.{number}
use myexpos.Xsm.Lexer.{scan, found}
use myexpos.Xsm.Lexer.Numbers.{scan-format_int}

scan-format_int_example :
    scan (format_int (negsuc 41) ++ codes "] R1") ≡ found (number (negsuc 41), codes "] R1")
scan-format_int_example = scan-format_int (negsuc 41) (codes "] R1") (omega arith) refl
