-- ===== src/Xsm/Lexer/Numbers.antt =====
-- A printed number is one token.
use myexpos.Prelude.{
  ◌≡◌, ◌<◌, ◌∙◌, refl, ap, suc, true, false, [], ◌∷◌, ◌++◌, Bytes, All, length, arith,
}
use myexpos.Prelude.Int.{ℤ, pos, negsuc, InInt}
use myexpos.Libc.{is_digit, format_int, digits, atoi}
use myexpos.Libc.Decimal.{IsDigit, digits-IsDigit, digits-grows, atoi-print}
use myexpos.Xsm.State.{number}
use myexpos.Xsm.Lexer.{span, scan_digits, scan_minus, scan, Scan, found}

-- A text that does not begin with a digit.
abbrev pub EndsNumber : Bytes → Type 0
EndsNumber [] = Unit
EndsNumber (c ∷ s) = is_digit c ≡ false

span-digits :
    (ds rest : Bytes) → All IsDigit ds → EndsNumber rest → span is_digit (ds ++ rest) ≡ (ds, rest)
unfolding span
span-digits [] [] h e = refl
span-digits [] (c ∷ s) h e = rw e refl
span-digits (c ∷ ds) rest (hc, hs) e =
    let d : is_digit c ≡ true = ground arith in rw (d, span-digits ds rest hs e) refl

scan-digits :
    (ds rest : Bytes)
    → All IsDigit ds
    → 0 < length ds
    → EndsNumber rest
    → scan (ds ++ rest) ≡ found (number (atoi ds), rest)
unfolding scan scan_digits
scan-digits [] rest h k e = elim k [ ]
scan-digits (c ∷ ds) rest (hc, hs) k e =
    let d : is_digit c ≡ true = ground arith in rw (d, span-digits ds rest hs e) refl

scan_minus-digits :
    (ds rest : Bytes) (skipped : Scan)
    → All IsDigit ds
    → 0 < length ds
    → EndsNumber rest
    → scan_minus (ds ++ rest) skipped ≡ found (number (atoi (b'-' ∷ ds)), rest)
unfolding scan_minus scan_digits
scan_minus-digits [] rest skipped h k e = elim k [ ]
scan_minus-digits (c ∷ ds) rest skipped (hc, hs) k e =
    let d : is_digit c ≡ true = ground arith in rw (d, span-digits ds rest hs e) refl

-- The decimal print of an `int`, before a text that does not begin with a digit, is scanned as one
-- number token with that value, and the text is what is left.
pub scan-format_int :
    (n : ℤ) (rest : Bytes)
    → InInt n
    → EndsNumber rest
    → scan (format_int n ++ rest) ≡ found (number n, rest)
unfolding format_int scan
scan-format_int (pos n) rest h e =
    scan-digits (digits 10 n []) rest (digits-IsDigit 10 n [] tt) (digits-grows 9 n []) e
    ∙ ap (λ v. found (number v, rest)) (atoi-print (pos n) h)
scan-format_int (negsuc n) rest h e =
    scan_minus-digits (digits 10 (suc n) []) rest _ (digits-IsDigit 10 (suc n) [] tt)
      (digits-grows 9 (suc n) []) e
    ∙ ap (λ v. found (number v, rest)) (atoi-print (negsuc n) h)
