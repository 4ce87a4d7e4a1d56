-- ===== src/Xsm/Lexer.antt =====
-- xsm/parse.l: the token that the lexer finds next in its buffer. The rules take the longest match,
-- and the first rule of those that match as much. (A newline, which no rule matches, is passed over
-- like the other characters that the last rule skips; the lexer also echoes it.)
pub mod Numbers
mod Tests
use myexpos.Prelude.{
  ◌≡◌, refl, ℕ, Bool, true, false, ◌&&◌, ◌||◌, not, List, [], ◌∷◌, ◌++◌, Bytes, codes, leb, ◌==◌,
  if◌then◌else◌,
}
use myexpos.Prelude.Int.{negsuc, wrap32}
use myexpos.Libc.{cstr, is_digit, atoi}
use myexpos.Xsm.State.{Token, register, number, string, dref_l, dref_r, comma, instruction}

abbrev pub is_alpha : ℕ → Bool
is_alpha c = (leb b'a' c && leb c b'z') || (leb b'A' c && leb c b'Z')

-- The longest front of a text whose characters pass a test, and the rest.
unfoldable pub span : (ℕ → Bool) → Bytes → Bytes × Bytes
span p [] = ([], [])
span p (c ∷ s) = let (a, r) = span p s in if p c then (c ∷ a, r) else ([], c ∷ s)

unfoldable pub same : Bytes → Bytes → Bool
same [] [] = true
same [] (d ∷ t) = false
same (c ∷ s) [] = false
same (c ∷ s) (d ∷ t) = (c == d) && same s t

unfoldable pub any_same : List Bytes → Bytes → Bool
unfolding same
any_same [] s = false
any_same (n ∷ names) s = same s n || any_same names s

-- SP|BP|IP|PTBR|PTLR|EIP|EC|EPN|EMA
abbrev named_registers : List Bytes
named_registers =
    codes "SP"
    ∷ codes "BP"
    ∷ codes "IP"
    ∷ codes "PTBR"
    ∷ codes "PTLR"
    ∷ codes "EIP"
    ∷ codes "EC"
    ∷ codes "EPN"
    ∷ codes "EMA"
    ∷ []

-- Letters: one of the names is a register, all others are an instruction.
unfoldable pub letters : Bytes × Bytes → Token × Bytes
unfolding any_same
letters (w, r) = (if any_same named_registers w then register w else instruction w, r)

-- P[0-3]
unfoldable pub scan_port : ℕ → Bytes → Token × Bytes
unfolding span letters
scan_port c [] = letters (span is_alpha (c ∷ []))
scan_port c (d ∷ s) =
    if leb b'0' d && leb d b'3'
    then (register (c ∷ d ∷ []), s)
    else letters (span is_alpha (c ∷ d ∷ s))

-- R[0-9]+
unfoldable pub scan_general : ℕ → Bytes → Token × Bytes
unfolding span letters
scan_general c [] = letters (span is_alpha (c ∷ []))
scan_general c (d ∷ s) =
    if is_digit d
    then (let (ds, r) = span is_digit (d ∷ s) in (register (c ∷ ds), r))
    else letters (span is_alpha (c ∷ d ∷ s))

-- A token that begins with the letter `c`.
unfoldable pub scan_word : ℕ → Bytes → Token × Bytes
unfolding scan_port scan_general
scan_word c s =
    if c == b'R'
    then scan_general c s
    else if c == b'P'
    then scan_port c s
    else letters (span is_alpha (c ∷ s))

-- `open_string` is a string token that the buffer ends in, with what it holds so far; `exhausted` is
-- a buffer with no token left.
pub data Scan : Type 0 where
  found : Token × Bytes → Scan
  open_string : Bytes → Scan
  exhausted : Scan

-- "[^"]* : the token ends before the closing quote, which is where the lexer reads on.
unfoldable pub scan_string : Bytes × Bytes → Scan
unfolding cstr
scan_string (body, []) = open_string body
scan_string (body, q ∷ r) = found (string (cstr body), q ∷ r)

unfoldable pub scan_digits : Bytes → Bytes × Bytes → Scan
unfolding atoi
scan_digits sign (ds, r) = found (number (atoi (sign ++ ds)), r)

-- -?[0-9]+ behind a minus sign; a sign with no digit is skipped.
unfoldable pub scan_minus : Bytes → Scan → Scan
unfolding span scan_digits
scan_minus [] skipped = skipped
scan_minus (d ∷ s) skipped =
    if is_digit d then scan_digits (b'-' ∷ []) (span is_digit (d ∷ s)) else skipped

unfoldable pub scan : Bytes → Scan
unfolding span scan_digits scan_string scan_minus scan_word
scan [] = exhausted
scan (c ∷ s) =
    let skipped = scan s in
    if is_digit c
    then scan_digits [] (span is_digit (c ∷ s))
    else if c == b'-'
    then scan_minus s skipped
    else if c == b'"'
    then scan_string (span (λ d. not (d == b'"')) s)
    else if c == b','
    then found (comma, s)
    else if c == b'['
    then found (dref_l, s)
    else if c == b']'
    then found (dref_r, s)
    else if is_alpha c
    then found (scan_word c s)
    else skipped

-- YY_INPUT's buffer ends a string token that an earlier buffer left open; without a quote in it the
-- lexer asks for more, and is served the same bytes.
unfoldable pub scan_close : Bytes → Bytes → Scan
unfolding span scan_string
scan_close front buffer =
    let (body, r) = span (λ d. not (d == b'"')) buffer in scan_string (front ++ body, r)

scan_mov : scan (codes "MOV R10, -12") ≡ found (instruction (codes "MOV"), codes " R10, -12")
unfolding scan
scan_mov = refl

scan_operands :
    (scan (codes " R10, -12") ≡ found (register (codes "R10"), codes ", -12"))
    × (scan (codes " -12") ≡ found (number (negsuc 11), []))
    × (scan (codes " SP") ≡ found (register (codes "SP"), []))
    × (scan (codes "P3,") ≡ found (register (codes "P3"), codes ","))
    × (scan (codes "PUSH R1") ≡ found (instruction (codes "PUSH"), codes " R1"))
    × (scan (codes "[PTBR]") ≡ found (dref_l, codes "PTBR]"))
unfolding scan wrap32
scan_operands = (refl, refl, refl, refl, refl, refl)
