-- ===== src/Libc.antt =====
-- The functions of the C library that the program calls on strings and numbers, over lists of
-- bytes: atoi, sprintf "%d", strcmp, strcasecmp, and the string that a character array holds.
pub mod Decimal
pub mod Streams
pub mod Strings
use myexpos.Prelude.{
  ℕ, zero, suc, ◌+◌, ◌-◌, ◌*◌, ◌/◌, ◌%◌, Bool, true, false, ◌&&◌, ◌||◌, List, [], ◌∷◌, ◌++◌, Bytes,
  ltb, leb, ◌==◌, if◌then◌else◌,
}
use myexpos.Prelude.Int.{ℤ, pos, negsuc, pos_part, neg_part, sub_ℕ, wrap32}

-- The string in a character array: the bytes before the first NUL. (An array with no NUL would be
-- read past its end; here the string ends with the array.)
unfoldable pub cstr : Bytes → Bytes
cstr [] = []
cstr (c ∷ s) = let rest = cstr s in if c == 0 then [] else c ∷ rest

abbrev pub is_digit : ℕ → Bool
is_digit c = leb b'0' c && leb c b'9'

-- isspace in the C locale.
abbrev pub is_space : ℕ → Bool
is_space c = c == b' ' || (leb 9 c && leb c 13)

-- The number that the leading digits of `s` spell behind `n`.
unfoldable pub leading : Bytes → ℕ → ℕ
leading [] n = n
leading (c ∷ s) n = let rest = leading s (n * 10 + (c - b'0')) in if is_digit c then rest else n

unfoldable pub skip_space : Bytes → Bytes
skip_space [] = []
skip_space (c ∷ s) = if is_space c then skip_space s else c ∷ s

unfoldable pub signed_value : Bytes → ℤ
unfolding leading
signed_value [] = pos 0
signed_value (c ∷ s) =
    if c == b'-'
    then sub_ℕ 0 (leading s 0)
    else if c == b'+'
    then pos (leading s 0)
    else pos (leading (c ∷ s) 0)

-- strtol stops at the bounds of `long`, 2^63 - 1 and -2^63.
abbrev pub clamp_long : ℤ → ℤ
clamp_long (pos n) = if ltb n 9223372036854775808 then pos n else pos 9223372036854775807
clamp_long (negsuc n) = if ltb n 9223372036854775808 then negsuc n else negsuc 9223372036854775807

-- atoi on the string of an array: strtol, cut down to `int`.
unfoldable pub atoi : Bytes → ℤ
unfolding cstr skip_space signed_value
atoi s = wrap32 (clamp_long (signed_value (skip_space (cstr s))))

-- The decimal digits of a number below 10^fuel.
unfoldable pub digits : ℕ → ℕ → Bytes → Bytes
digits zero n out = out
digits (suc fuel) n out =
    let out' = (b'0' + n % 10) ∷ out in
    let rest = digits fuel (n / 10) out' in if n / 10 == 0 then out' else rest

-- sprintf "%d": ten digits are enough for an `int`.
unfoldable pub format_int : ℤ → Bytes
unfolding digits
format_int (pos n) = digits 10 n []
format_int (negsuc n) = b'-' ∷ digits 10 (suc n) []

-- strcmp on two strings: -1, 0 or 1 as the first is before, the same as or behind the second.
unfoldable pub strcmp : Bytes → Bytes → ℤ
strcmp [] [] = pos 0
strcmp [] (d ∷ t) = negsuc 0
strcmp (c ∷ s) [] = pos 1
strcmp (c ∷ s) (d ∷ t) =
    let rest = strcmp s t in if ltb c d then negsuc 0 else if ltb d c then pos 1 else rest

-- tolower in the C locale.
abbrev pub to_lower : ℕ → ℕ
to_lower c = if leb b'A' c && leb c b'Z' then c + 32 else c

-- strcasecmp s t == 0.
unfoldable pub same_nocase : Bytes → Bytes → Bool
same_nocase [] [] = true
same_nocase [] (d ∷ t) = false
same_nocase (c ∷ s) [] = false
same_nocase (c ∷ s) (d ∷ t) = (to_lower c == to_lower d) && same_nocase s t
