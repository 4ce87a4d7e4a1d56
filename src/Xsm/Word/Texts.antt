-- ===== src/Xsm/Word/Texts.antt =====
-- Strings in words, and the type of a word's content.
use myexpos.Prelude.{
  ℕ, zero, suc, ◌<◌, ◌≡◌, ◌↔◌, refl, ap, [], ◌∷◌, ◌++◌, arith, Bytes, All, length, take, replicate,
  length-take, length-append, length-replicate, ◌==◌, ◌||◌, if◌then◌else◌, Bool-cases, inl, inr,
}
use myexpos.Libc.{cstr}
use myexpos.Libc.Decimal.{IsDigit, IsText, cstr-append}
use myexpos.Xsm.Word.{
  Word, word_size, integer, word_get_string, word_store_string, word_encrypt, word_get_unix_type,
  scan_type, scan_signed, sum_chars,
}
use myexpos.Xsm.Word.Numbers.{length-word_store_integer}
use myexpos.Prelude.Int.{pos}

cstr_text : (s : Bytes) → IsText s → cstr s ≡ s
unfolding cstr
cstr_text [] h = refl
cstr_text (c ∷ s) (hc, hs) = ground (arith, cstr_text s hs)

-- Cut to a size, a shorter text is still followed by a NUL.
take_text :
    (s : Bytes) (n m : ℕ)
    → length s < n
    → (t : Bytes) × (take n (s ++ replicate (suc m) 0) ≡ s ++ 0 ∷ t)
take_text [] zero m h = elim h [ ]
take_text [] (suc n) m h = (take n (replicate m 0), refl)
take_text (c ∷ s) zero m h = elim h [ ]
take_text (c ∷ s) (suc n) m h =
    let (t, e) = take_text s n m (omega arith) in (t, ap (λ (r : Bytes). c ∷ r) e)

-- A string of fewer than 16 characters, none of them NUL, is read back unchanged from the word
-- that it is stored in.
pub word_get_string-word_store_string :
    (w : Word) (s : Bytes)
    → IsText s
    → length s < word_size
    → word_get_string (word_store_string w s) ≡ s
unfolding word_get_string word_store_string
word_get_string-word_store_string w s h k =
    let (t, e) = take_text s word_size 15 k in rw (cstr_text s h, e) (cstr-append s t h)

pub length-word_store_string : (w : Word) (s : Bytes) → length (word_store_string w s) ≡ word_size
unfolding word_store_string
length-word_store_string w s = omega (
  arith,
  length-take word_size (cstr s ++ replicate word_size 0),
  length-append (cstr s) (replicate word_size 0),
  length-replicate {A = ℕ} word_size 0,
)

pub length-word_encrypt : (w : Word) → length w ≡ word_size → length (word_encrypt w) ≡ word_size
unfolding word_encrypt
length-word_encrypt w h = length-word_store_integer w (sum_chars w (pos 0)) h

-- The text behind one leading sign.
abbrev pub unsigned : Bytes → Bytes
unsigned [] = []
unsigned (c ∷ s) = if (c == b'+') || (c == b'-') then s else c ∷ s

scan_type_iff : (s : Bytes) → (scan_type s ≡ integer) ↔ All IsDigit s
unfolding scan_type
scan_type_iff [] = ((λ _. tt), λ _. refl)
scan_type_iff (c ∷ s) = ground (arith, scan_type_iff s)

scan_signed_iff : (s : Bytes) → (scan_signed s ≡ integer) ↔ All IsDigit (unsigned s)
unfolding scan_signed
scan_signed_iff [] = ((λ _. tt), λ _. refl)
scan_signed_iff (c ∷ s) = elim (Bool-cases ((c == b'+') || (c == b'-'))) [
  | inl e ↦ rw e (scan_type_iff s)
  | inr e ↦ rw e (scan_type_iff (c ∷ s))
]

-- A word is of the integer type exactly if its string is digits behind at most one sign.
pub word_get_unix_type-integer_iff :
    (w : Word) → (word_get_unix_type w ≡ integer) ↔ All IsDigit (unsigned (word_get_string w))
unfolding word_get_unix_type word_get_string
word_get_unix_type-integer_iff w = scan_signed_iff (cstr w)
