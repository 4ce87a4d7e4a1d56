-- ===== src/Xfs/WriteFile/Lines.antt =====
-- A data file of short lines, as writeFileToDisk stores it and exportFile reads it.
use myexpos.Prelude.{
  Option, none, some, ◌≡◌, ◌≢◌, refl, ap, ◌∙◌, ℕ, zero, suc, ◌+◌, ◌-◌, ◌≤◌, ◌<◌, true, false, List,
  [], ◌∷◌, ◌++◌, map, Bytes, arith, leb, take, length, length-append, All,
}
use myexpos.Libc.{cstr}
use myexpos.Libc.Decimal.{IsText, cstr-IsText}
use myexpos.Libc.Streams.{newline, fgets_all, ends_line, met_eof}
use myexpos.Xfs.Layout.{block_size}
use myexpos.Xfs.State.{Virt}
use myexpos.Xfs.VirtualDisk.{store_string_value_at}
use myexpos.Xfs.VirtualDisk.Words.{
  store_string_value_at_other, store_string_value_at_same, cstr-store_string,
}
use myexpos.Xfs.Assembly.{chomp}
use myexpos.Xfs.WriteFile.{
  Written, full, ended, word_at, data_word, write_data, data_words, write_words,
}
use myexpos.Xfs.Export.{strings, as_lines}
use myexpos.Xfs.Text.{end_line, FitsBuffer, fgets_all-as_lines, end_line-IsText}

-- A line that fits a word together with its newline: 1 to 14 characters, with no NUL and no newline.
pub record IsShortLine (line : Bytes) : Type 0 where
  pub text : IsText line
  pub one_line : All (λ c. c ≢ newline) line
  pub some_text : 1 ≤ length line
  pub short : length line ≤ 14

ends_line-end_line : (line : Bytes) → ends_line (end_line line) ≡ true
unfolding ends_line
ends_line-end_line [] = refl
ends_line-end_line (c ∷ []) = refl
ends_line-end_line (c ∷ d ∷ line) = ends_line-end_line (d ∷ line)

take_front : (xs ys : Bytes) → take (length xs) (xs ++ ys) ≡ xs
take_front [] ys = refl
take_front (x ∷ xs) ys = ap (λ r. x ∷ r) (take_front xs ys)

IsShortLine-fits : (lines : List Bytes) → All IsShortLine lines → All (FitsBuffer 16) lines
IsShortLine-fits [] h = tt
IsShortLine-fits (line ∷ lines) (hl, h) = (
  record { one_line = hl.one_line; short = (let k = hl.short in omega arith) },
  IsShortLine-fits lines h,
)

data_word-end_line : (line : Bytes) → IsShortLine line → data_word (end_line line) ≡ line
unfolding data_word chomp
data_word-end_line line h =
    let l = length-append line (newline ∷ []) in
    let long : leb 2 (length (end_line line)) ≡ true = (let k = h.some_text in ground arith) in
    let less : length (end_line line) - 1 ≡ length line = omega (arith, l) in
    rw
      (
        cstr-IsText (end_line line) (end_line-IsText line h.text),
        long,
        ends_line-end_line line,
        less,
      )
      (take_front line (newline ∷ []))

not_eof : (line : Bytes) → met_eof 16 (end_line line) ≡ false
unfolding met_eof
not_eof line = rw (ends_line-end_line line) refl

-- The memory copy after the loop, with the lines in its words from `i` on, and nothing else below them.
data Holds (lines : List Bytes) (i : ℕ) (v : Virt) : Written → Type 0 where
  full_holds :
      {w : Virt} {rest : List Bytes}
      → strings (length lines) (word_at i) w ≡ lines
      → ((a : ℕ) → a < word_at i → w a ≡ v a)
      → Holds lines i v (full w rest)
  ended_holds :
      {w : Virt}
      → strings (length lines) (word_at i) w ≡ lines
      → ((a : ℕ) → a < word_at i → w a ≡ v a)
      → Holds lines i v (ended w)

abbrev stored : ℕ → Bytes → Virt → Virt
stored i line v = store_string_value_at (word_at i) line v

first_line :
    (line : Bytes) (lines : List Bytes) (i : ℕ) (v w : Virt)
    → IsText line
    → strings (length lines) (word_at (i + 1)) w ≡ lines
    → ((a : ℕ) → a < word_at (i + 1) → w a ≡ stored i line v a)
    → strings (suc (length lines)) (word_at i) w ≡ line ∷ lines
unfolding strings
first_line line lines i v w t h k =
    let here : cstr (w (word_at i)) ≡ line =
      ap cstr (k (word_at i) (omega arith) ∙ store_string_value_at_same v (word_at i) line)
      ∙ cstr-store_string (v (word_at i)) line t in
    let later : strings (length lines) (word_at i + 1) w ≡ lines =
      ap (λ b. strings (length lines) b w) {x = word_at i + 1} {y = word_at (i + 1)} (omega arith)
      ∙ h in
    rw (here, later) refl

below :
    (line : Bytes) (i a : ℕ) (v w : Virt)
    → ((b : ℕ) → b < word_at (i + 1) → w b ≡ stored i line v b)
    → a < word_at i
    → w a ≡ v a
below line i a v w h k =
    h a (omega (arith, k)) ∙ store_string_value_at_other v (word_at i) a line (ground arith)

Holds-more :
    (line : Bytes) (lines : List Bytes) (i : ℕ) (v : Virt) (r : Written)
    → IsText line
    → Holds lines (i + 1) (stored i line v) r
    → Holds (line ∷ lines) i v r
Holds-more line lines i v _ t (full_holds {w = w} h k) =
    full_holds (first_line line lines i v w t h k) (λ a l. below line i a v w k l)
Holds-more line lines i v _ t (ended_holds {w = w} h k) =
    ended_holds (first_line line lines i v w t h k) (λ a l. below line i a v w k l)

-- The buffer has a text, or a line is read into it first.
abbrev HasText : Option Bytes → List Bytes → Type 0
HasText none [] = ⊥
HasText _ _ = Unit

write_data-Holds :
    (count : ℕ) (lines : List Bytes) (text : Option Bytes) (i : ℕ) (v : Virt)
    → length lines ≤ count
    → All IsShortLine lines
    → HasText text lines
    → Holds lines i v (write_data count (map end_line lines) text i v)
unfolding write_data strings
write_data-Holds zero [] text i v h k t = full_holds refl (λ a l. refl)
write_data-Holds zero (line ∷ lines) text i v h k t = absurd (omega arith)
write_data-Holds (suc count) [] none i v h k t = absurd t
write_data-Holds (suc count) [] (some buffer) i v h k t = ended_holds refl (λ a l.
    store_string_value_at_other (stored i buffer v) (word_at i) a [] (ground arith)
    ∙ store_string_value_at_other v (word_at i) a buffer (ground arith))
write_data-Holds (suc count) (line ∷ lines) text i v h (hl, hs) t =
    rw (write_data, not_eof line, data_word-end_line line hl)
      (Holds-more line lines i v
        (write_data count (map end_line lines) (some line) (i + 1) (stored i line v)) hl.text
        (write_data-Holds count lines (some line) (i + 1) (stored i line v) (omega arith) hs tt))

nonempty-HasText : (lines : List Bytes) → 1 ≤ length lines → HasText none lines
nonempty-HasText [] h = absurd (omega arith)
nonempty-HasText (line ∷ lines) h = tt

-- The words of the temporary block, where the loop has come out and no buffer has overflowed.
pub data Stores (lines : List Bytes) : Written → Type 0 where
  stores_full :
      {v : Virt} {rest : List Bytes}
      → strings (length lines) (word_at 0) v ≡ lines
      → Stores lines (full v rest)
  stores_ended : {v : Virt} → strings (length lines) (word_at 0) v ≡ lines → Stores lines (ended v)

Holds-Stores : (lines : List Bytes) (v : Virt) (r : Written) → Holds lines 0 v r → Stores lines r
Holds-Stores lines v _ (full_holds h k) = stores_full h
Holds-Stores lines v _ (ended_holds h k) = stores_ended h

-- A text of 1 to 512 lines, each ended by a newline, of 1 to 14 characters that are neither a NUL nor
-- a newline: what storing it as a data file puts in the words of the block is, read as exporting reads
-- them, the same lines.
pub strings-write_words :
    (lines : List Bytes) (v : Virt)
    → 1 ≤ length lines
    → length lines ≤ block_size
    → All IsShortLine lines
    → Stores lines (write_words data_words (fgets_all 16 (as_lines lines)) v)
unfolding write_words
strings-write_words lines v one h k = rw (fgets_all-as_lines 16 lines (IsShortLine-fits lines k)) (
    Holds-Stores lines v (write_data block_size (map end_line lines) none 0 v)
      (write_data-Holds block_size lines none 0 v h k (nonempty-HasText lines one)))
