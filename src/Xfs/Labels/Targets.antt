-- ===== src/Xfs/Labels/Targets.antt =====
-- Phase one of xfs-interface/labels.c, on a program: where each label points.
use myexpos.Prelude.{
  ◌≡◌, ◌≢◌, map, refl, sym, ap, ◌∙◌, ℕ, ◌*◌, true, false, ◌==◌, some, List, [], ◌∷◌, ◌++◌, Bytes,
  arith, All,
}
use myexpos.Libc.Decimal.{IsText, cstr-IsText}
use myexpos.Libc.Streams.{newline}
use myexpos.Xfs.Export.{as_lines}
use myexpos.Xfs.Text.{end_line, FitsBuffer, fgets_all-as_lines, end_line-IsText}
use myexpos.Xfs.Labels.{
  Label, labels_is_label, labels_get_name, labels_get_target, text_of, phase_one_lines,
  remove_newline_character, labels_phase_one,
}
use myexpos.Xfs.Labels.Pieces.{Defines, count_if, instructions, target_in_pieces}

-- A line of a program: it fits the buffer of phase one, and has no NUL.
pub record IsProgramLine (line : Bytes) : Type 0 where
  pub text : IsText line
  pub fits : FitsBuffer 33 line

-- A line that is a label of that name, and the lines that are instructions.
pub record IsLabelLine (name line : Bytes) : Type 0 where
  pub is_label : labels_is_label line ≡ some true
  pub named : labels_get_name line ≡ some name

unfoldable pub instruction_count : List Bytes → ℕ
instruction_count [] = 0
instruction_count (line ∷ lines) = count_if (labels_is_label line) (instruction_count lines)

remove_newline_character-end_line :
    (line : Bytes) → All (λ c. c ≢ newline) line → remove_newline_character (end_line line) ≡ line
unfolding remove_newline_character
remove_newline_character-end_line [] h = refl
remove_newline_character-end_line (c ∷ line) (hc, h) =
    let other : (c == newline) ≡ false = ground arith in
    rw (other, remove_newline_character-end_line line h) refl

text_of-end_line : (line : Bytes) → IsProgramLine line → text_of (end_line line) ≡ line
unfolding text_of
text_of-end_line line h =
    rw (cstr-IsText (end_line line) (end_line-IsText line h.text))
      (remove_newline_character-end_line line h.fits.one_line)

instructions-end_line :
    (lines : List Bytes)
    → All IsProgramLine lines
    → instructions (map end_line lines) ≡ instruction_count lines
unfolding instructions instruction_count
instructions-end_line [] h = refl
instructions-end_line (line ∷ lines) (hl, h) =
    rw (text_of-end_line line hl, instructions-end_line lines h) refl

Defines-end_line :
    (name line : Bytes) → IsProgramLine line → IsLabelLine name line → Defines name (end_line line)
Defines-end_line name line h d = record {
  is_label = rw (text_of-end_line line h) d.is_label;
  named = rw (text_of-end_line line h) d.named;
}

no_Defines-end_line :
    (name : Bytes) (lines : List Bytes)
    → All IsProgramLine lines
    → All (λ l. ¬ IsLabelLine name l) lines
    → All (λ l. ¬ Defines name l) (map end_line lines)
no_Defines-end_line name [] h d = tt
no_Defines-end_line name (line ∷ lines) (hl, h) (dl, d) = (
  (λ e. dl (record {
    is_label = ap labels_is_label (sym (text_of-end_line line hl)) ∙ e.is_label;
    named = ap labels_get_name (sym (text_of-end_line line hl)) ∙ e.named;
  })),
  no_Defines-end_line name lines h d,
)

fits_all : (lines : List Bytes) → All IsProgramLine lines → All (FitsBuffer 33) lines
fits_all [] h = tt
fits_all (line ∷ lines) (hl, h) = (hl.fits, fits_all lines h)

map-middle :
    (before after : List Bytes) (line : Bytes)
    → map end_line (before ++ line ∷ after)
      ≡ map end_line before ++ end_line line ∷ map end_line after
map-middle [] after line = refl
map-middle (l ∷ before) after line = ap (λ r. end_line l ∷ r) (map-middle before after line)

All-middle :
    (before after : List Bytes) (line : Bytes)
    → All IsProgramLine (before ++ line ∷ after)
    → All IsProgramLine before × (IsProgramLine line × All IsProgramLine after)
All-middle [] after line h = (tt, h)
All-middle (l ∷ before) after line (hl, h) =
    let (b, r) = All-middle before after line h in ((hl, b), r)

-- Let a program consist of lines of at most 31 characters, none a NUL or a newline, each ended by a
-- newline. Where phase one gets through it, a label that is defined in a line, and in no later one, gets the
-- address behind the instructions before that line, at two words for each.
pub labels_get_target-labels_phase_one :
    (before after : List Bytes) (line name : Bytes) (labels : List Label)
    → All IsProgramLine (before ++ line ∷ after)
    → labels_phase_one (as_lines (before ++ line ∷ after)) ≡ some labels
    → IsLabelLine name line
    → All (λ l. ¬ IsLabelLine name l) after
    → labels_get_target labels name ≡ some (2 * instruction_count before)
unfolding labels_phase_one
labels_get_target-labels_phase_one before after line name labels h e d ds =
    let (hb, hr) = All-middle before after line h in
    let read =
      fgets_all-as_lines 33 (before ++ line ∷ after) (fits_all (before ++ line ∷ after) h)
      ∙ map-middle before after line in
    let run : phase_one_lines (map end_line before ++ end_line line ∷ map end_line after) 0 []
        ≡ some labels =
      ap (λ l. phase_one_lines l 0 []) (sym read) ∙ e in
    target_in_pieces (map end_line before) (map end_line after) (end_line line) name labels run
      (Defines-end_line name line (hr.0) d) (no_Defines-end_line name after (hr.1) ds)
    ∙ ap (λ n. some (2 * n)) (instructions-end_line before hb)
