-- ===== src/Xfs/Text.antt =====
-- Texts made of lines, as fgets reads them: for the data files of diskUtility.c and the programs of
-- labels.c, in xfs-interface/.
use myexpos.Prelude.{
  ◌≡◌, ◌≢◌, refl, ap, ◌∙◌, ℕ, ◌+◌, ◌-◌, ◌≤◌, ◌<◌, ◌||◌, false, List, [], ◌∷◌, ◌++◌, map, Bytes,
  arith, leb, ◌==◌, length, All,
}
use myexpos.Libc.Decimal.{IsText}
use myexpos.Libc.Streams.{newline, pieces, fgets_all}
use myexpos.Xfs.Export.{as_lines}

abbrev pub end_line : Bytes → Bytes
end_line line = line ++ newline ∷ []

-- A line that a buffer of `size` characters holds with its newline and the NUL.
pub record FitsBuffer (size : ℕ) (line : Bytes) : Type 0 where
  pub one_line : All (λ c. c ≢ newline) line
  pub short : length line + 2 ≤ size

pieces_line :
    (line rest : Bytes) (room full : ℕ)
    → All (λ c. c ≢ newline) line
    → length line < room
    → pieces room full (line ++ newline ∷ rest) ≡ end_line line ∷ pieces full full rest
unfolding pieces
pieces_line [] rest room full h k = refl
pieces_line (c ∷ line) rest room full (hc, h) k =
    let go_on : (c == newline || leb room 1) ≡ false = ground arith in
    let tail = pieces_line line rest (room - 1) full h (omega (arith, k)) in rw (go_on, tail) refl

-- Such lines are read one by one.
pub fgets_all-as_lines :
    (size : ℕ) (lines : List Bytes)
    → All (FitsBuffer size) lines
    → fgets_all size (as_lines lines) ≡ map end_line lines
unfolding fgets_all pieces
fgets_all-as_lines size [] h = refl
fgets_all-as_lines size (line ∷ lines) (hl, h) =
    pieces_line line (as_lines lines) (size - 1) (size - 1) hl.one_line
      (let k = hl.short in omega arith)
    ∙ ap (λ r. end_line line ∷ r) (fgets_all-as_lines size lines h)

pub end_line-IsText : (line : Bytes) → IsText line → IsText (end_line line)
end_line-IsText [] h = (omega arith, tt)
end_line-IsText (c ∷ line) (hc, h) = (hc, end_line-IsText line h)
