-- ===== src/Xfs/Labels.antt =====
-- xfs-interface/labels.c: the labels of a program are replaced by addresses, in two phases over its
-- lines.
pub mod Pieces
pub mod Targets
use myexpos.Prelude.{
  ◌≡◌, refl, ℕ, suc, ◌+◌, ◌-◌, ◌*◌, Bool, true, false, ◌&&◌, ◌||◌, not, Option, none, some, List,
  [], ◌∷◌, ◌++◌, Bytes, codes, ltb, leb, ◌==◌, if◌then◌else◌, length, take,
}
use myexpos.Prelude.Int.{ℤ, pos, negsuc, eq_ℤ}
use myexpos.Libc.{cstr, strcmp, same_nocase, format_int}
use myexpos.Libc.Streams.{newline, fgets_all, split_at, skip, strtok}
use myexpos.Xsm.Lexer.{is_alpha}

pub record Label : Type 0 where
  pub name : Bytes
  pub address : ℕ

-- remove_newline_character.
unfoldable pub remove_newline_character : Bytes → Bytes
remove_newline_character [] = []
remove_newline_character (c ∷ s) =
    let rest = remove_newline_character s in if c == newline then [] else c ∷ rest

-- labels_is_label: the last character is a colon. For an empty string the character before it is
-- read, which is `none`.
unfoldable pub labels_is_label : Bytes → Option Bool
labels_is_label [] = none
labels_is_label (c ∷ []) = some (c == b':')
labels_is_label (c ∷ d ∷ s) = labels_is_label (d ∷ s)

unfoldable pub labels_is_charstring : Option Bytes → Bool
labels_is_charstring none = false
labels_is_charstring (some []) = false
labels_is_charstring (some (c ∷ s)) = is_alpha c || labels_is_charstring (some s)

abbrev token_of : Option (Bytes × Bytes) → Option Bytes
token_of none = none
token_of (some (t, r)) = some t

-- `none`: strtok finds no token, and strdup is given its null pointer.
unfoldable pub labels_get_name : Bytes → Option Bytes
unfolding strtok
labels_get_name label = token_of (strtok b':' label)

-- The newest label with the name; `none` is XFS_FAILURE.
unfoldable pub labels_get_target : List Label → Bytes → Option ℕ
unfolding strcmp
labels_get_target [] name = none
labels_get_target (l ∷ labels) name =
    let rest = labels_get_target labels name in
    if eq_ℤ (strcmp l.name name) (pos 0) then some l.address else rest

abbrev pub labels_insert : Bytes → ℕ → List Label → List Label
labels_insert name address labels = record { name = name; address = address } ∷ labels

-- The string of a line that fgets read, less its newline.
unfoldable pub text_of : Bytes → Bytes
unfolding remove_newline_character cstr
text_of line = remove_newline_character (cstr line)

-- One round of the loop of labels_phase_one: the address of the next instruction, and the labels.
unfoldable pub collect : Option Bool → Bytes → ℕ → List Label → Option (ℕ × List Label)
collect none line address labels = none
collect (some true) line address labels = elim (labels_get_name line) [
  | none ↦ none
  | some name ↦ some (address, labels_insert name address labels)
]
collect (some false) line address labels = some (address + 2, labels)

-- The loop over the lines; `none` is what C gives no meaning to.
unfoldable pub phase_one_lines : List Bytes → ℕ → List Label → Option (List Label)
unfolding collect text_of labels_is_label
phase_one_lines [] address labels = some labels
phase_one_lines (line ∷ lines) address labels =
    elim (collect (labels_is_label (text_of line)) (text_of line) address labels) [
      | none ↦ none
      | some (a, ls) ↦ phase_one_lines lines a ls
    ]

-- `ins_length`: two words and a NUL.
abbrev pub ins_length : ℕ
ins_length = 33

unfoldable pub labels_phase_one : Bytes → Option (List Label)
unfolding phase_one_lines fgets_all
labels_phase_one source = phase_one_lines (fgets_all ins_length source) 0 []

-- strtok with the two delimiters of phase two, a blank and a comma.
abbrev is_separator : ℕ → Bool
is_separator c = c == b' ' || c == b','

unfoldable pub skip_separators : Bytes → Bytes
skip_separators [] = []
skip_separators (c ∷ s) = if is_separator c then skip_separators s else c ∷ s

unfoldable pub until_separator : Bytes → Bytes × Bytes
until_separator [] = ([], [])
until_separator (c ∷ s) =
    let (a, r) = until_separator s in if is_separator c then ([], s) else (c ∷ a, r)

abbrev nonempty : Bytes × Bytes → Option (Bytes × Bytes)
nonempty ([], r) = none
nonempty (c ∷ s, r) = some (c ∷ s, r)

unfoldable pub next_operand : Option (Bytes × Bytes) → Option (Bytes × Bytes)
unfolding skip_separators until_separator
next_operand none = none
next_operand (some (t, r)) = nonempty (until_separator (skip_separators r))

-- A line with a label resolved, unchanged, or without an address for its label.
pub data Resolved : Type 0 where
  line_out : Bytes → Resolved
  unresolved : Resolved

-- fprintf of a jump with its target.
abbrev jump_line : Bytes → Bytes → Bytes → Option ℕ → ℕ → Resolved
jump_line opcode leftop sep none base = unresolved
jump_line opcode leftop sep (some address) base =
    line_out
      (opcode ++ codes " " ++ leftop ++ sep ++ format_int (pos (address + base)) ++ codes "\n")

abbrev resolve_target : Bytes → Bytes → Bytes → Bytes → Option Bytes → List Label → ℕ → Resolved
resolve_target line opcode leftop sep none labels base = line_out (line ++ codes "\n")
resolve_target line opcode leftop sep (some target) labels base =
    if labels_is_charstring (some target)
    then jump_line opcode leftop sep (labels_get_target labels target) base
    else line_out (line ++ codes "\n")

abbrev or_empty : Option Bytes → Bytes
or_empty none = []
or_empty (some s) = s

unfoldable pub resolve_tokens :
    Bytes → Bytes → Option Bytes → Option Bytes → List Label → ℕ → Resolved
unfolding labels_is_charstring labels_get_target same_nocase format_int
resolve_tokens line opcode leftop rightop labels base =
    if same_nocase opcode (codes "JMP") || same_nocase opcode (codes "CALL")
    then resolve_target line opcode [] [] leftop labels base
    else if same_nocase opcode (codes "JNZ") || same_nocase opcode (codes "JZ")
    then resolve_target line opcode (or_empty leftop) (codes ", ") rightop labels base
    else line_out (line ++ codes "\n")

-- The tokens of a line. One of blanks and commas alone has no opcode, and strcasecmp is given a null
-- pointer.
unfoldable pub resolve_line : Bytes → List Label → ℕ → Option Resolved
unfolding resolve_tokens next_operand
resolve_line line labels base =
    let opcode = next_operand (some ([], line)) in
    let leftop = next_operand opcode in
    let rightop = next_operand leftop in
    elim opcode [
      | none ↦ none
      | some (op, _) ↦
          some (resolve_tokens line op (token_of leftop) (token_of rightop) labels base)
    ]

-- What phase two has written, and whether it went through the whole source.
pub data Output : Type 0 where
  complete stopped : Bytes → Output

abbrev pub prepend : Bytes → Option Output → Option Output
prepend s none = none
prepend s (some (complete r)) = some (complete (s ++ r))
prepend s (some (stopped r)) = some (stopped (s ++ r))

unfoldable pub phase_two_lines : List Bytes → List Label → ℕ → Option Output
unfolding resolve_line labels_is_label
phase_two_lines [] labels base = some (complete [])
phase_two_lines (line ∷ lines) labels base = elim (labels_is_label (text_of line)) [
  | none ↦ none
  | some true ↦ phase_two_lines lines labels base
  | some false ↦ elim (resolve_line (text_of line) labels base) [
    | none ↦ none
    | some unresolved ↦ some (stopped [])
    | some (line_out s) ↦ prepend s (phase_two_lines lines labels base)
  ]
]

unfoldable pub labels_phase_two : Bytes → List Label → ℕ → Option Output
unfolding phase_two_lines fgets_all
labels_phase_two source labels base = phase_two_lines (fgets_all 100 source) labels base

-- labels_reset and labels_resolve: what the temporary file holds afterwards. Its name, which is
-- random, plays no part.
unfoldable pub labels_resolve : Bytes → ℕ → Option Output
unfolding labels_phase_one labels_phase_two
labels_resolve source base = elim (labels_phase_one source) [
  | none ↦ none
  | some labels ↦ labels_phase_two source labels base
]
