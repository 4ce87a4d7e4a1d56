-- ===== src/Xfs/Assembly.antt =====
-- One line of a program as writeFileToDisk of xfs-interface/diskUtility.c puts it into words.
use myexpos.Prelude.{
  ◌+◌, ◌-◌, Bool, false, ◌&&◌, not, Option, none, some, [], ◌∷◌, ◌++◌, Bytes, codes, leb,
  if◌then◌else◌, length, take,
}
use myexpos.Libc.{cstr, is_digit}
use myexpos.Libc.Streams.{ends_line, strtok, strchr}
use myexpos.Xfs.Names.{trim}

-- What becomes of a line: nothing, one or two words, or a text that is too long for a buffer, where C
-- writes past its end.
pub data Assembled : Type 0 where
  nothing overflow : Assembled
  one_word : Bytes → Assembled
  two_words : Bytes → Bytes → Assembled

-- The part of the line that is copied to `buffer`, which has 32 characters. A string that is too long
-- for its word is cut and closed with a quote.
unfoldable pub cut_string : Bytes → Option Bytes → Option Bytes
cut_string temp none = some (take 31 temp)
cut_string temp (some string_start) =
    let k = length temp - length string_start + 15 in
    if leb (length string_start) 16
    then some (take 31 temp)
    else if leb k 31
    then some (take (k - 1) temp ++ codes "\"")
    else none

-- A newline at the end is taken off.
unfoldable pub chomp : Bytes → Bytes
unfolding ends_line
chomp buffer = if ends_line buffer then take (length buffer - 1) buffer else buffer

-- sprintf into `s` and strcpy from there: 16 characters with the NUL.
abbrev fits_word : Bytes → Bool
fits_word s = leb (length s) 15

-- `Instr`, `Arg1` and `Arg2` have 20 characters.
abbrev fits_part : Bytes → Bool
fits_part s = leb (length s) 19

abbrev starts_with_digit : Bytes → Bool
starts_with_digit [] = false
starts_with_digit (c ∷ s) = is_digit c

abbrev if_fits : Bytes → Assembled → Assembled
if_fits s a = if fits_word s then a else overflow

-- The words of an instruction with its first argument, which has its comma by now, and its second.
unfoldable pub instruction_words : Bytes → Bytes → Bytes → Assembled
instruction_words instr arg1 arg2 =
    if fits_word (instr ++ codes " " ++ arg1) && fits_word arg2
    then two_words (instr ++ codes " " ++ arg1) arg2
    else overflow

-- strtok(NULL, "\0"): what is left, if anything is.
unfoldable pub second_argument : Bytes → Bytes → Bytes → Assembled
unfolding instruction_words trim
second_argument instr arg1 [] = instruction_words (trim instr) (trim arg1) []
second_argument instr arg1 (c ∷ arg2) =
    if fits_part (c ∷ arg2) && fits_part (trim arg1 ++ codes ",")
    then instruction_words (trim instr) (trim arg1 ++ codes ",") (trim (c ∷ arg2))
    else overflow

-- A word for a line that begins with a digit. The buffers of its arguments are filled all the same.
unfoldable pub number_word : Bytes → Bytes → Bytes → Assembled
number_word instr arg1 [] = if_fits instr (one_word instr)
number_word instr arg1 (c ∷ arg2) =
    if fits_part (c ∷ arg2) && fits_part (arg1 ++ codes ",")
    then if_fits instr (one_word instr)
    else overflow

unfoldable pub arguments : Bytes → Option (Bytes × Bytes) → Assembled
unfolding trim second_argument number_word
arguments instr none =
    if starts_with_digit (trim instr)
    then if_fits (trim instr) (one_word (trim instr))
    else if_fits instr (two_words instr [])
arguments instr (some (arg1, rest)) =
    if not (fits_part arg1)
    then overflow
    else if starts_with_digit (trim instr)
    then number_word (trim instr) (trim arg1) rest
    else second_argument instr arg1 rest

unfoldable pub instruction_parts : Option (Bytes × Bytes) → Assembled
unfolding arguments strtok
instruction_parts none = nothing
instruction_parts (some (instr, rest)) =
    if fits_part instr then arguments instr (strtok b',' rest) else overflow

unfoldable pub assemble_buffer : Option Bytes → Assembled
unfolding instruction_parts chomp strtok
assemble_buffer none = overflow
assemble_buffer (some buffer) =
    if leb (length buffer) 1 then nothing else instruction_parts (strtok b' ' (chomp buffer))

-- What the line that fgets read gives.
unfoldable pub assemble_line : Bytes → Assembled
unfolding assemble_buffer cut_string strchr cstr
assemble_line line = let temp = cstr line in assemble_buffer (cut_string temp (strchr b'"' temp))
