-- ===== src/Libc/Streams.antt =====
-- More of the C library: fgets on a file that is read from its start, strtok, strchr and strrchr.
use myexpos.Prelude.{
  ℕ, ◌-◌, Bool, false, ◌&&◌, ◌||◌, not, Option, none, some, List, [], ◌∷◌, Bytes, ltb, leb, ◌==◌,
  if◌then◌else◌, length,
}

abbrev pub newline : ℕ
newline = 10

abbrev attach : ℕ → List Bytes → List Bytes
attach c [] = (c ∷ []) ∷ []
attach c (line ∷ lines) = (c ∷ line) ∷ lines

-- The pieces of a text: each ends with a newline, or after `full` characters; `room` are left of the
-- first.
unfoldable pub pieces : ℕ → ℕ → Bytes → List Bytes
pieces room full [] = []
pieces room full (c ∷ s) =
    let end = c == newline || leb room 1 in
    let rest = pieces (if end then full else room - 1) full s in
    if end then (c ∷ []) ∷ rest else attach c rest

-- What successive calls of fgets with a buffer of `size` characters read.
unfoldable pub fgets_all : ℕ → Bytes → List Bytes
unfolding pieces
fgets_all size file = pieces (size - 1) (size - 1) file

unfoldable pub ends_line : Bytes → Bool
ends_line [] = false
ends_line (c ∷ []) = c == newline
ends_line (c ∷ d ∷ s) = ends_line (d ∷ s)

-- Whether fgets met the end of the file while it read a piece.
unfoldable pub met_eof : ℕ → Bytes → Bool
unfolding ends_line
met_eof size line = not (ends_line line) && ltb (length line) (size - 1)

-- The front of a text before a character, and what follows that character.
unfoldable pub split_at : ℕ → Bytes → Bytes × Bytes
split_at d [] = ([], [])
split_at d (c ∷ s) = let (a, r) = split_at d s in if c == d then ([], s) else (c ∷ a, r)

unfoldable pub skip : ℕ → Bytes → Bytes
skip d [] = []
skip d (c ∷ s) = if c == d then skip d s else c ∷ s

abbrev nonempty : Bytes × Bytes → Option (Bytes × Bytes)
nonempty ([], r) = none
nonempty (c ∷ s, r) = some (c ∷ s, r)

-- strtok with one delimiter: the token and where the next call goes on.
unfoldable pub strtok : ℕ → Bytes → Option (Bytes × Bytes)
unfolding split_at skip
strtok d s = nonempty (split_at d (skip d s))

-- The string from the first occurrence of a character on.
unfoldable pub strchr : ℕ → Bytes → Option Bytes
strchr d [] = none
strchr d (c ∷ s) = let rest = strchr d s in if c == d then some (c ∷ s) else rest

-- The part of a text behind the last occurrence of a character, all of it if there is none.
unfoldable pub behind_last : ℕ → Bytes → Bytes → Bytes
behind_last d [] found = found
behind_last d (c ∷ s) found = behind_last d s (if c == d then s else found)
