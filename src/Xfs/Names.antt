-- ===== src/Xfs/Names.antt =====
-- The functions of xfs-interface/diskUtility.c on text: trim, addext and expandpath.
pub mod Extension
use myexpos.Prelude.{
  ℕ, ◌+◌, ◌-◌, Bool, true, false, ◌&&◌, ◌||◌, not, Option, none, some, List, [], ◌∷◌, ◌++◌, Bytes,
  codes, ltb, leb, ◌==◌, if◌then◌else◌, length, take, drop,
}
use myexpos.Prelude.Int.{pos, eq_ℤ}
use myexpos.Libc.{cstr, strcmp, is_space, skip_space}
use myexpos.Libc.Streams.{split_at, strchr}

abbrev is_empty : Bytes → Bool
is_empty [] = true
is_empty (c ∷ s) = false

-- The second loop of trim, from the end back. (It keeps one character, which is no space then.)
unfoldable pub trim_end : Bytes → Bytes
trim_end [] = []
trim_end (c ∷ s) = let rest = trim_end s in if is_space c && is_empty rest then [] else c ∷ rest

unfoldable pub trim : Bytes → Bytes
unfolding trim_end skip_space
trim str = trim_end (skip_space str)

-- strcpy(filename + 11, ext).
abbrev cut_ext : Bytes → Bytes → Bytes
cut_ext filename ext = take 11 filename ++ ext

-- addext. A name of fewer than four characters is compared from before its start, which is `none`.
unfoldable pub addext : Bytes → Bytes → Option Bytes
unfolding strcmp
addext filename ext =
    if leb 16 (length filename)
    then some (cut_ext filename ext)
    else if ltb (length filename) 4
    then none
    else if eq_ℤ (strcmp (drop (length filename - 4) filename) ext) (pos 0)
    then some filename
    else some (
        if leb 16 (length (filename ++ ext))
        then cut_ext (filename ++ ext) ext
        else filename ++ ext)

abbrev or_text : Option Bytes → Bytes → Bytes
or_text none text = text
or_text (some value) text = value

-- The first component of a path, less its first character, is looked up in the environment. An empty
-- component is stepped over to the text behind it, and `none` is an empty path, which has none.
unfoldable pub expand_from : (Bytes → Option Bytes) → Bytes → Option Bytes → Option Bytes
expand_from getenv [] none = none
expand_from getenv [] (some rest) = some (or_text (getenv rest) [] ++ codes "/" ++ rest)
expand_from getenv (c ∷ token) none = some (or_text (getenv token) (c ∷ token))
expand_from getenv (c ∷ token) (some rest) =
    some (or_text (getenv token) (c ∷ token) ++ codes "/" ++ rest)

unfoldable pub expandpath : (Bytes → Option Bytes) → Bytes → Option Bytes
unfolding expand_from split_at strchr
expandpath getenv path =
    expand_from getenv (split_at b'/' path).0
      (elim (strchr b'/' path) [ none ↦ none | some rest ↦ some (drop 1 rest) ])
