-- ===== src/Libc/Strings.antt =====
-- strcmp finds equal strings equal, and no others.
use myexpos.Prelude.{◌≡◌, refl, Bytes, [], ◌∷◌, arith}
use myexpos.Prelude.Int.{pos}
use myexpos.Libc.{strcmp}

pub same_strcmp : (s t : Bytes) → strcmp s t ≡ pos 0 → s ≡ t
unfolding strcmp
same_strcmp [] [] h = refl
same_strcmp [] (d ∷ t) h = ground arith
same_strcmp (c ∷ s) [] h = ground arith
same_strcmp (c ∷ s) (d ∷ t) h = ground (arith, same_strcmp s t)

pub strcmp_refl : (s : Bytes) → strcmp s s ≡ pos 0
unfolding strcmp
strcmp_refl [] = refl
strcmp_refl (c ∷ s) = ground (arith, strcmp_refl s)
