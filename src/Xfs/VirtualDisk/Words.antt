-- ===== src/Xfs/VirtualDisk/Words.antt =====
-- Numbers in the words of the memory copy.
use myexpos.Prelude.{◌≡◌, refl, ◌∙◌, ap, ℕ, false, Bytes, [], ◌∷◌, ◌++◌, arith, ◌==◌, length, drop}
use mathlib.Core.List.{append_assoc}
use myexpos.Prelude.Int.{ℤ, InInt}
use myexpos.Libc.{format_int}
use myexpos.Libc.{cstr}
use myexpos.Libc.Decimal.{atoi-format_int, IsText, cstr-IsText, cstr-append}
use myexpos.Xsm.Word.{Word}
use myexpos.Xsm.State.{update}
use myexpos.Xfs.State.{Virt}
use myexpos.Xfs.VirtualDisk.{
  get_value, store_value, get_value_at, store_value_at, store_string_value_at, store_string,
}

pub get_value-store_value : (w : Word) (n : ℤ) → InInt n → get_value (store_value w n) ≡ n
unfolding get_value store_value
get_value-store_value w n h =
    rw (append_assoc (format_int n) (0 ∷ []) (drop (length (format_int n ++ 0 ∷ [])) w))
      (atoi-format_int n _ h)

pub update_same : (f : ℕ → Word) (i : ℕ) (w : Word) → update f i w i ≡ w
unfolding update
update_same f i w = ground arith

pub update_other : (f : ℕ → Word) (i j : ℕ) (w : Word) → (j == i) ≡ false → update f i w j ≡ f j
unfolding update
update_other f i j w h = rw h refl

pub get_value_at_same :
    (v : Virt) (a : ℕ) (n : ℤ) → InInt n → get_value_at (store_value_at a n v) a ≡ n
unfolding get_value_at store_value_at
get_value_at_same v a n h =
    ap get_value (update_same v a (store_value (v a) n)) ∙ get_value-store_value (v a) n h

pub store_value_at_other :
    (v : Virt) (a b : ℕ) (n : ℤ) → (b == a) ≡ false → store_value_at a n v b ≡ v b
unfolding store_value_at
store_value_at_other v a b n h = update_other v a b (store_value (v a) n) h

pub store_string_value_at_other :
    (v : Virt) (a b : ℕ) (s : Bytes) → (b == a) ≡ false → store_string_value_at a s v b ≡ v b
unfolding store_string_value_at
store_string_value_at_other v a b s h = update_other v a b (store_string (v a) s) h

-- What a word that is the same reads as.
pub get_value_at-word : (v w : Virt) (a : ℕ) → v a ≡ w a → get_value_at v a ≡ get_value_at w a
unfolding get_value_at
get_value_at-word v w a h = ap get_value h

pub get_value_at_other :
    (v : Virt) (a b : ℕ) (n : ℤ)
    → (b == a) ≡ false
    → get_value_at (store_value_at a n v) b ≡ get_value_at v b
get_value_at_other v a b n h =
    get_value_at-word (store_value_at a n v) v b (store_value_at_other v a b n h)

pub store_string_value_at_same :
    (v : Virt) (a : ℕ) (s : Bytes) → store_string_value_at a s v a ≡ store_string (v a) s
unfolding store_string_value_at
store_string_value_at_same v a s = update_same v a (store_string (v a) s)

pub cstr-store_string : (w : Word) (name : Bytes) → IsText name → cstr (store_string w name) ≡ name
unfolding store_string
cstr-store_string w name h =
    rw
      (
        cstr-IsText name h,
        append_assoc name (0 ∷ []) (drop (length (name ++ 0 ∷ [])) w),
        cstr-append name (drop (length (name ++ 0 ∷ [])) w) h,
      )
      refl
