-- ===== src/Prelude/Int.antt =====
-- The C type `int`: integers over the native numbers, with 32-bit wrap-around.
use Prim.Native.Nat.{ℕ, suc, ◌+◌, ◌-◌, ◌*◌, ◌/◌, ◌%◌, ◌≤◌, ◌<◌}
use mathlib.Core.Path.{◌≡◌}
use mathlib.Core.Bool.{Bool}
use native.Mathlib.Omega.{arith}
use myexpos.Prelude.Tests.{ltb, leb, ◌==◌, if◌then◌else◌}

-- `negsuc n` is -(n + 1).
pub data ℤ : Type 0 where
  pos : ℕ → ℤ
  negsuc : ℕ → ℤ

abbrev pub pos_part : ℤ → ℕ
pos_part (pos n) = n
pos_part (negsuc n) = 0

abbrev pub neg_part : ℤ → ℕ
neg_part (pos n) = 0
neg_part (negsuc n) = suc n

-- a - b, as an integer.
abbrev pub sub_ℕ : ℕ → ℕ → ℤ
sub_ℕ a b = if leb b a then pos (a - b) else negsuc (b - a - 1)

infixl 65 ◌+ℤ◌ ◌-ℤ◌
infixl 70 ◌*ℤ◌
infix 50 ◌≤ℤ◌
unfoldable pub ◌+ℤ◌ : ℤ → ℤ → ℤ
a +ℤ b = sub_ℕ (pos_part a + pos_part b) (neg_part a + neg_part b)

unfoldable pub ◌-ℤ◌ : ℤ → ℤ → ℤ
a -ℤ b = sub_ℕ (pos_part a + neg_part b) (neg_part a + pos_part b)

unfoldable pub ◌*ℤ◌ : ℤ → ℤ → ℤ
a *ℤ b =
    sub_ℕ (pos_part a * pos_part b + neg_part a * neg_part b)
      (pos_part a * neg_part b + neg_part a * pos_part b)

abbrev pub ◌≤ℤ◌ : ℤ → ℤ → Type 0
a ≤ℤ b = pos_part a + neg_part b ≤ pos_part b + neg_part a

abbrev pub ltb_ℤ : ℤ → ℤ → Bool
ltb_ℤ a b = ltb (pos_part a + neg_part b) (pos_part b + neg_part a)

abbrev pub leb_ℤ : ℤ → ℤ → Bool
leb_ℤ a b = leb (pos_part a + neg_part b) (pos_part b + neg_part a)

abbrev pub eq_ℤ : ℤ → ℤ → Bool
eq_ℤ a b = pos_part a + neg_part b == pos_part b + neg_part a

abbrev pub magnitude : ℤ → ℕ
magnitude a = pos_part a + neg_part a

-- The C operators `/` and `%`: the quotient is rounded towards zero, and the remainder has the sign
-- of the dividend. Where the divisor is 0, C leaves both undefined; the callers test for it.
unfoldable pub div_ℤ : ℤ → ℤ → ℤ
div_ℤ a b =
    let q = magnitude a / magnitude b in
    if neg_part a == 0
    then (if neg_part b == 0 then pos q else sub_ℕ 0 q)
    else if neg_part b == 0
    then sub_ℕ 0 q
    else pos q

unfoldable pub mod_ℤ : ℤ → ℤ → ℤ
mod_ℤ a b = let r = magnitude a % magnitude b in if neg_part a == 0 then pos r else sub_ℕ 0 r

abbrev pub int_mod : ℕ
int_mod = 4294967296

abbrev pub int_top : ℕ
int_top = 2147483648

-- The value of an `int`: from -2^31 to 2^31 - 1.
abbrev pub InInt : ℤ → Type 0
InInt (pos n) = n < int_top
InInt (negsuc n) = n < int_top

-- The int that a bit pattern stands for.
abbrev signed : ℕ → ℤ
signed w = if ltb w int_top then pos w else negsuc (int_mod - 1 - w)

-- Reduction into the range of `int`, as two's complement hardware does it.
unfoldable pub wrap32 : ℤ → ℤ
wrap32 (pos n) = signed (n % int_mod)
wrap32 (negsuc n) = signed (int_mod - 1 - n % int_mod)

-- Arithmetic of type `int`.
abbrev pub add32 : ℤ → ℤ → ℤ
add32 a b = wrap32 (a +ℤ b)

abbrev pub sub32 : ℤ → ℤ → ℤ
sub32 a b = wrap32 (a -ℤ b)

abbrev pub mul32 : ℤ → ℤ → ℤ
mul32 a b = wrap32 (a *ℤ b)

pub wrap32-InInt : (a : ℤ) → InInt (wrap32 a)
unfolding wrap32
wrap32-InInt (pos n) = ground arith
wrap32-InInt (negsuc n) = ground arith

pub wrap32-eq : (a : ℤ) → InInt a → wrap32 a ≡ a
unfolding wrap32
wrap32-eq (pos n) h = ground arith
wrap32-eq (negsuc n) h = ground arith

pub +ℤ_parts :
    (a b : ℤ)
    → pos_part (a +ℤ b) + neg_part a + neg_part b ≡ neg_part (a +ℤ b) + pos_part a + pos_part b
unfolding ◌+ℤ◌
+ℤ_parts a b = ground arith

pub -ℤ_parts :
    (a b : ℤ)
    → pos_part (a -ℤ b) + neg_part a + pos_part b ≡ neg_part (a -ℤ b) + pos_part a + neg_part b
unfolding ◌-ℤ◌
-ℤ_parts a b = ground arith

pub eq_of_parts : (a b : ℤ) → pos_part a + neg_part b ≡ pos_part b + neg_part a → a ≡ b
eq_of_parts a b h = ground arith

pub ruleset int_laws = (arith, +ℤ_parts, -ℤ_parts, eq_of_parts)

-- An increment undone by a decrement, wrap-around included.
pub sub32-add32_one : (a : ℤ) → InInt a → sub32 (add32 a (pos 1)) (pos 1) ≡ a
unfolding ◌+ℤ◌ ◌-ℤ◌ wrap32
sub32-add32_one (pos n) h = ground arith
sub32-add32_one (negsuc n) h = ground arith
