-- ===== src/Libc/Decimal.antt =====
-- Printing an `int` in decimal and reading it back.
use native.Mathlib.Nat.{pow-suc}
use myexpos.Prelude.{
  ◌∙◌, ◌++◌, ap, ℕ, zero, suc, ◌+◌, ◌/◌, ◌%◌, ◌^◌, ◌≤◌, ◌<◌, ◌≡◌, refl, [], ◌∷◌, arith, Bytes, All,
  length, ◌==◌, Bool-cases, inl, inr,
}
use myexpos.Prelude.Int.{ℤ, pos, negsuc, InInt, sub_ℕ, wrap32-eq}
use myexpos.Libc.{cstr, leading, skip_space, signed_value, clamp_long, atoi, digits, format_int}

abbrev pub IsDigit : ℕ → Type 0
IsDigit c = (b'0' ≤ c) × (c ≤ b'9')

pub digits-IsDigit : (fuel n : ℕ) (out : Bytes) → All IsDigit out → All IsDigit (digits fuel n out)
unfolding digits
digits-IsDigit zero n out h = h
digits-IsDigit (suc fuel) n out h = elim (Bool-cases (n / 10 == 0)) [
  | inl e ↦ rw e ((omega arith, omega arith), h)
  | inr e ↦ rw e (digits-IsDigit fuel (n / 10) _ ((omega arith, omega arith), h))
]

pub length-digits : (fuel n : ℕ) (out : Bytes) → length (digits fuel n out) ≤ fuel + length out
unfolding digits
length-digits zero n out = omega arith
length-digits (suc fuel) n out = ground (arith, length-digits fuel (n / 10) ((b'0' + n % 10) ∷ out))

leading_last : (n : ℕ) (out : Bytes) → leading ((b'0' + n % 10) ∷ out) (n / 10) ≡ leading out n
unfolding leading
leading_last n out = ground arith

-- Reading the printed digits gives the number back.
pub leading-digits :
    (fuel n : ℕ) (out : Bytes)
    → n < 10 ^ suc fuel
    → leading (digits (suc fuel) n out) 0 ≡ leading out n
unfolding digits
leading-digits zero n out h =
    let e : n / 10 ≡ 0 = omega (arith, pow-suc 10 0) in
    rw e (let l = leading_last n out in rw e at l)
leading-digits (suc fuel) n out h = elim (Bool-cases (n / 10 == 0)) [
  | inl e ↦ ground (arith, leading_last n out)
  | inr e ↦ rw e (
      leading-digits fuel (n / 10) ((b'0' + n % 10) ∷ out) (omega (arith, pow-suc 10 (suc fuel)))
      ∙ leading_last n out)
]

cstr_digits : (s : Bytes) → All IsDigit s → cstr s ≡ s
unfolding cstr
cstr_digits [] h = refl
cstr_digits (c ∷ s) (hc, hs) = ground (arith, cstr_digits s hs)

signed_value_digit :
    (c : ℕ) (s : Bytes) → IsDigit c → signed_value (skip_space (c ∷ s)) ≡ pos (leading (c ∷ s) 0)
unfolding signed_value skip_space
signed_value_digit c s h = ground arith

signed_value_digits : (s : Bytes) → All IsDigit s → signed_value (skip_space s) ≡ pos (leading s 0)
unfolding signed_value skip_space
signed_value_digits [] h = refl
signed_value_digits (c ∷ s) h = signed_value_digit c s h.0

signed_value_minus : (s : Bytes) → signed_value (skip_space (b'-' ∷ s)) ≡ sub_ℕ 0 (leading s 0)
unfolding signed_value skip_space
signed_value_minus s = refl

abbrev pub IsText : Bytes → Type 0
IsText = All (λ c. 0 < c)

IsDigit-IsText : (s : Bytes) → All IsDigit s → IsText s
IsDigit-IsText [] h = tt
IsDigit-IsText (c ∷ s) (hc, hs) = (omega arith, IsDigit-IsText s hs)

pub format_int-IsText : (a : ℤ) → IsText (format_int a)
unfolding format_int
format_int-IsText (pos n) = IsDigit-IsText _ (digits-IsDigit 10 n [] tt)
format_int-IsText (negsuc n) = (omega arith, IsDigit-IsText _ (digits-IsDigit 10 (suc n) [] tt))

pub length-format_int : (a : ℤ) → length (format_int a) ≤ 11
unfolding format_int
length-format_int (pos n) = omega (arith, length-digits 10 n [])
length-format_int (negsuc n) = omega (arith, length-digits 10 (suc n) [])

-- A text that is ended by a NUL is what the array holds.
pub cstr-append : (s t : Bytes) → IsText s → cstr (s ++ 0 ∷ t) ≡ s
unfolding cstr
cstr-append [] t h = refl
cstr-append (c ∷ s) t (hc, hs) = ground (arith, cstr-append s t hs)

minus_suc : (n : ℕ) → sub_ℕ 0 (suc n) ≡ negsuc n
minus_suc n = ground arith

value-format_int : (a : ℤ) → InInt a → signed_value (skip_space (format_int a)) ≡ a
unfolding format_int leading
value-format_int (pos n) h =
    signed_value_digits (digits 10 n []) (digits-IsDigit 10 n [] tt)
    ∙ ap pos (leading-digits 9 n [] (omega arith))
value-format_int (negsuc n) h =
    signed_value_minus (digits 10 (suc n) [])
    ∙ ap (sub_ℕ 0) (leading-digits 9 (suc n) [] (omega arith))
    ∙ minus_suc n

clamp_long-InInt : (a : ℤ) → InInt a → clamp_long a ≡ a
clamp_long-InInt (pos n) h = ground arith
clamp_long-InInt (negsuc n) h = ground arith

-- Every `int` is read back from its decimal print, whatever bytes follow the NUL.
pub atoi-format_int : (a : ℤ) (t : Bytes) → InInt a → atoi (format_int a ++ 0 ∷ t) ≡ a
unfolding atoi
atoi-format_int a t h =
    rw
      (
        cstr-append (format_int a) t (format_int-IsText a),
        value-format_int a h,
        clamp_long-InInt a h,
      )
      (wrap32-eq a h)

pub cstr-IsText : (s : Bytes) → IsText s → cstr s ≡ s
unfolding cstr
cstr-IsText [] h = refl
cstr-IsText (c ∷ s) (hc, hs) = ground (arith, cstr-IsText s hs)

-- The same where the bytes end with the print.
pub atoi-print : (a : ℤ) → InInt a → atoi (format_int a) ≡ a
unfolding atoi
atoi-print a h =
    rw
      (cstr-IsText (format_int a) (format_int-IsText a), value-format_int a h, clamp_long-InInt a h)
      (wrap32-eq a h)

-- At least one digit is printed.
pub digits-grows : (fuel n : ℕ) (out : Bytes) → length out < length (digits (suc fuel) n out)
unfolding digits
digits-grows zero n out = ground arith
digits-grows (suc fuel) n out = ground (arith, digits-grows fuel (n / 10) ((b'0' + n % 10) ∷ out))
