-- ===== src/Xsm/Registers/Codes.antt =====
-- Which code a register name has, and which codes user mode may use.
use mathlib.Core.Bool.{and-eq-true_iff}
use native.Mathlib.Decide.{dec_lt}
use myexpos.Prelude.{
  ℕ, zero, suc, ◌+◌, ◌<◌, ◌≡◌, ◌↔◌, ◌⊎◌, refl, ap, ◌∙◌, Bool, true, false, ◌&&◌, Option, none, some,
  List, [], ◌∷◌, Bytes, arith, length, get_or, ◌==◌, ==_iff, Bool-cases, inl, inr,
}
use myexpos.Libc.{same_nocase, to_lower}
use myexpos.Xsm.Registers.{
  register_names, num_reg, index_nocase, registers_get_register_code, umode_code, reg_port_low,
  reg_port_high, reg_kern_low,
}

-- Two names that are the same but for the case find the same entry of a table.
same_nocase_congr : (s t u : Bytes) → same_nocase s t ≡ true → same_nocase s u ≡ same_nocase t u
unfolding same_nocase
same_nocase_congr [] [] u h = refl
same_nocase_congr [] (d ∷ t) u h = cc
same_nocase_congr (c ∷ s) [] u h = cc
same_nocase_congr (c ∷ s) (d ∷ t) [] h = refl
same_nocase_congr (c ∷ s) (d ∷ t) (e ∷ u) h =
    let p = (and-eq-true_iff (to_lower c == to_lower d) (same_nocase s t)).0 h in
    let q : to_lower c ≡ to_lower d = (==_iff (to_lower c) (to_lower d)).0 p.0 in
    rw (same_nocase_congr s t u p.1) (ap (λ (x : ℕ). (x == to_lower e) && same_nocase t u) q)

pub index_nocase_congr :
    (names : List Bytes) (i : ℕ) (s t : Bytes)
    → same_nocase s t ≡ true
    → index_nocase names i s ≡ index_nocase names i t
unfolding index_nocase
index_nocase_congr [] i s t h = refl
index_nocase_congr (n ∷ names) i s t h =
    rw (same_nocase_congr s t n h, index_nocase_congr names (i + 1) s t h)

-- An index that is found lies in the table, and its entry is the name.
pub index_nocase_sound :
    (names : List Bytes) (k : ℕ) (s : Bytes) {i : ℕ}
    → index_nocase names k s ≡ some i
    → (j : ℕ) × (i ≡ k + j) × (j < length names) × (same_nocase s (get_or names j []) ≡ true)
unfolding index_nocase
index_nocase_sound [] k s h = cc
index_nocase_sound (n ∷ names) k s {i} h = elim (Bool-cases (same_nocase s n)) [
  | inl e ↦ (0, ground arith, omega arith, e)
  | inr e ↦
      let (j, p, q, r) = index_nocase_sound names (k + 1) s {i = i} (ground arith) in
      (suc j, omega arith, omega arith, r)
]

found_at : Option ℕ → ℕ → Bool
found_at none i = false
found_at (some j) i = j == i

found_at_eq : (o : Option ℕ) (i : ℕ) → found_at o i ≡ true → o ≡ some i
unfolding found_at
found_at_eq none i h = cc
found_at_eq (some j) i h = ap some ((==_iff j i).0 h)

-- The first `count` names of the table are found at their own places.
names_found : ℕ → Bool
names_found zero = true
names_found (suc i) =
    found_at (registers_get_register_code (get_or register_names i [])) i && names_found i

names_found-at :
    (count i : ℕ)
    → i < count
    → names_found count ≡ true
    → found_at (registers_get_register_code (get_or register_names i [])) i ≡ true
unfolding names_found
names_found-at zero i lt h = elim lt [ ]
names_found-at (suc k) i lt h = elim (dec_lt i k) [
  | yes b ↦ names_found-at k i b (ground arith)
  | no b ↦ (let e : i ≡ k = omega arith in rw e (ground arith))
]

table_ok : names_found num_reg ≡ true
unfolding names_found found_at registers_get_register_code
table_ok = refl

code_sound :
    (name : Bytes) (i : ℕ)
    → registers_get_register_code name ≡ some i
    → (i < num_reg) × (same_nocase name (get_or register_names i []) ≡ true)
unfolding registers_get_register_code
code_sound name i h =
    let (j, e, lt, m) = index_nocase_sound register_names 0 name h in
    let e' : i ≡ j = omega arith in (omega arith, rw e' m)

code_complete :
    (name : Bytes) (i : ℕ)
    → i < num_reg
    → same_nocase name (get_or register_names i []) ≡ true
    → registers_get_register_code name ≡ some i
unfolding registers_get_register_code
code_complete name i lt m =
    index_nocase_congr register_names 0 name (get_or register_names i []) m
    ∙ found_at_eq _ i (names_found-at num_reg i lt table_ok)

-- Each register has the code that its place in the table gives, under its name in either case; and
-- a name has a code only if it is the name of that register.
pub registers_get_register_code_iff :
    (name : Bytes) (i : ℕ)
    → (registers_get_register_code name ≡ some i)
      ↔ ((i < num_reg) × (same_nocase name (get_or register_names i []) ≡ true))
registers_get_register_code_iff name i = (code_sound name i, λ h. code_complete name i h.0 h.1)

-- The registers that user mode may name: all but the ports and PTBR.
pub umode_code_iff :
    (c : ℕ)
    → (umode_code c ≡ true)
      ↔ (((c < reg_port_low) ⊎ (reg_port_high < c)) × ((c < reg_kern_low) ⊎ (reg_kern_low < c)))
unfolding umode_code
umode_code_iff c = ground arith
