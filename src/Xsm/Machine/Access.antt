-- ===== src/Xsm/Machine/Access.antt =====
-- The registers that a program may name.
use myexpos.Prelude.{
  ◌≡◌, ◌≢◌, ◌↔◌, ◌⊎◌, ◌<◌, ◌∙◌, refl, ap, ℕ, true, false, Option, none, some, Bytes, codes, arith,
  Bool-cases, inl, inr,
}
use myexpos.Libc.{same_nocase}
use myexpos.Xsm.Registers.{
  ip, ptbr, reg_port_low, reg_port_high, registers_get_register_code, registers_umode, umode_code,
  umode_found,
}
use myexpos.Xsm.Registers.Codes.{registers_get_register_code_iff, umode_code_iff}
use myexpos.Xsm.State.{Machine, Mode, user, illegal_instruction, ok, Run, Loc, in_reg, ◌>>=◌}
use myexpos.Xsm.Machine.Base.{
  machine_get_register, find_register, check_register, machine_register_exception,
}

names_ip :
    (name : Bytes) (j : ℕ)
    → registers_get_register_code name ≡ some j
    → (same_nocase name (codes "IP") ≡ true) ↔ (j ≡ ip)
names_ip name j e = (
  λ h. (let f = (registers_get_register_code_iff name ip).1 (omega arith, h) in ground (arith, f)),
  λ h. ((registers_get_register_code_iff name ip).0 (e ∙ ap some h)).1,
)

-- A register that user mode may name.
abbrev pub InUserMode : ℕ → Type 0
InUserMode c = ((c < reg_port_low) ⊎ (reg_port_high < c)) × (c ≢ ptbr) × (c ≢ ip)

checked :
    (name : Bytes) (c : ℕ) (s : Machine)
    → registers_get_register_code name ≡ some c
    → InUserMode c
    → check_register name c user s ≡ ok (in_reg c) s
unfolding ◌>>=◌ check_register registers_umode umode_found
checked name c s e h =
    let u : umode_code c ≡ true = (umode_code_iff c).1 (ground arith) in
    let i : same_nocase name (codes "IP") ≡ false =
      elim (Bool-cases (same_nocase name (codes "IP"))) [
        | inl t ↦ absurd (h.2 ((names_ip name c e).0 t))
        | inr f ↦ f
      ] in
    rw (e, u, i) refl

refused :
    (name : Bytes) (j c : ℕ) (s : Machine)
    → registers_get_register_code name ≡ some j
    → check_register name j user s ≡ ok (in_reg c) s
    → (j ≡ c) × InUserMode j
unfolding ◌>>=◌ check_register registers_umode umode_found machine_register_exception
refused name j c s e h = elim (Bool-cases (umode_code j)) [
  | inr u ↦ (let h' = rw (e, u) at h in absurd cc)
  | inl u ↦ elim (Bool-cases (same_nocase name (codes "IP"))) [
    | inl i ↦ (let h' = rw (e, u, i) at h in absurd cc)
    | inr i ↦
        (let h' = rw (e, u, i) at h in
          let range = (umode_code_iff j).0 u in
          (cc, (range.0, ground arith, λ q. (let t = (names_ip name j e).1 q in cc))))
  ]
]

abbrev found_register : Mode → Bytes → Option ℕ → Machine → Run Loc
found_register mode name none s =
    machine_register_exception "No such register" illegal_instruction s
found_register mode name (some code) s = check_register name code mode s

found_as :
    (o : Option ℕ) (name : Bytes) (s : Machine)
    → find_register name o s ≡ found_register s.cpu.mode name o s
unfolding ◌>>=◌ find_register
found_as none name s = refl
found_as (some j) name s = refl

found_in :
    (mode : Mode) (name : Bytes) (c : ℕ) (s : Machine)
    → mode ≡ user
    → (o : Option ℕ) → registers_get_register_code name ≡ o
    → (found_register mode name o s ≡ ok (in_reg c) s) ↔ ((o ≡ some c) × InUserMode c)
unfolding machine_register_exception
found_in mode name c s m none e = ((λ h. absurd cc), λ h. absurd cc)
found_in mode name c s m (some j) e = rw m (
  (λ h. (let (q, r) = refused name j c s e h in (ap some q, rw (← q) r))),
  λ h. (let q : j ≡ c = (let p = h.0 in cc) in rw q (checked name c s (e ∙ h.0) h.1)),
)

-- In user mode machine_get_register gives the register with a code for a name exactly if the name
-- has that code and the register is not one of the four ports, PTBR or IP.
pub machine_get_register-user_iff :
    (name : Bytes) (c : ℕ) (s : Machine)
    → s.cpu.mode ≡ user
    → (machine_get_register name s ≡ ok (in_reg c) s)
      ↔ ((registers_get_register_code name ≡ some c) × InUserMode c)
unfolding ◌>>=◌ machine_get_register
machine_get_register-user_iff name c s m =
    rw (found_as (registers_get_register_code name) name s)
      (found_in s.cpu.mode name c s m (registers_get_register_code name) refl)
