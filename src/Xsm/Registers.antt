-- ===== src/Xsm/Registers.antt =====
-- xsm/registers.c: the register names, their codes, and which of them user mode may use.
pub mod Codes
mod Tests
use myexpos.Prelude.{
  ℕ, suc, ◌+◌, Bool, true, false, ◌&&◌, Option, none, some, List, [], ◌∷◌, Bytes, codes, ltb, leb,
  if◌then◌else◌,
}
use myexpos.Libc.{same_nocase}

abbrev pub num_reg : ℕ
num_reg = 33

abbrev pub reg_port_low : ℕ
reg_port_low = 20

abbrev pub reg_port_high : ℕ
reg_port_high = 23

abbrev pub reg_kern_low : ℕ
reg_kern_low = 27

abbrev pub reg_kern_high : ℕ
reg_kern_high = 32

abbrev pub reg_count : ℕ
reg_count = 20

-- The codes of the registers that the machine itself names. `R0` to `R19` have the codes 0 to 19.
abbrev pub p0 : ℕ
p0 = 20

abbrev pub p1 : ℕ
p1 = 21

abbrev pub bp : ℕ
bp = 24

abbrev pub sp : ℕ
sp = 25

abbrev pub ip : ℕ
ip = 26

abbrev pub ptbr : ℕ
ptbr = 27

abbrev pub ptlr : ℕ
ptlr = 28

abbrev pub eip : ℕ
eip = 29

abbrev pub ec : ℕ
ec = 30

abbrev pub epn : ℕ
epn = 31

abbrev pub ema : ℕ
ema = 32

abbrev pub register_names : List Bytes
register_names =
    codes "R0"
    ∷ codes "R1"
    ∷ codes "R2"
    ∷ codes "R3"
    ∷ codes "R4"
    ∷ codes "R5"
    ∷ codes "R6"
    ∷ codes "R7"
    ∷ codes "R8"
    ∷ codes "R9"
    ∷ codes "R10"
    ∷ codes "R11"
    ∷ codes "R12"
    ∷ codes "R13"
    ∷ codes "R14"
    ∷ codes "R15"
    ∷ codes "R16"
    ∷ codes "R17"
    ∷ codes "R18"
    ∷ codes "R19"
    ∷ codes "P0"
    ∷ codes "P1"
    ∷ codes "P2"
    ∷ codes "P3"
    ∷ codes "BP"
    ∷ codes "SP"
    ∷ codes "IP"
    ∷ codes "PTBR"
    ∷ codes "PTLR"
    ∷ codes "EIP"
    ∷ codes "EC"
    ∷ codes "EPN"
    ∷ codes "EMA"
    ∷ []

-- A loop over a table of names: the index of the first that is `name` in either case.
unfoldable pub index_nocase : List Bytes → ℕ → Bytes → Option ℕ
unfolding same_nocase
index_nocase [] i name = none
index_nocase (n ∷ names) i name =
    let rest = index_nocase names (i + 1) name in if same_nocase name n then some i else rest

-- `none` is the code -1.
unfoldable pub registers_get_register_code : Bytes → Option ℕ
unfolding index_nocase
registers_get_register_code name = index_nocase register_names 0 name

-- The test of registers_umode on a code. Its second range ends at REG_KERN_LOW, as in the source.
unfoldable pub umode_code : ℕ → Bool
umode_code code =
    if leb reg_port_low code && leb code reg_port_high
    then false
    else if leb reg_kern_low code && leb code reg_kern_low
    then false
    else true

unfoldable pub umode_found : Option ℕ → Bool
unfolding umode_code
umode_found none = false
umode_found (some code) = umode_code code

unfoldable pub registers_umode : Bytes → Bool
unfolding registers_get_register_code umode_found
registers_umode name = umode_found (registers_get_register_code name)
