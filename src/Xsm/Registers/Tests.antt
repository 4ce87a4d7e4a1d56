-- ===== src/Xsm/Registers/Tests.antt =====
-- Registers by their names.
use myexpos.Prelude.{◌≡◌, ◌↔◌, ◌<◌, true, some, [], codes, get_or}
use myexpos.Libc.{same_nocase}
use myexpos.Xsm.Registers.{registers_get_register_code, register_names, num_reg, sp}
use myexpos.Xsm.Registers.Codes.{registers_get_register_code_iff}

registers_get_register_code_iff_example :
    (registers_get_register_code (codes "Sp") ≡ some sp)
    ↔ ((sp < num_reg) × (same_nocase (codes "Sp") (get_or register_names sp []) ≡ true))
registers_get_register_code_iff_example = registers_get_register_code_iff (codes "Sp") sp
