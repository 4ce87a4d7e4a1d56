-- ===== src/Xsm/Machine/Execute.antt =====
-- Interrupts and the dispatch on the opcode: INT, BRKP and machine_execute_instruction of
-- xsm/machine.c.
use myexpos.Prelude.{Bool, true, false, ◌||◌, Option, none, some, if◌then◌else◌}
use myexpos.Prelude.Int.{ℤ, pos, negsuc, ltb_ℤ, eq_ℤ, add32, mul32}
use myexpos.Xsm.Memory.{page_size}
use myexpos.Xsm.State.{
  M, ◌>>=◌, ◌>>◌, pure, modify, undefined, store_integer, illegal_instruction, Mode, user, kernel,
}
use myexpos.Xsm.Machine.Base.{
  machine_get_mode, machine_set_mode, machine_get_ipreg, machine_register_exception,
}
use myexpos.Xsm.Machine.Tokens.{tokenize_next_token, token_number}
use myexpos.Xsm.Machine.Stack.{
  machine_execute_stack, machine_execute_call_do, machine_execute_call, machine_execute_ret,
  machine_execute_backup, machine_execute_restore, machine_execute_iret,
}
use myexpos.Xsm.Machine.Data.{
  machine_execute_mov, machine_execute_arith, machine_execute_unary, machine_execute_logical,
  machine_execute_jump, machine_execute_encrypt,
}
use myexpos.Xsm.Machine.Devices.{
  machine_execute_disk, machine_schedule_in, machine_execute_ini, machine_execute_print,
}
use myexpos.Xsm.Machine.Opcode.{
  Action, mov, arith_op, unary, logical, jump, stack, call, ret, brkp, interrupt, disk, encrypt,
  backup, restore, input, input_now, output, iret, halt, nop,
}

abbrev pub interrupt_low : ℤ
interrupt_low = pos 4

abbrev pub interrupt_high : ℤ
interrupt_high = pos 18

-- XSM_INTERRUPT_EXHANDLER, and the interrupts that the machine itself raises.
abbrev pub interrupt_exhandler : ℤ
interrupt_exhandler = pos 0

abbrev pub interrupt_timer : ℤ
interrupt_timer = pos 1

abbrev pub interrupt_disk : ℤ
interrupt_disk = pos 2

abbrev pub interrupt_console : ℤ
interrupt_console = pos 3

unfoldable pub machine_interrupt_address : ℤ → ℤ
machine_interrupt_address int_num =
    if ltb_ℤ interrupt_high int_num
    then negsuc 0
    else mul32 (add32 (mul32 int_num (pos 2)) (pos 2)) (pos page_size)

unfoldable pub enter_handler : ℤ → ℤ → M (Unit {0})
enter_handler int_num target =
    if eq_ℤ int_num interrupt_exhandler
    then store_integer machine_get_ipreg target
    else machine_execute_call_do target

unfoldable pub interrupt_from : Mode → ℤ → M (Unit {0})
interrupt_from kernel int_num =
    machine_register_exception "Invoking interrupts in kernel mode not allowed" illegal_instruction
interrupt_from user int_num = do
  enter_handler int_num (machine_interrupt_address int_num)
  machine_set_mode kernel

unfoldable pub machine_execute_interrupt_do : ℤ → M (Unit {0})
machine_execute_interrupt_do int_num = do m ← machine_get_mode; interrupt_from m int_num

unfoldable pub interrupt_number : Option ℤ → M (Unit {0})
interrupt_number none = undefined
interrupt_number (some n) =
    if ltb_ℤ n interrupt_low || ltb_ℤ interrupt_high n
    then machine_register_exception "Invalid interrupt number" illegal_instruction
    else machine_execute_interrupt_do n

unfoldable pub machine_execute_interrupt : M (Unit {0})
machine_execute_interrupt = do token ← tokenize_next_token; interrupt_number (token_number token)

-- The debugger is switched on only in debug mode.
unfoldable pub machine_execute_brkp : M (Unit {0})
machine_execute_brkp = modify (λ s. if s.options.debug then record s { debug_active = true } else s)

-- The result is false for XSM_HALT.
unfoldable pub machine_execute_instruction : Action → M Bool
machine_execute_instruction mov = do machine_execute_mov; pure true
machine_execute_instruction (arith_op op) = do machine_execute_arith op; pure true
machine_execute_instruction (unary op) = do machine_execute_unary op; pure true
machine_execute_instruction (logical op) = do machine_execute_logical op; pure true
machine_execute_instruction (jump op) = do machine_execute_jump op; pure true
machine_execute_instruction (stack op) = do machine_execute_stack op; pure true
machine_execute_instruction call = do machine_execute_call; pure true
machine_execute_instruction ret = do machine_execute_ret; pure true
machine_execute_instruction brkp = do machine_execute_brkp; pure true
machine_execute_instruction interrupt = do machine_execute_interrupt; pure true
machine_execute_instruction (disk op immediate) = do machine_execute_disk op immediate; pure true
machine_execute_instruction encrypt = do machine_execute_encrypt; pure true
machine_execute_instruction backup = do machine_execute_backup; pure true
machine_execute_instruction restore = do machine_execute_restore; pure true
machine_execute_instruction input = do machine_schedule_in; pure true
machine_execute_instruction input_now = do machine_execute_ini; pure true
machine_execute_instruction output = do machine_execute_print; pure true
machine_execute_instruction iret = do machine_execute_iret; pure true
machine_execute_instruction halt = pure false
machine_execute_instruction nop = pure true
