-- ===== src/Xsm/Machine/Stack.antt =====
-- The stack operations of xsm/machine.c: PUSH, POP, CALL, RET, BACKUP, RESTORE and IRET.
pub mod Kernel
pub mod Saved
use myexpos.Prelude.{ℕ, zero, suc, ◌+◌, ◌-◌, Bool, true, false, Option, none, some}
use myexpos.Prelude.Int.{ℤ, pos, add32, sub32}
use myexpos.Xsm.Registers.{bp, reg_count}
use myexpos.Xsm.State.{
  Machine, Run, ok, raised, unspecified, hang, M, ◌>>=◌, ◌>>◌, and_then, pure, gets, modify,
  undefined, Loc, in_reg, in_target, peek, poke, get_integer, store_integer, copy, Token, register,
  number, illegal_instruction, user,
}
use myexpos.Xsm.Machine.Base.{
  machine_get_mode, machine_set_mode, machine_get_ipreg, machine_get_spreg,
  machine_register_exception, machine_translate_address, machine_memory_get_word,
  machine_get_register, oper_fetch,
}
use myexpos.Xsm.Machine.Tokens.{tokenize_next_token, token_register}

abbrev pub mark_write : Bool → ℤ → M (Unit {0})
mark_write true a = modify (λ s. record s { cpu = record (s.cpu) { mem_left = a } })
mark_write false a = pure tt

-- The word that SP points at.
unfoldable pub machine_stack_pointer : Bool → M Loc
machine_stack_pointer write = do
  stack_top ← get_integer machine_get_spreg
  m ← machine_get_mode
  stack_top ← machine_translate_address stack_top write oper_fetch m
  mark_write write stack_top
  machine_memory_get_word stack_top

unfoldable pub machine_push_do : Loc → M (Unit {0})
machine_push_do reg = do
  stack_top ← get_integer machine_get_spreg
  store_integer machine_get_spreg (add32 stack_top (pos 1))
  xw_stack_top ← machine_stack_pointer true
  copy xw_stack_top reg

unfoldable pub machine_pop_do : Loc → M (Unit {0})
machine_pop_do dest = do
  xw_stack_top ← machine_stack_pointer false
  stack_top ← get_integer machine_get_spreg
  copy dest xw_stack_top
  store_integer machine_get_spreg (sub32 stack_top (pos 1))

-- PUSH and POP.
pub data StackOp : Type 0 where
  push pop : StackOp

unfoldable pub stack_operation : StackOp → Loc → M (Unit {0})
stack_operation push reg = machine_push_do reg
stack_operation pop reg = machine_pop_do reg

unfoldable pub stack_operand : Token → M Loc
stack_operand (register name) = machine_get_register name
stack_operand _ =
    machine_register_exception "Stack instructions require a register as argument"
      illegal_instruction

unfoldable pub machine_execute_stack : StackOp → M (Unit {0})
machine_execute_stack op = do
  token ← tokenize_next_token
  reg ← stack_operand token
  stack_operation op reg

unfoldable pub machine_execute_call_do : ℤ → M (Unit {0})
machine_execute_call_do target = do
  curr_sp ← get_integer machine_get_spreg
  store_integer machine_get_spreg (add32 curr_sp (pos 1))
  curr_ip ← get_integer machine_get_ipreg
  stack_pointer ← machine_stack_pointer true
  store_integer stack_pointer curr_ip
  store_integer machine_get_ipreg target

unfoldable pub call_target : Token → M ℤ
call_target (number n) = pure n
call_target t = do r ← token_register t; get_integer r

unfoldable pub machine_execute_call : M (Unit {0})
machine_execute_call = do
  token ← tokenize_next_token
  target ← call_target token
  machine_execute_call_do target

unfoldable pub machine_execute_ret : M (Unit {0})
machine_execute_ret = do
  stack_pointer ← machine_stack_pointer false
  target ← get_integer stack_pointer
  curr_sp ← get_integer machine_get_spreg
  store_integer machine_get_spreg (sub32 curr_sp (pos 1))
  store_integer machine_get_ipreg target

-- The loop of BACKUP: `count` registers from `ireg` on, whose names sprintf prints as R0, R1, …
unfoldable pub push_registers : ℕ → ℕ → M (Unit {0})
push_registers zero ireg = pure tt
push_registers (suc count) ireg = do machine_push_do (in_reg ireg); push_registers count (ireg + 1)

unfoldable pub machine_execute_backup : M (Unit {0})
machine_execute_backup = do machine_push_do (in_reg bp); push_registers reg_count 0

-- The loop of RESTORE: the registers below `count`, the last one first.
unfoldable pub pop_registers : ℕ → M (Unit {0})
pop_registers zero = pure tt
pop_registers (suc ireg) = do machine_pop_do (in_reg ireg); pop_registers ireg

unfoldable pub machine_execute_restore : M (Unit {0})
machine_execute_restore = do pop_registers reg_count; machine_pop_do (in_reg bp)

unfoldable pub machine_execute_iret : M (Unit {0})
machine_execute_iret = do
  machine_set_mode user
  machine_pop_do in_target
  copy machine_get_ipreg in_target
