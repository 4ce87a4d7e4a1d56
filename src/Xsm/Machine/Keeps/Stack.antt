-- ===== src/Xsm/Machine/Keeps/Stack.antt =====
-- The stack instructions that stay in their mode keep what their writes keep.
use myexpos.Prelude.{arith, ℕ, zero, suc, ◌+◌, Bool, true, false}
use myexpos.Prelude.Int.{ℤ}
use myexpos.Xsm.State.{Machine, modify, Loc, Token, register, number}
use myexpos.Xsm.Machine.Stack.{
  mark_write, machine_stack_pointer, machine_push_do, machine_pop_do, StackOp, push, pop,
  stack_operation, stack_operand, machine_execute_stack, machine_execute_call_do, call_target,
  machine_execute_call, machine_execute_ret, push_registers, pop_registers, machine_execute_backup,
  machine_execute_restore,
}
use myexpos.Xsm.Machine.Keeps.{
  Keeps, Closed, modify-Keeps, exception-Keeps, store_integer-Keeps, copy-Keeps, keeps_rules,
  Keeps-bind,
}
use myexpos.Xsm.Machine.Keeps.Tokens.{
  machine_get_register-Keeps, machine_translate_address-Keeps, machine_memory_get_word-Keeps,
  tokenize_next_token-Keeps, token_register-Keeps,
}

module _ {P : Machine → Type 0} (closed : Closed P) where
  pub mem_left-Keeps :
      (a : ℤ) → Keeps P (modify (λ s. record s { cpu = record (s.cpu) { mem_left = a } }))
  mem_left-Keeps a = modify-Keeps closed _ (λ s. ground arith)

  mark_write-Keeps : (w : Bool) (a : ℤ) → Keeps P (mark_write w a)
  mark_write-Keeps true a = mem_left-Keeps a
  mark_write-Keeps false a = search keeps_rules

  machine_stack_pointer-Keeps : (w : Bool) → Keeps P (machine_stack_pointer w)
  unfolding machine_stack_pointer
  machine_stack_pointer-Keeps w =
      search
        (
          keeps_rules,
          machine_translate_address-Keeps closed,
          machine_memory_get_word-Keeps closed,
          mark_write-Keeps,
        )
        depth 12

  pub machine_push_do-Keeps : (l : Loc) → Keeps P (machine_push_do l)
  unfolding machine_push_do
  machine_push_do-Keeps l =
      search
        (keeps_rules, store_integer-Keeps closed, machine_stack_pointer-Keeps, copy-Keeps closed)
        depth 12

  pub machine_pop_do-Keeps : (l : Loc) → Keeps P (machine_pop_do l)
  unfolding machine_pop_do
  machine_pop_do-Keeps l =
      search
        (keeps_rules, store_integer-Keeps closed, machine_stack_pointer-Keeps, copy-Keeps closed)
        depth 12

  stack_operation-Keeps : (op : StackOp) (l : Loc) → Keeps P (stack_operation op l)
  unfolding stack_operation
  stack_operation-Keeps push l = machine_push_do-Keeps l
  stack_operation-Keeps pop l = machine_pop_do-Keeps l

  stack_operand-Keeps : (t : Token) → Keeps P (stack_operand t)
  unfolding stack_operand
  stack_operand-Keeps (register name) = machine_get_register-Keeps closed name
  stack_operand-Keeps _ = exception-Keeps closed _ _

  pub machine_execute_stack-Keeps : (op : StackOp) → Keeps P (machine_execute_stack op)
  unfolding machine_execute_stack
  machine_execute_stack-Keeps op =
      search (keeps_rules, tokenize_next_token-Keeps, stack_operand-Keeps, stack_operation-Keeps)

  pub machine_execute_call_do-Keeps : (a : ℤ) → Keeps P (machine_execute_call_do a)
  unfolding machine_execute_call_do
  machine_execute_call_do-Keeps a =
      search (keeps_rules, store_integer-Keeps closed, machine_stack_pointer-Keeps) depth 15

  call_target-Keeps : (t : Token) → Keeps P (call_target t)
  unfolding call_target
  call_target-Keeps (number n) = search keeps_rules
  call_target-Keeps _ = search (keeps_rules, token_register-Keeps closed)

  pub machine_execute_call-Keeps : Keeps P machine_execute_call
  unfolding machine_execute_call
  machine_execute_call-Keeps =
      search
        (keeps_rules, tokenize_next_token-Keeps, call_target-Keeps, machine_execute_call_do-Keeps)

  pub machine_execute_ret-Keeps : Keeps P machine_execute_ret
  unfolding machine_execute_ret
  machine_execute_ret-Keeps =
      search (keeps_rules, store_integer-Keeps closed, machine_stack_pointer-Keeps) depth 15

  push_registers-Keeps : (n i : ℕ) → Keeps P (push_registers n i)
  unfolding push_registers
  push_registers-Keeps zero i = search keeps_rules
  push_registers-Keeps (suc n) i =
      Keeps-bind _ _ (machine_push_do-Keeps _) (λ _. push_registers-Keeps n (i + 1))

  pop_registers-Keeps : (n : ℕ) → Keeps P (pop_registers n)
  unfolding pop_registers
  pop_registers-Keeps zero = search keeps_rules
  pop_registers-Keeps (suc n) = Keeps-bind _ _ (machine_pop_do-Keeps _) (λ _. pop_registers-Keeps n)

  pub machine_execute_backup-Keeps : Keeps P machine_execute_backup
  unfolding machine_execute_backup
  machine_execute_backup-Keeps = search (keeps_rules, machine_push_do-Keeps, push_registers-Keeps)

  pub machine_execute_restore-Keeps : Keeps P machine_execute_restore
  unfolding machine_execute_restore
  machine_execute_restore-Keeps = search (keeps_rules, machine_pop_do-Keeps, pop_registers-Keeps)
