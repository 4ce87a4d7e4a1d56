-- ===== src/Xsm/Machine/Keeps/Execute.antt =====
-- The switch over the instructions, and the interrupts, keep a predicate that also allows the page transfers and changes of mode.
use myexpos.Prelude.{arith, ℕ, Bool, true, false, Option, none, some}
use myexpos.Prelude.Int.{ℤ}
use myexpos.Xsm.State.{◌>>◌, pure, Machine, Mode, user, kernel, M, modify, DiskOp, load, store}
use myexpos.Xsm.Machine.Base.{machine_set_mode}
use myexpos.Xsm.Machine.Stack.{machine_execute_iret}
use myexpos.Xsm.Machine.Devices.{
  copy_page, disk_read_block, disk_write_page, machine_execute_load_do, machine_execute_store_do,
  disk_transfer,
}
use myexpos.Xsm.Machine.Opcode.{
  Action, mov, arith_op, unary, logical, jump, stack, call, ret, brkp, interrupt, disk, encrypt,
  backup, restore, input, input_now, output, iret, halt, nop,
}
use myexpos.Xsm.Machine.Execute.{
  enter_handler, interrupt_from, machine_execute_interrupt_do, interrupt_number,
  machine_execute_interrupt, machine_execute_brkp, machine_execute_instruction,
}
use myexpos.Xsm.Machine.Tokens.{tokenize_clear_stream, tokenize_reset}
use myexpos.Xsm.Machine.Keeps.{
  Keeps, Closed, modify-Keeps, exception-Keeps, store_integer-Keeps, copy-Keeps, keeps_rules,
  returns,
}
use myexpos.Xsm.Machine.Keeps.Tokens.{tokenize_next_token-Keeps}
use myexpos.Xsm.Machine.Keeps.Stack.{
  machine_pop_do-Keeps, machine_execute_stack-Keeps, machine_execute_call_do-Keeps,
  machine_execute_call-Keeps, machine_execute_ret-Keeps, machine_execute_backup-Keeps,
  machine_execute_restore-Keeps,
}
use myexpos.Xsm.Machine.Keeps.Data.{
  machine_execute_mov-Keeps, machine_execute_arith-Keeps, machine_execute_unary-Keeps,
  machine_execute_logical-Keeps, machine_execute_jump-Keeps, machine_execute_encrypt-Keeps,
}
use myexpos.Xsm.Machine.Keeps.Devices.{
  machine_execute_print-Keeps, machine_schedule_in-Keeps, machine_schedule_disk-Keeps,
  machine_execute_ini-Keeps, machine_execute_disk-Keeps,
}

-- The further changes that the machine makes: a page moved to or from the disk, and the mode.
pub record ClosedRounds (P : Machine → Type 0) : Type 0 where
  pub words : Closed P
  pub put_page : (p b : ℕ) (s : Machine) → P s → P (record s { mem = copy_page s.mem p s.disk b })
  pub put_block : (b p : ℕ) (s : Machine) → P s → P (record s { disk = copy_page s.disk b s.mem p })
  pub put_mode : (m : Mode) (s : Machine) → P s → P (record s { cpu = record (s.cpu) { mode = m } })

module _ {P : Machine → Type 0} (closed : ClosedRounds P) where
  set_mode-Keeps : (m : Mode) → Keeps P (machine_set_mode m)
  unfolding modify
  set_mode-Keeps m = record { at = λ s h. returns (closed.put_mode m s h) }

  disk_read_block-Keeps : (p b : Option ℕ) → Keeps P (disk_read_block p b)
  unfolding disk_read_block modify
  disk_read_block-Keeps (some p) (some b) = record { at = λ s h. returns (closed.put_page p b s h) }
  disk_read_block-Keeps _ _ = search keeps_rules

  disk_write_page-Keeps : (p b : Option ℕ) → Keeps P (disk_write_page p b)
  unfolding disk_write_page modify
  disk_write_page-Keeps (some p) (some b) = record {
    at = λ s h. returns (closed.put_block b p s h);
  }
  disk_write_page-Keeps _ _ = search keeps_rules

  pub load_do-Keeps : (p b : ℤ) → Keeps P (machine_execute_load_do p b)
  unfolding machine_execute_load_do
  load_do-Keeps p b = disk_read_block-Keeps _ _

  pub store_do-Keeps : (p b : ℤ) → Keeps P (machine_execute_store_do p b)
  unfolding machine_execute_store_do
  store_do-Keeps p b = disk_write_page-Keeps _ _

  disk_transfer-Keeps : (op : DiskOp) (now : Bool) (a b : ℤ) → Keeps P (disk_transfer op now a b)
  unfolding disk_transfer
  disk_transfer-Keeps load true a b = load_do-Keeps a b
  disk_transfer-Keeps store true a b = store_do-Keeps a b
  disk_transfer-Keeps load false a b =
      search (keeps_rules, machine_schedule_disk-Keeps closed.words)
  disk_transfer-Keeps store false a b =
      search (keeps_rules, machine_schedule_disk-Keeps closed.words)

  iret-Keeps : Keeps P machine_execute_iret
  unfolding machine_execute_iret
  iret-Keeps =
      search
        (keeps_rules, set_mode-Keeps, machine_pop_do-Keeps closed.words, copy-Keeps closed.words)

  enter_handler-Keeps : (n a : ℤ) → Keeps P (enter_handler n a)
  unfolding enter_handler
  enter_handler-Keeps n a =
      search
        (keeps_rules, store_integer-Keeps closed.words, machine_execute_call_do-Keeps closed.words)

  interrupt_from-Keeps : (m : Mode) (n : ℤ) → Keeps P (interrupt_from m n)
  unfolding interrupt_from
  interrupt_from-Keeps kernel n = exception-Keeps closed.words _ _
  interrupt_from-Keeps user n = search (keeps_rules, enter_handler-Keeps, set_mode-Keeps)

  pub interrupt_do-Keeps : (n : ℤ) → Keeps P (machine_execute_interrupt_do n)
  unfolding machine_execute_interrupt_do
  interrupt_do-Keeps n = search (keeps_rules, interrupt_from-Keeps)

  interrupt_number-Keeps : (o : Option ℤ) → Keeps P (interrupt_number o)
  unfolding interrupt_number
  interrupt_number-Keeps none = search keeps_rules
  interrupt_number-Keeps (some n) =
      search (keeps_rules, exception-Keeps closed.words, interrupt_do-Keeps)

  pub next-Keeps : Keeps P myexpos.Xsm.Machine.Tokens.tokenize_next_token
  next-Keeps = tokenize_next_token-Keeps closed.words

  interrupt-Keeps : Keeps P machine_execute_interrupt
  unfolding machine_execute_interrupt
  interrupt-Keeps = search (keeps_rules, next-Keeps, interrupt_number-Keeps)

  brkp-Keeps : Keeps P machine_execute_brkp
  unfolding machine_execute_brkp
  brkp-Keeps = modify-Keeps closed.words _ (λ s. ground arith)

  then-Keeps : {A : Type 0} (m : M (Unit {0})) (a : A) → Keeps P m → Keeps P (m >> pure a)
  then-Keeps m a h = search (keeps_rules, h)

  pub machine_execute_instruction-Keeps : (x : Action) → Keeps P (machine_execute_instruction x)
  unfolding machine_execute_instruction
  machine_execute_instruction-Keeps mov = then-Keeps _ _ (machine_execute_mov-Keeps closed.words)
  machine_execute_instruction-Keeps (arith_op op) =
      then-Keeps _ _ (machine_execute_arith-Keeps closed.words op)
  machine_execute_instruction-Keeps (unary op) =
      then-Keeps _ _ (machine_execute_unary-Keeps closed.words op)
  machine_execute_instruction-Keeps (logical op) =
      then-Keeps _ _ (machine_execute_logical-Keeps closed.words op)
  machine_execute_instruction-Keeps (jump op) =
      then-Keeps _ _ (machine_execute_jump-Keeps closed.words op)
  machine_execute_instruction-Keeps (stack op) =
      then-Keeps _ _ (machine_execute_stack-Keeps closed.words op)
  machine_execute_instruction-Keeps call = then-Keeps _ _ (machine_execute_call-Keeps closed.words)
  machine_execute_instruction-Keeps ret = then-Keeps _ _ (machine_execute_ret-Keeps closed.words)
  machine_execute_instruction-Keeps brkp = then-Keeps _ _ brkp-Keeps
  machine_execute_instruction-Keeps interrupt = then-Keeps _ _ interrupt-Keeps
  machine_execute_instruction-Keeps (disk op now) =
      then-Keeps _ _ (machine_execute_disk-Keeps closed.words op now (disk_transfer-Keeps op now))
  machine_execute_instruction-Keeps encrypt =
      then-Keeps _ _ (machine_execute_encrypt-Keeps closed.words)
  machine_execute_instruction-Keeps backup =
      then-Keeps _ _ (machine_execute_backup-Keeps closed.words)
  machine_execute_instruction-Keeps restore =
      then-Keeps _ _ (machine_execute_restore-Keeps closed.words)
  machine_execute_instruction-Keeps input = then-Keeps _ _ (machine_schedule_in-Keeps closed.words)
  machine_execute_instruction-Keeps input_now =
      then-Keeps _ _ (machine_execute_ini-Keeps closed.words)
  machine_execute_instruction-Keeps output =
      then-Keeps _ _ (machine_execute_print-Keeps closed.words)
  machine_execute_instruction-Keeps iret = then-Keeps _ _ iret-Keeps
  machine_execute_instruction-Keeps halt = search keeps_rules
  machine_execute_instruction-Keeps nop = search keeps_rules
