-- ===== src/Xsm/Machine/Cycle.antt =====
-- The main loop: machine_post_execute, machine_handle_exception, machine_init and machine_run of
-- xsm/machine.c.
use myexpos.Prelude.{
  ℕ, zero, suc, Bool, true, false, ◌&&◌, not, Option, none, some, [], codes, if◌then◌else◌, get_or,
}
use myexpos.Prelude.Int.{ℤ, pos, negsuc, leb_ℤ, eq_ℤ, add32, sub32}
use myexpos.Xsm.Word.{word_store_integer, word_store_string}
use myexpos.Xsm.Registers.{eip, ec, epn, ema, p0}
use myexpos.Xsm.State.{
  Machine, Run, ok, raised, unspecified, hang, M, ◌>>=◌, ◌>>◌, pure, gets, modify, in_reg, in_mem,
  in_console, peek, poke, get_integer, store_integer, store_string, copy, Token, instruction,
  illegal_instruction, Mode, user, kernel, DiskOp, load, store, ConsoleOp, print, read, idle,
  Options, XsmException, ExceptionType, page_fault, illegal_memory, exception_number, DiskOperation,
}
use myexpos.Xsm.Machine.Base.{machine_get_mode, machine_get_ipreg, machine_register_exception}
use myexpos.Xsm.Machine.Tokens.{tokenize_next_token, tokenize_clear_stream, tokenize_reset}
use myexpos.Xsm.Machine.Devices.{
  machine_execute_print_do, machine_execute_in_do, machine_execute_load_do,
  machine_execute_store_do, is_busy,
}
use myexpos.Xsm.Machine.Opcode.{nop, actions, machine_get_opcode, machine_instr_req_privilege}
use myexpos.Xsm.Machine.Execute.{
  machine_execute_interrupt_do, machine_execute_instruction, interrupt_exhandler, interrupt_timer,
  interrupt_disk, interrupt_console,
}

-- The three counters run down: the timer to -1, the others to 0.
abbrev pub count_down : ℤ → ℤ → ℤ
count_down bottom n = if leb_ℤ bottom n then sub32 n (pos 1) else n

unfoldable pub tick : Machine → Machine
tick s = record s {
  cpu = record (s.cpu) {
    timer = count_down (pos 0) s.cpu.timer;
    disk_wait = count_down (pos 1) s.cpu.disk_wait;
    console_wait = count_down (pos 1) s.cpu.console_wait;
  };
}

unfoldable pub transfer : DiskOp → DiskOperation → M (Unit {0})
transfer load op = machine_execute_load_do op.dest_page op.src_block
transfer store op = machine_execute_store_do op.dest_page op.src_block

abbrev pub set_disk_idle : M (Unit {0})
set_disk_idle = modify (λ s. record s { cpu = record (s.cpu) { disk_state = idle } })

abbrev pub set_console_idle : M (Unit {0})
set_console_idle = modify (λ s. record s { cpu = record (s.cpu) { console_state = idle } })

unfoldable pub disk_done : M (Unit {0})
disk_done = do
  op ← gets (λ s. s.cpu.disk_op)
  transfer op.operation op
  machine_execute_interrupt_do interrupt_disk
  set_disk_idle

unfoldable pub console_transfer : ConsoleOp → M (Unit {0})
console_transfer print = do w ← gets (λ s. s.cpu.console_op.word); machine_execute_print_do w
console_transfer read = do machine_execute_in_do in_console; copy (in_reg p0) in_console

unfoldable pub console_done : M (Unit {0})
console_done = do
  op ← gets (λ s. s.cpu.console_op.operation)
  console_transfer op
  machine_execute_interrupt_do interrupt_console
  set_console_idle

unfoldable pub timer_done : M (Unit {0})
timer_done = do
  machine_execute_interrupt_do interrupt_timer
  modify (λ s. record s { cpu = record (s.cpu) { timer = s.options.timer } })

-- The timer goes before the disk, and the disk before the console.
unfoldable pub machine_post_execute : M (Unit {0})
machine_post_execute = do
  modify tick
  s ← gets (λ s. s)
  if eq_ℤ s.cpu.timer (pos 0)
      then timer_done
      else if is_busy s.cpu.disk_state
      then (if eq_ℤ s.cpu.disk_wait (pos 0) then disk_done else pure tt)
      else if is_busy s.cpu.console_state
      then (if eq_ℤ s.cpu.console_wait (pos 0) then console_done else pure tt)
      else pure tt

unfoldable pub exception_registers : ExceptionType → XsmException → M (Unit {0})
exception_registers illegal_memory e = do
  store_integer (in_reg ema) e.ma
  store_string (in_reg epn) []
exception_registers page_fault e = do store_string (in_reg ema) []; store_integer (in_reg epn) e.epn
exception_registers _ e = do store_string (in_reg ema) []; store_string (in_reg epn) []

-- The result is false for XSM_FAILURE, an exception in kernel mode.
unfoldable pub handle_in : Mode → M Bool
handle_in user = do machine_execute_interrupt_do interrupt_exhandler; pure true
handle_in kernel = pure false

unfoldable pub machine_handle_exception : M Bool
machine_handle_exception = do
  curr_ip ← get_integer machine_get_ipreg
  store_integer machine_get_ipreg (sub32 curr_ip (pos 2))
  e ← gets (λ s. s.exception)
  store_integer (in_reg eip) (sub32 curr_ip (pos 2))
  store_integer (in_reg ec) (exception_number e.type)
  exception_registers e.type e
  m ← machine_get_mode
  handle_in m

unfoldable pub known_opcode : Option ℕ → M ℕ
known_opcode none =
    machine_register_exception "The instruction is not available in this architecture"
      illegal_instruction
known_opcode (some opcode) = pure opcode

-- The token that has to name the instruction.
unfoldable pub instruction_opcode : Token → M ℕ
instruction_opcode (instruction name) = known_opcode (machine_get_opcode name)
instruction_opcode _ =
    machine_register_exception "The simulator has encountered an illegal instruction"
      illegal_instruction

abbrev pub is_kernel : Mode → Bool
is_kernel user = false
is_kernel kernel = true

unfoldable pub check_privilege : ℕ → Mode → M (Unit {0})
check_privilege opcode m =
    if is_kernel (machine_instr_req_privilege opcode) && not (is_kernel m)
    then machine_register_exception "This instruction requires more privilege" illegal_instruction
    else pure tt

unfoldable pub post_execute_in : Mode → M (Unit {0})
post_execute_in user = machine_post_execute
post_execute_in kernel = pure tt

abbrev pub finish_instruction : Bool → M Bool
finish_instruction false = pure false
finish_instruction true = do m ← machine_get_mode; post_execute_in m; pure true

-- machine_pre_execute, for a machine that runs without --debug, where the debugger is not called.
abbrev pub machine_pre_execute : M (Unit {0})
machine_pre_execute = modify (λ s. record s { cpu = record (s.cpu) { mem_left = negsuc 0 } })

-- The tail of the loop's body: the privilege, the instruction, and the devices in user mode.
unfoldable pub run_opcode : ℕ → M Bool
run_opcode opcode = do
  m ← machine_get_mode
  check_privilege opcode m
  more ← machine_execute_instruction (get_or actions opcode nop)
  finish_instruction more

-- The body of the loop of machine_run behind the exception point; false leaves the loop.
unfoldable pub machine_cycle : M Bool
machine_cycle = do
  tokenize_clear_stream
  tokenize_reset
  ipval ← get_integer machine_get_ipreg
  machine_pre_execute
  token ← tokenize_next_token
  store_integer machine_get_ipreg (add32 ipval (pos 2))
  opcode ← instruction_opcode token
  run_opcode opcode

-- The ways in which machine_run can go on or end.
pub data Outcome : Type 0 where
  halted : Machine → Outcome
  running : Machine → Outcome
  no_meaning : Outcome
  lexer_hangs : Outcome

abbrev pub after_handler : Run Bool → Outcome
after_handler (ok true s) = running s
after_handler (ok false s) = halted s
after_handler (raised s) = halted s
after_handler unspecified = no_meaning
after_handler hang = lexer_hangs

abbrev pub after_cycle : Run Bool → Outcome
after_cycle (ok true s) = running s
after_cycle (ok false s) = halted s
after_cycle (raised s) = after_handler (machine_handle_exception s)
after_cycle unspecified = no_meaning
after_cycle hang = lexer_hangs

-- One round of the loop, the handling of its exception included.
unfoldable pub machine_round : Machine → Outcome
machine_round s = after_cycle (machine_cycle s)

-- At most `rounds` rounds of the loop; a program may well run for ever.
unfoldable pub machine_run : ℕ → Machine → Outcome
machine_run zero s = running s
machine_run (suc rounds) s = elim (machine_round s) [
  | running s' ↦ machine_run rounds s'
  | halted s' ↦ halted s'
  | no_meaning ↦ no_meaning
  | lexer_hangs ↦ lexer_hangs
]

-- The state that machine_init leaves, from what malloc and the loader put into `s`.
unfoldable pub machine_init : Options → Machine → Machine
machine_init options s =
    let t = record s { options = options } in
    let t1 = poke (in_mem 0) (word_store_string (t.mem 0) (codes "LOADI 1, 0")) t in
    let t2 = poke (in_mem 2) (word_store_string (t1.mem 2) (codes "LOADI 2, 1")) t1 in
    let t3 = poke (in_mem 4) (word_store_string (t2.mem 4) (codes "JMP 512")) t2 in
    let t4 = poke machine_get_ipreg (word_store_integer (peek machine_get_ipreg t3) (pos 0)) t3 in
    record t4 {
      cpu = record (t4.cpu) {
        mode = kernel;
        console_state = idle;
        disk_state = idle;
        timer = options.timer;
      };
    }
