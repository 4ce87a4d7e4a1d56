-- ===== src/Xsm/Machine/Keeps/Rounds.antt =====
-- The main loop keeps what the instructions keep.
use myexpos.Prelude.{arith, ℕ, zero, suc, Bool, true, false, Option, none, some, []}
use myexpos.Xsm.State.{
  Machine, Mode, user, kernel, Run, ok, raised, unspecified, hang, modify, Token, instruction,
  DiskOp, load, store, ConsoleOp, print, read, DiskOperation, ExceptionType, page_fault,
  illegal_memory, XsmException,
}
use myexpos.Xsm.Machine.Cycle.{
  tick, transfer, disk_done, console_transfer, console_done, timer_done, machine_post_execute,
  exception_registers, handle_in, machine_handle_exception, known_opcode, instruction_opcode,
  check_privilege, post_execute_in, run_opcode, finish_instruction, machine_cycle, Outcome, halted,
  running, no_meaning, lexer_hangs, after_handler, after_cycle, machine_round, machine_run,
  set_disk_idle, set_console_idle, machine_pre_execute,
}
use myexpos.Xsm.Machine.Tokens.{tokenize_clear_stream, tokenize_reset}
use myexpos.Xsm.Machine.Keeps.{
  Keeps, Ends, modify-Keeps, exception-Keeps, store_integer-Keeps, store_string-Keeps, copy-Keeps,
  keeps_rules, returns, raises, open_ended, never,
}
use myexpos.Xsm.Machine.Keeps.Tokens.{tokenize_next_token-Keeps, buffer-Keeps, lookahead-Keeps}
use myexpos.Xsm.Machine.Keeps.Devices.{machine_execute_print_do-Keeps, machine_execute_in_do-Keeps}
use myexpos.Xsm.Machine.Keeps.Execute.{
  interrupt_do-Keeps, load_do-Keeps, machine_execute_instruction-Keeps, store_do-Keeps,
}
use myexpos.Xsm.Machine.Keeps.Execute.{ClosedRounds}

-- Of an outcome that has a state, the state satisfies `P`.
pub data Settles (P : Machine → Type 0) : Outcome → Type 0 where
  in_halted : {s : Machine} → P s → Settles P (halted s)
  in_running : {s : Machine} → P s → Settles P (running s)
  without_meaning : Settles P no_meaning
  in_lexer : Settles P lexer_hangs

module _ {P : Machine → Type 0} (closed : ClosedRounds P) where
  transfer-Keeps : (op : DiskOp) (o : DiskOperation) → Keeps P (transfer op o)
  unfolding transfer
  transfer-Keeps load o = (load_do-Keeps closed) _ _
  transfer-Keeps store o = (store_do-Keeps closed) _ _

  tick-Keeps : Keeps P (modify tick)
  unfolding tick
  tick-Keeps = modify-Keeps closed.words _ (λ s. ground arith)

  disk_idle-Keeps : Keeps P set_disk_idle
  disk_idle-Keeps = modify-Keeps closed.words _ (λ s. ground arith)

  console_idle-Keeps : Keeps P set_console_idle
  console_idle-Keeps = modify-Keeps closed.words _ (λ s. ground arith)

  disk_done-Keeps : Keeps P disk_done
  unfolding disk_done
  disk_done-Keeps =
      search (keeps_rules, transfer-Keeps, (interrupt_do-Keeps closed), disk_idle-Keeps)

  console_transfer-Keeps : (op : ConsoleOp) → Keeps P (console_transfer op)
  unfolding console_transfer
  console_transfer-Keeps print = search (keeps_rules, machine_execute_print_do-Keeps closed.words)
  console_transfer-Keeps read =
      search (keeps_rules, machine_execute_in_do-Keeps closed.words, copy-Keeps closed.words)

  console_done-Keeps : Keeps P console_done
  unfolding console_done
  console_done-Keeps =
      search (keeps_rules, console_transfer-Keeps, (interrupt_do-Keeps closed), console_idle-Keeps)

  timer_set-Keeps :
      Keeps P (modify (λ s. record s { cpu = record (s.cpu) { timer = s.options.timer } }))
  timer_set-Keeps = modify-Keeps closed.words _ (λ s. ground arith)

  timer_done-Keeps : Keeps P timer_done
  unfolding timer_done
  timer_done-Keeps = search (keeps_rules, (interrupt_do-Keeps closed), timer_set-Keeps)

  post_execute-Keeps : Keeps P machine_post_execute
  unfolding machine_post_execute
  post_execute-Keeps =
      search (keeps_rules, tick-Keeps, timer_done-Keeps, disk_done-Keeps, console_done-Keeps) depth
        12

  exception_registers-Keeps :
      (t : ExceptionType) (e : XsmException) → Keeps P (exception_registers t e)
  unfolding exception_registers
  exception_registers-Keeps illegal_memory e =
      search (keeps_rules, store_integer-Keeps closed.words, store_string-Keeps closed.words)
  exception_registers-Keeps page_fault e =
      search (keeps_rules, store_integer-Keeps closed.words, store_string-Keeps closed.words)
  exception_registers-Keeps _ e = search (keeps_rules, store_string-Keeps closed.words)

  handle_in-Keeps : (m : Mode) → Keeps P (handle_in m)
  unfolding handle_in
  handle_in-Keeps user = search (keeps_rules, (interrupt_do-Keeps closed))
  handle_in-Keeps kernel = search keeps_rules

  handle_exception-Keeps : Keeps P machine_handle_exception
  unfolding machine_handle_exception
  handle_exception-Keeps =
      search
        (keeps_rules, store_integer-Keeps closed.words, exception_registers-Keeps, handle_in-Keeps)
        depth 15

  known_opcode-Keeps : (o : Option ℕ) → Keeps P (known_opcode o)
  unfolding known_opcode
  known_opcode-Keeps none = exception-Keeps closed.words _ _
  known_opcode-Keeps (some c) = search keeps_rules

  instruction_opcode-Keeps : (t : Token) → Keeps P (instruction_opcode t)
  unfolding instruction_opcode
  instruction_opcode-Keeps (instruction name) = known_opcode-Keeps _
  instruction_opcode-Keeps _ = exception-Keeps closed.words _ _

  check_privilege-Keeps : (c : ℕ) (m : Mode) → Keeps P (check_privilege c m)
  unfolding check_privilege
  check_privilege-Keeps c m = search (keeps_rules, exception-Keeps closed.words)

  post_execute_in-Keeps : (m : Mode) → Keeps P (post_execute_in m)
  unfolding post_execute_in
  post_execute_in-Keeps user = post_execute-Keeps
  post_execute_in-Keeps kernel = search keeps_rules

  finish-Keeps : (b : Bool) → Keeps P (finish_instruction b)
  finish-Keeps false = search keeps_rules
  finish-Keeps true = search (keeps_rules, post_execute_in-Keeps)

  run_opcode-Keeps : (c : ℕ) → Keeps P (run_opcode c)
  unfolding run_opcode
  run_opcode-Keeps c =
      search
        (
          keeps_rules,
          check_privilege-Keeps,
          (machine_execute_instruction-Keeps closed),
          finish-Keeps,
        )
        depth 10

  clear_stream-Keeps : Keeps P tokenize_clear_stream
  clear_stream-Keeps = buffer-Keeps closed.words []

  reset-Keeps : Keeps P tokenize_reset
  reset-Keeps = lookahead-Keeps closed.words none

  pre_execute-Keeps : Keeps P machine_pre_execute
  pre_execute-Keeps = modify-Keeps closed.words _ (λ s. ground arith)

  pub machine_cycle-Keeps : Keeps P machine_cycle
  unfolding machine_cycle
  machine_cycle-Keeps =
      search
        (
          keeps_rules,
          clear_stream-Keeps,
          reset-Keeps,
          pre_execute-Keeps,
          tokenize_next_token-Keeps,
          store_integer-Keeps closed.words,
          instruction_opcode-Keeps,
          run_opcode-Keeps,
        )
        depth 20

  after_handler-Settles : (r : Run Bool) → Ends P r → Settles P (after_handler r)
  after_handler-Settles (ok true s) (returns h) = in_running h
  after_handler-Settles (ok false s) (returns h) = in_halted h
  after_handler-Settles (raised s) (raises h) = in_halted h
  after_handler-Settles unspecified open_ended = without_meaning
  after_handler-Settles hang never = in_lexer

  after_cycle-Settles : (r : Run Bool) → Ends P r → Settles P (after_cycle r)
  after_cycle-Settles (ok true s) (returns h) = in_running h
  after_cycle-Settles (ok false s) (returns h) = in_halted h
  after_cycle-Settles (raised s) (raises h) =
      after_handler-Settles (machine_handle_exception s) (handle_exception-Keeps.at s h)
  after_cycle-Settles unspecified open_ended = without_meaning
  after_cycle-Settles hang never = in_lexer

  pub machine_round-Settles : (s : Machine) → P s → Settles P (machine_round s)
  unfolding machine_round
  machine_round-Settles s h = after_cycle-Settles (machine_cycle s) (machine_cycle-Keeps.at s h)

  continue_run :
      (rounds : ℕ) (o : Outcome)
      → ((s : Machine) → P s → Settles P (machine_run rounds s))
      → Settles P o
      → Settles P (elim o [
        | running s' ↦ machine_run rounds s'
        | halted s' ↦ halted s'
        | no_meaning ↦ no_meaning
        | lexer_hangs ↦ lexer_hangs
      ])
  continue_run rounds (running s) ih (in_running h) = ih s h
  continue_run rounds (halted s) ih (in_halted h) = in_halted h
  continue_run rounds no_meaning ih without_meaning = without_meaning
  continue_run rounds lexer_hangs ih in_lexer = in_lexer

  -- A run of any length.
  pub machine_run-Settles : (rounds : ℕ) (s : Machine) → P s → Settles P (machine_run rounds s)
  unfolding machine_run
  machine_run-Settles zero s h = in_running h
  machine_run-Settles (suc rounds) s h =
      continue_run rounds (machine_round s) (machine_run-Settles rounds) (machine_round-Settles s h)
