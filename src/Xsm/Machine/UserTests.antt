-- ===== src/Xsm/Machine/UserTests.antt =====
-- A program in user mode: an interrupt, the return from it, and an exception.
use myexpos.Prelude.{ℕ, ◌↔◌, ◌==◌, if◌then◌else◌, some, codes, ◌≡◌, ◌≢◌, refl, true, false, arith}
use myexpos.Prelude.Int.{pos}
use myexpos.Xsm.Word.{word_get_integer}
use myexpos.Xsm.Registers.{sp, ip, ptlr, registers_get_register_code}
use myexpos.Xsm.State.{Machine, Run, Token, instruction, ok, user, in_reg}
use myexpos.Xsm.Machine.Stack.{machine_execute_iret}
use myexpos.Xsm.Machine.Execute.{machine_execute_interrupt_do}
use myexpos.Xsm.Machine.Cycle.{machine_handle_exception, machine_round, running}
use myexpos.Xsm.Machine.Interrupts.{
  MapsTo, Entered, interrupted, interrupt-Entered, interrupted-Entered, iret-interrupt,
}
use myexpos.Xsm.Machine.Faults.{InHandler, machine_handle_exception-InHandler}
use myexpos.Xsm.Machine.Base.{machine_get_register}
use myexpos.Xsm.Machine.Access.{InUserMode, machine_get_register-user_iff}
use myexpos.Xsm.Machine.Open.{machine}
use myexpos.Xsm.Machine.Tokens.{tokenize_next_token}
use myexpos.Xsm.Machine.Privilege.{fetching, Trapped, machine_round-privileged}
use myexpos.Xsm.Machine.Samples.{program, word}

top_at_0 : word_get_integer (program.regs sp) ≡ pos 0
unfolding machine
top_at_0 = refl

writes_to_frame_3 : MapsTo program true 1 1537
unfolding machine
writes_to_frame_3 = refl

interrupt-Entered_example :
    (t : Machine) × (machine_execute_interrupt_do (pos 4) program ≡ ok tt t)
    × Entered program t 4 0 1537
interrupt-Entered_example =
    interrupt-Entered program 4 0 1537 refl (omega arith) (omega arith) top_at_0 (omega arith)
      writes_to_frame_3 (omega arith)

-- The state in the handler.
abbrev handler : Machine
handler = interrupted program 0 1537 4

reads_frame_3 : MapsTo handler false 1 1537
unfolding machine
reads_frame_3 = refl

iret-interrupt_example :
    (v : Machine) × (machine_execute_iret handler ≡ ok tt v)
    × (v.cpu.mode ≡ user)
    × (word_get_integer (v.regs ip) ≡ word_get_integer (program.regs ip))
    × (word_get_integer (v.regs sp) ≡ word_get_integer (program.regs sp))
    × ((r : ℕ) → r ≢ sp → r ≢ ip → v.regs r ≡ handler.regs r)
    × ((b : ℕ) → v.mem b ≡ handler.mem b)
iret-interrupt_example =
    iret-interrupt program handler handler 4 0 1537 top_at_0 (omega arith)
      (interrupted-Entered program 4 0 1537 (omega arith) (omega arith)) refl refl reads_frame_3
      (omega arith)

machine_handle_exception-InHandler_example :
    (t : Machine) × (machine_handle_exception program ≡ ok true t) × InHandler program t
machine_handle_exception-InHandler_example =
    machine_handle_exception-InHandler program refl (omega arith) (omega arith)

machine_get_register-user_iff_example :
    (machine_get_register (codes "PTLR") program ≡ ok (in_reg ptlr) program)
    ↔ ((registers_get_register_code (codes "PTLR") ≡ some ptlr) × InUserMode ptlr)
machine_get_register-user_iff_example =
    machine_get_register-user_iff (codes "PTLR") ptlr program refl

-- The program begins with HALT.
abbrev halting : Machine
halting = record program { mem = λ a. if a == 1536 then word (codes "halt") else program.mem a }

abbrev state_of : Run Token → Machine
state_of (ok t s) = s
state_of _ = halting

abbrev halt_read : Machine
halt_read = state_of (tokenize_next_token (fetching halting))

reads_halt : tokenize_next_token (fetching halting) ≡ ok (instruction (codes "halt")) halt_read
unfolding machine
reads_halt = refl

in_user_mode : halt_read.cpu.mode ≡ user
unfolding machine
in_user_mode = refl

no_address : (halt_read.exception.ma ≡ pos 0) × (halt_read.exception.epn ≡ pos 0)
unfolding machine
no_address = (refl, refl)

machine_round-privileged_example :
    (v : Machine) × (machine_round halting ≡ running v) × Trapped halting halt_read v
unfolding myexpos.Libc.same_nocase
machine_round-privileged_example =
    machine_round-privileged halting halt_read (codes "halt") reads_halt in_user_mode refl
      (rw (no_address.0) (omega arith)) (rw (no_address.1) (omega arith))
