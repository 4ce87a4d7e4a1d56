-- ===== src/Xsm/Machine/Faults.antt =====
-- machine_handle_exception: what a program's exception handler finds.
use myexpos.Prelude.{◌≡◌, ◌≢◌, refl, ℕ, ◌<◌, true, arith, [], ap, ◌∙◌}
use myexpos.Prelude.{false}
use myexpos.Prelude.Int.{ℤ, pos, InInt, sub32, wrap32-InInt}
use myexpos.Xsm.Word.{
  Word, word_get_integer, word_store_integer, word_get_string, word_store_string,
}
use myexpos.Xsm.Word.Numbers.{word_get_integer-word_store_integer}
use myexpos.Xsm.Word.Texts.{word_get_string-word_store_string}
use myexpos.Xsm.Registers.{ip, eip, ec, epn, ema}
use myexpos.Xsm.State.{
  Machine, Mode, user, kernel, ok, raised, ◌>>=◌, update, peek, poke, get_integer, store_integer,
  store_string, illegal_instruction, illegal_memory, page_fault, arithmetic, ExceptionType,
  exception_number, XsmException, in_reg,
}
use myexpos.Xsm.Machine.Execute.{machine_execute_interrupt_do, interrupt_from, enter_handler}
use myexpos.Xsm.Machine.Cycle.{
  exception_registers, handle_in, machine_handle_exception, machine_cycle, machine_round, halted,
}
use myexpos.Xsm.Machine.Interrupts.{handler_address, in_kernel}

-- The state when the registers have the report of an exception of type `t`.
abbrev set_integer : ℕ → ℤ → Machine → Machine
set_integer r n s = poke (in_reg r) (word_store_integer (s.regs r) n) s

abbrev set_empty : ℕ → Machine → Machine
set_empty r s = poke (in_reg r) (word_store_string (s.regs r) []) s

abbrev report : ExceptionType → XsmException → Machine → Machine
report illegal_memory e s = set_empty epn (set_integer ema e.ma s)
report page_fault e s = set_integer epn e.epn (set_empty ema s)
report _ e s = set_empty epn (set_empty ema s)

abbrev located : ℤ → Machine → Machine
located at s =
    set_integer ec (exception_number s.exception.type) (set_integer eip at (set_integer ip at s))

abbrev handled : ℤ → Machine → Machine
handled at s =
    in_kernel (set_integer ip (pos 1024) (report s.exception.type s.exception (located at s)))

-- What the exception registers say of an exception: the address in EMA if it was an access to an
-- illegal address, the page in EPN if it was a page fault, and an empty string where nothing is said.
abbrev pub Reports : ExceptionType → XsmException → Machine → Type 0
Reports illegal_memory e s =
    (word_get_integer (s.regs ema) ≡ e.ma) × (word_get_string (s.regs epn) ≡ [])
Reports page_fault e s =
    (word_get_string (s.regs ema) ≡ []) × (word_get_integer (s.regs epn) ≡ e.epn)
Reports _ e s = (word_get_string (s.regs ema) ≡ []) × (word_get_string (s.regs epn) ≡ [])

-- The state in which the exception handler begins after an exception in `s`. EIP has IP less 2: the
-- failed instruction's address where IP was advanced past it, and another number where the exception was
-- raised before that, or for a NULL instruction.
pub record InHandler (s t : Machine) : Type 0 where
  pub mode : t.cpu.mode ≡ kernel
  pub handler : word_get_integer (t.regs ip) ≡ pos 1024
  pub where_from : word_get_integer (t.regs eip) ≡ sub32 (word_get_integer (s.regs ip)) (pos 2)
  pub cause : word_get_integer (t.regs ec) ≡ exception_number s.exception.type
  pub details : Reports s.exception.type s.exception t
  pub regs : (r : ℕ) → r < eip → r ≢ ip → t.regs r ≡ s.regs r
  pub mem : (a : ℕ) → t.mem a ≡ s.mem a

interrupt_from_0 :
    (mode : Mode) (s : Machine)
    → mode ≡ user
    → interrupt_from mode (pos 0) s ≡ ok tt (in_kernel (set_integer ip (pos 1024) s))
unfolding ◌>>=◌ store_integer interrupt_from enter_handler peek
interrupt_from_0 mode s e = rw (e, handler_address 0 (omega arith)) refl

handle_in-user :
    (mode : Mode) (s : Machine)
    → mode ≡ user
    → s.cpu.mode ≡ user
    → handle_in mode s ≡ ok true (in_kernel (set_integer ip (pos 1024) s))
unfolding ◌>>=◌ store_integer handle_in machine_execute_interrupt_do peek
handle_in-user mode s e m = rw (e, interrupt_from_0 s.cpu.mode s m) refl

exception_registers-report :
    (t : ExceptionType) (e : XsmException) (s : Machine)
    → exception_registers t e s ≡ ok tt (report t e s)
unfolding ◌>>=◌ store_integer store_string exception_registers peek
exception_registers-report page_fault e s = refl
exception_registers-report illegal_instruction e s = refl
exception_registers-report illegal_memory e s = refl
exception_registers-report arithmetic e s = refl

report_mode :
    (t : ExceptionType) (e : XsmException) (s : Machine) → (report t e s).cpu.mode ≡ s.cpu.mode
unfolding poke
report_mode page_fault e s = refl
report_mode illegal_instruction e s = refl
report_mode illegal_memory e s = refl
report_mode arithmetic e s = refl

handled_runs :
    (s : Machine)
    → s.cpu.mode ≡ user
    → machine_handle_exception s
      ≡ ok true (handled (sub32 (word_get_integer (s.regs ip)) (pos 2)) s)
unfolding ◌>>=◌ get_integer store_integer store_string machine_handle_exception peek poke
handled_runs s m =
    let at = sub32 (word_get_integer (s.regs ip)) (pos 2) in
    let mode = report_mode s.exception.type s.exception (located at s) ∙ m in
    rw (exception_registers-report s.exception.type s.exception (located at s))
      (handle_in-user _ (report s.exception.type s.exception (located at s)) mode mode)

empty_string : (w : Word) → word_get_string (word_store_string w []) ≡ []
empty_string w = word_get_string-word_store_string w [] tt (omega arith)

reported :
    (t : ExceptionType) (e : XsmException) (s : Machine)
    → InInt e.ma
    → InInt e.epn
    → Reports t e (report t e s)
unfolding poke update
reported page_fault e s a p = (empty_string _, word_get_integer-word_store_integer _ _ p)
reported illegal_instruction e s a p = (empty_string _, empty_string _)
reported illegal_memory e s a p = (word_get_integer-word_store_integer _ _ a, empty_string _)
reported arithmetic e s a p = (empty_string _, empty_string _)

report_others :
    (t : ExceptionType) (e : XsmException) (s : Machine) (r : ℕ)
    → r ≢ ema
    → r ≢ epn
    → (report t e s).regs r ≡ s.regs r
unfolding poke update
report_others page_fault e s r h k = ground arith
report_others illegal_instruction e s r h k = ground arith
report_others illegal_memory e s r h k = ground arith
report_others arithmetic e s r h k = ground arith

report_mem : (t : ExceptionType) (e : XsmException) (s : Machine) → (report t e s).mem ≡ s.mem
unfolding poke
report_mem page_fault e s = refl
report_mem illegal_instruction e s = refl
report_mem illegal_memory e s = refl
report_mem arithmetic e s = refl

kept_Reports :
    (t : ExceptionType) (e : XsmException) (s : Machine)
    → Reports t e s
    → Reports t e (in_kernel (set_integer ip (pos 1024) s))
unfolding poke update
kept_Reports page_fault e s h = h
kept_Reports illegal_instruction e s h = h
kept_Reports illegal_memory e s h = h
kept_Reports arithmetic e s h = h

number_InInt : (t : ExceptionType) → InInt (exception_number t)
number_InInt page_fault = omega arith
number_InInt illegal_instruction = omega arith
number_InInt illegal_memory = omega arith
number_InInt arithmetic = omega arith

ip_only :
    (r : ℕ) (s : Machine) → r ≢ ip → (in_kernel (set_integer ip (pos 1024) s)).regs r ≡ s.regs r
unfolding poke update
ip_only r s ne = ground arith

located_others :
    (at : ℤ) (s : Machine) (r : ℕ) → r < eip → r ≢ ip → (located at s).regs r ≡ s.regs r
unfolding poke update
located_others at s r lt ne = ground arith

handled-InHandler :
    (s : Machine)
    → InInt s.exception.ma
    → InInt s.exception.epn
    → InHandler s (handled (sub32 (word_get_integer (s.regs ip)) (pos 2)) s)
unfolding poke update
handled-InHandler s a p =
    let at = sub32 (word_get_integer (s.regs ip)) (pos 2) in
    let t = s.exception.type in
    let e = s.exception in
    let others = report_others t e (located at s) in
    record {
      mode = refl;
      handler = word_get_integer-word_store_integer _ (pos 1024) (omega arith);
      where_from =
          ap word_get_integer (others eip (omega arith) (omega arith))
          ∙ word_get_integer-word_store_integer _ at (wrap32-InInt _);
      cause =
          ap word_get_integer (others ec (omega arith) (omega arith))
          ∙ word_get_integer-word_store_integer _ (exception_number t) (number_InInt t);
      details = kept_Reports t e (report t e (located at s)) (reported t e (located at s) a p);
      regs = λ r lt ne.
          ip_only r (report t e (located at s)) ne
          ∙ others r (omega arith) (omega arith)
          ∙ located_others at s r lt ne;
      mem = λ b. ap (λ (m : ℕ → Word). m b) (report_mem t e (located at s));
    }

-- In user mode an exception goes to the program's exception handler: the machine is in kernel mode
-- with IP at 1024, EIP holds the value that IP had, less 2, EC
-- the number of the exception, EMA or EPN the address or the page where there is one, and the
-- registers before EIP, IP excepted, and the memory are as they were. The exception record is taken
-- to hold values of type `int`.
pub machine_handle_exception-InHandler :
    (s : Machine)
    → s.cpu.mode ≡ user
    → InInt s.exception.ma
    → InInt s.exception.epn
    → (t : Machine) × (machine_handle_exception s ≡ ok true t) × InHandler s t
machine_handle_exception-InHandler s m a p = (
  handled (sub32 (word_get_integer (s.regs ip)) (pos 2)) s,
  handled_runs s m,
  handled-InHandler s a p,
)

handle_in-kernel : (mode : Mode) (s : Machine) → mode ≡ kernel → handle_in mode s ≡ ok false s
unfolding ◌>>=◌ handle_in
handle_in-kernel mode s e = rw e refl

stopped : Machine → Machine
stopped s =
    report s.exception.type s.exception (located (sub32 (word_get_integer (s.regs ip)) (pos 2)) s)

kernel_runs :
    (s : Machine) → s.cpu.mode ≡ kernel → machine_handle_exception s ≡ ok false (stopped s)
unfolding ◌>>=◌ get_integer store_integer store_string machine_handle_exception peek poke stopped
kernel_runs s m =
    let at = sub32 (word_get_integer (s.regs ip)) (pos 2) in
    rw (exception_registers-report s.exception.type s.exception (located at s)) (
      handle_in-kernel _ (report s.exception.type s.exception (located at s))
        (report_mode s.exception.type s.exception (located at s) ∙ m))

-- An exception in kernel mode ends the run: a round that raises one in kernel mode leaves the machine
-- halted, with the value of IP at the exception, less 2, in EIP, the number of the exception in EC, and the memory as it was when the exception was raised.
pub machine_round-kernel :
    (s t : Machine)
    → machine_cycle s ≡ raised t
    → t.cpu.mode ≡ kernel
    → (u : Machine) × (machine_round s ≡ halted u)
      × (word_get_integer (u.regs eip) ≡ sub32 (word_get_integer (t.regs ip)) (pos 2))
      × (word_get_integer (u.regs ec) ≡ exception_number t.exception.type)
      × ((a : ℕ) → u.mem a ≡ t.mem a)
unfolding machine_round stopped poke update
machine_round-kernel s t raises m =
    let at = sub32 (word_get_integer (t.regs ip)) (pos 2) in
    let others = report_others t.exception.type t.exception (located at t) in
    (
      stopped t,
      rw (raises, kernel_runs t m) refl,
      ap word_get_integer (others eip (omega arith) (omega arith))
          ∙ word_get_integer-word_store_integer _ at (wrap32-InInt _),
      ap word_get_integer (others ec (omega arith) (omega arith))
          ∙ word_get_integer-word_store_integer _ (exception_number t.exception.type)
              (number_InInt t.exception.type),
      λ b. ap (λ (m : ℕ → Word). m b) (report_mem t.exception.type t.exception (located at t)),
    )
