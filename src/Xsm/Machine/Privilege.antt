-- ===== src/Xsm/Machine/Privilege.antt =====
-- The privileged instructions: a program in user mode that comes to one ends up in its exception handler.
use myexpos.Prelude.{
  ◌≡◌, ◌≢◌, ◌≤◌, ◌<◌, ◌∙◌, refl, ap, inl, inr, ℕ, Bool, true, false, ◌&&◌, ◌||◌, none, some, List,
  [], ◌∷◌, Bytes, codes, leb, arith, All, Bool-cases,
}
use myexpos.Prelude.Int.{ℤ, pos, negsuc, InInt, add32, sub32, wrap32, wrap32-InInt, ◌+ℤ◌, ◌-ℤ◌}
use myexpos.Libc.{same_nocase}
use myexpos.Xsm.Word.{word_get_integer, word_store_integer}
use myexpos.Xsm.Word.Numbers.{word_get_integer-word_store_integer}
use myexpos.Xsm.Registers.{ip, eip, ec, index_nocase}
use myexpos.Xsm.Registers.Codes.{index_nocase_congr}
use myexpos.Xsm.State.{
  Machine, user, kernel, ok, raised, ◌>>=◌, get_integer, store_integer, update, peek, poke, in_reg,
  instruction, illegal_instruction, exception_number, modify,
}
use myexpos.Xsm.Machine.Base.{machine_register_exception, exception_set}
use myexpos.Xsm.Machine.Tokens.{tokenize_next_token}
use myexpos.Xsm.Machine.Opcode.{
  instructions, machine_get_opcode, machine_instr_req_privilege, token_kern_low, token_kern_high,
}
use myexpos.Xsm.Machine.Cycle.{
  check_privilege, run_opcode, instruction_opcode, machine_cycle, machine_round, running,
  machine_handle_exception,
}
use myexpos.Xsm.Machine.Interrupts.{word_get_integer-InInt}
use myexpos.Xsm.Machine.Faults.{InHandler, machine_handle_exception-InHandler}

-- The instructions that give access to the disk, the console, the ports, the kernel's stack frames, the
-- mode and the power switch.
abbrev pub privileged_names : List Bytes
privileged_names =
    codes "LOADI"
    ∷ codes "LOAD"
    ∷ codes "STORE"
    ∷ codes "ENCRYPT"
    ∷ codes "BACKUP"
    ∷ codes "RESTORE"
    ∷ codes "PORT"
    ∷ codes "IN"
    ∷ codes "INI"
    ∷ codes "OUT"
    ∷ codes "IRET"
    ∷ codes "HALT"
    ∷ []

-- A name, whatever its case, is one of a list.
abbrev pub among : List Bytes → Bytes → Bool
among [] name = false
among (n ∷ names) name = same_nocase name n || among names name

record HasKernelCode (name : Bytes) : Type 0 where
  code : ℕ
  has_code : machine_get_opcode name ≡ some code
  low : token_kern_low ≤ code
  high : code ≤ token_kern_high

kernel_code :
    (c : ℕ) (name : Bytes)
    → machine_get_opcode name ≡ some c
    → token_kern_low ≤ c
    → c ≤ token_kern_high
    → HasKernelCode name
kernel_code c name e lo hi = record { code = c; has_code = e; low = lo; high = hi }

kernel_codes : All HasKernelCode privileged_names
unfolding machine_get_opcode index_nocase
kernel_codes = (
  kernel_code 23 _ refl (omega arith) (omega arith),
  (
    kernel_code 24 _ refl (omega arith) (omega arith),
    (
      kernel_code 25 _ refl (omega arith) (omega arith),
      (
        kernel_code 26 _ refl (omega arith) (omega arith),
        (
          kernel_code 27 _ refl (omega arith) (omega arith),
          (
            kernel_code 28 _ refl (omega arith) (omega arith),
            (
              kernel_code 29 _ refl (omega arith) (omega arith),
              (
                kernel_code 30 _ refl (omega arith) (omega arith),
                (
                  kernel_code 31 _ refl (omega arith) (omega arith),
                  (
                    kernel_code 32 _ refl (omega arith) (omega arith),
                    (
                      kernel_code 33 _ refl (omega arith) (omega arith),
                      (kernel_code 34 _ refl (omega arith) (omega arith), tt),
                    ),
                  ),
                ),
              ),
            ),
          ),
        ),
      ),
    ),
  ),
)

among-HasKernelCode :
    (names : List Bytes) (name : Bytes)
    → All HasKernelCode names
    → among names name ≡ true
    → HasKernelCode name
unfolding machine_get_opcode
among-HasKernelCode [] name h e = absurd (ground arith)
among-HasKernelCode (n ∷ names) name (hn, h) e = elim (Bool-cases (same_nocase name n)) [
  | inl same ↦ record {
    code = hn.code;
    has_code = index_nocase_congr instructions 0 name n same ∙ hn.has_code;
    low = hn.low;
    high = hn.high;
  }
  | inr other ↦ among-HasKernelCode names name h (ground arith)
]

abbrev refusal : Machine → Machine
refusal s = record s {
  exception =
      exception_set "This instruction requires more privilege" illegal_instruction s.cpu.mode
        s.exception;
}

refused :
    (opcode : ℕ) (s : Machine)
    → s.cpu.mode ≡ user
    → token_kern_low ≤ opcode
    → opcode ≤ token_kern_high
    → run_opcode opcode s ≡ raised (refusal s)
unfolding ◌>>=◌ run_opcode check_privilege machine_instr_req_privilege machine_register_exception
refused opcode s m lo hi =
    let e : (leb token_kern_low opcode && leb opcode token_kern_high) ≡ true = ground arith in
    rw (m, e)

-- The state in which a round begins to read its instruction.
abbrev pub fetching : Machine → Machine
fetching s = record s {
  buffer = [];
  lookahead = none;
  cpu = record (s.cpu) { mem_left = negsuc 0 };
}

-- IP advanced behind the instruction.
abbrev advanced : ℤ → Machine → Machine
advanced at u = poke (in_reg ip) (word_store_integer (u.regs ip) (add32 at (pos 2))) u

cycle_refused :
    (s u : Machine) (name : Bytes)
    → tokenize_next_token (fetching s) ≡ ok (instruction name) u
    → u.cpu.mode ≡ user
    → HasKernelCode name
    → machine_cycle s ≡ raised (refusal (advanced (word_get_integer (s.regs ip)) u))
unfolding ◌>>=◌ get_integer store_integer machine_cycle instruction_opcode peek modify poke
    myexpos.Xsm.Machine.Cycle.known_opcode run_opcode
cycle_refused s u name e m h =
    rw (machine_cycle, e, h.has_code)
      (refused h.code (advanced (word_get_integer (s.regs ip)) u) m h.low h.high)

back_two : (a : ℤ) → InInt a → sub32 (add32 a (pos 2)) (pos 2) ≡ a
unfolding wrap32 ◌+ℤ◌ ◌-ℤ◌
back_two (pos n) h = ground arith
back_two (negsuc n) h = ground arith

handled :
    (s u v : Machine)
    → machine_cycle s ≡ raised u
    → machine_handle_exception u ≡ ok true v
    → machine_round s ≡ running v
unfolding machine_round
handled s u v e h = rw (e, h) refl

-- What a program in user mode gets when it comes to a privileged instruction.
pub record Trapped (s u v : Machine) : Type 0 where
  pub mode : v.cpu.mode ≡ kernel
  pub handler : word_get_integer (v.regs ip) ≡ pos 1024
  pub where_from : word_get_integer (v.regs eip) ≡ word_get_integer (s.regs ip)
  pub cause : word_get_integer (v.regs ec) ≡ exception_number illegal_instruction
  pub regs : (r : ℕ) → r < eip → r ≢ ip → v.regs r ≡ u.regs r
  pub mem : (a : ℕ) → v.mem a ≡ u.mem a

InHandler-Trapped :
    (s u v : Machine)
    → InHandler (refusal (advanced (word_get_integer (s.regs ip)) u)) v
    → Trapped s u v
unfolding poke update
InHandler-Trapped s u v h =
    let at = word_get_integer (s.regs ip) in
    record {
      mode = h.mode;
      handler = h.handler;
      where_from =
          h.where_from
          ∙ ap (λ a. sub32 a (pos 2))
              (word_get_integer-word_store_integer (u.regs ip) (add32 at (pos 2)) (wrap32-InInt _))
          ∙ back_two at (word_get_integer-InInt (s.regs ip));
      cause = h.cause;
      regs = λ r lt ne. h.regs r lt ne ∙ ground arith;
      mem = h.mem;
    }

-- A round in which the token that is read is the name of a privileged instruction, in any case, and
-- which reads it in user mode, does not execute it, whatever the operands: the machine goes on in the
-- exception handler, in kernel mode, with IP at 1024, the value that IP had at the start of the round in
-- EIP, and the number of an illegal instruction in EC; the registers before EIP, IP excepted, and the
-- memory are as reading the token left them. The exception record is taken to hold values of type `int`.
pub machine_round-privileged :
    (s u : Machine) (name : Bytes)
    → tokenize_next_token (fetching s) ≡ ok (instruction name) u
    → u.cpu.mode ≡ user
    → among privileged_names name ≡ true
    → InInt u.exception.ma
    → InInt u.exception.epn
    → (v : Machine) × (machine_round s ≡ running v) × Trapped s u v
unfolding poke
machine_round-privileged s u name e m h a p =
    let u' = refusal (advanced (word_get_integer (s.regs ip)) u) in
    let code = among-HasKernelCode privileged_names name kernel_codes h in
    let (v, runs, inside) = machine_handle_exception-InHandler u' m a p in
    (v, handled s u' v (cycle_refused s u name e m code) runs, InHandler-Trapped s u v inside)
