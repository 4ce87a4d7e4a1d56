-- ===== src/Xsm/Machine/Opcode.antt =====
-- The instructions of xsm/machine.c and xsm/machine.h: their names, their codes, and which of them
-- are privileged.
use myexpos.Prelude.{
  ℕ, Bool, true, false, ◌&&◌, Option, List, [], ◌∷◌, Bytes, codes, leb, if◌then◌else◌,
}
use myexpos.Xsm.Registers.{index_nocase}
use myexpos.Xsm.State.{Mode, user, kernel, DiskOp, load, store}
use myexpos.Xsm.Machine.Data.{
  ArithOp, add, sub, mul, div, mod_op, UnaryOp, inr, dcr, LogicalOp, lt, gt, eq, ne, ge, le, JumpOp,
  jz, jnz, jmp,
}
use myexpos.Xsm.Machine.Stack.{StackOp, push, pop}

-- The table `instructions`: an opcode is an index into it.
abbrev pub instructions : List Bytes
instructions =
    codes "MOV"
    ∷ codes "ADD"
    ∷ codes "SUB"
    ∷ codes "MUL"
    ∷ codes "DIV"
    ∷ codes "MOD"
    ∷ codes "INR"
    ∷ codes "DCR"
    ∷ codes "LT"
    ∷ codes "GT"
    ∷ codes "EQ"
    ∷ codes "NE"
    ∷ codes "GE"
    ∷ codes "LE"
    ∷ codes "JZ"
    ∷ codes "JNZ"
    ∷ codes "JMP"
    ∷ codes "PUSH"
    ∷ codes "POP"
    ∷ codes "CALL"
    ∷ codes "RET"
    ∷ codes "BRKP"
    ∷ codes "INT"
    ∷ codes "LOADI"
    ∷ codes "LOAD"
    ∷ codes "STORE"
    ∷ codes "ENCRYPT"
    ∷ codes "BACKUP"
    ∷ codes "RESTORE"
    ∷ codes "PORT"
    ∷ codes "IN"
    ∷ codes "INI"
    ∷ codes "OUT"
    ∷ codes "IRET"
    ∷ codes "HALT"
    ∷ codes "NOP"
    ∷ []

-- `none` is XSM_ILLINSTR.
unfoldable pub machine_get_opcode : Bytes → Option ℕ
machine_get_opcode instr = index_nocase instructions 0 instr

abbrev pub token_kern_low : ℕ
token_kern_low = 23

abbrev pub token_kern_high : ℕ
token_kern_high = 34

unfoldable pub machine_instr_req_privilege : ℕ → Mode
machine_instr_req_privilege opcode =
    if leb token_kern_low opcode && leb opcode token_kern_high then kernel else user

-- The cases of the switch in machine_execute_instruction.
pub data Action : Type 0 where
  mov : Action
  arith_op : ArithOp → Action
  unary : UnaryOp → Action
  logical : LogicalOp → Action
  jump : JumpOp → Action
  stack : StackOp → Action
  call ret brkp interrupt : Action
  disk : DiskOp → Bool → Action
  encrypt backup restore input input_now output iret halt nop : Action

-- The opcodes of machine.h, in their order.
abbrev pub actions : List Action
actions =
    mov
    ∷ arith_op add
    ∷ arith_op sub
    ∷ arith_op mul
    ∷ arith_op div
    ∷ arith_op mod_op
    ∷ unary inr
    ∷ unary dcr
    ∷ logical lt
    ∷ logical gt
    ∷ logical eq
    ∷ logical ne
    ∷ logical ge
    ∷ logical le
    ∷ jump jz
    ∷ jump jnz
    ∷ jump jmp
    ∷ stack push
    ∷ stack pop
    ∷ call
    ∷ ret
    ∷ brkp
    ∷ interrupt
    ∷ disk load true
    ∷ disk load false
    ∷ disk store false
    ∷ encrypt
    ∷ backup
    ∷ restore
    ∷ mov
    ∷ input
    ∷ input_now
    ∷ output
    ∷ iret
    ∷ halt
    ∷ nop
    ∷ []
