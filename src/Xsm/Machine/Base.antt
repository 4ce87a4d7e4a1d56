-- ===== src/Xsm/Machine/Base.antt =====
-- xsm/exception.c and the basic operations of xsm/machine.c: the mode, exceptions, registers by
-- name, and addresses.
use Prim.Native.String.{String}
use myexpos.Prelude.{
  ℕ, Bool, true, false, ◌&&◌, Option, none, some, Bytes, codes, not, if◌then◌else◌,
}
use myexpos.Prelude.Int.{ℤ, pos, ltb_ℤ, eq_ℤ, add32}
use myexpos.Libc.{same_nocase}
use myexpos.Xsm.Word.{word_get_integer, word_store_integer}
use myexpos.Xsm.Registers.{ip, sp, ptbr, ptlr, registers_get_register_code, registers_umode}
use myexpos.Xsm.Memory.{
  memory_get_word, memory_addr_page, memory_translate_address, mem_nowrite, mem_pagefault,
  mem_illpage,
}
use myexpos.Xsm.State.{
  Machine, Mode, user, kernel, XsmException, ExceptionType, page_fault, illegal_instruction,
  illegal_memory, raised, M, ◌>>=◌, ◌>>◌, pure, gets, modify, undefined, Loc, in_reg, in_mem, peek,
  poke, get_integer,
}

abbrev pub machine_get_mode : M Mode
machine_get_mode = gets (λ s. s.cpu.mode)

abbrev pub machine_set_mode : Mode → M (Unit {0})
machine_set_mode m = modify (λ s. record s { cpu = record (s.cpu) { mode = m } })

abbrev pub machine_get_ipreg : Loc
machine_get_ipreg = in_reg ip

abbrev pub machine_get_spreg : Loc
machine_get_spreg = in_reg sp

-- exception_set, exception_set_ma and exception_set_epn.
abbrev pub exception_set : String → ExceptionType → Mode → XsmException → XsmException
exception_set m t md e = record e { message = m; type = t; mode = md }

abbrev pub exception_set_ma : ℤ → M (Unit {0})
exception_set_ma a = modify (λ s. record s { exception = record (s.exception) { ma = a } })

abbrev pub exception_set_epn : ℤ → M (Unit {0})
exception_set_epn p = modify (λ s. record s { exception = record (s.exception) { epn = p } })

unfoldable pub machine_register_exception : {A : Type 0} → String → ExceptionType → M A
machine_register_exception m t s =
    raised (record s { exception = exception_set m t s.cpu.mode s.exception })

-- The tests of machine_get_register behind the first, on a register that exists.
unfoldable pub check_register : Bytes → ℕ → Mode → M Loc
check_register name code kernel =
    if same_nocase name (codes "IP")
    then machine_register_exception "IP register can not be directly manipulated"
        illegal_instruction
    else pure (in_reg code)
check_register name code user =
    if not (registers_umode name)
    then machine_register_exception "Register not available in USER mode" illegal_instruction
    else if same_nocase name (codes "IP")
    then machine_register_exception "IP register can not be directly manipulated"
        illegal_instruction
    else pure (in_reg code)

unfoldable pub find_register : Bytes → Option ℕ → M Loc
find_register name none = machine_register_exception "No such register" illegal_instruction
find_register name (some code) = do m ← machine_get_mode; check_register name code m

unfoldable pub machine_get_register : Bytes → M Loc
machine_get_register name = find_register name (registers_get_register_code name)

-- INSTR_FETCH, OPER_FETCH and DEBUG_FETCH.
pub data Fetch : Type 0 where
  instr_fetch oper_fetch debug_fetch : Fetch

abbrev pub is_instr_fetch : Fetch → Bool
is_instr_fetch instr_fetch = true
is_instr_fetch _ = false

abbrev pub is_debug_fetch : Fetch → Bool
is_debug_fetch debug_fetch = true
is_debug_fetch _ = false

-- IP = IP + instruction length.
abbrev pub advance_ip : Machine → Machine
advance_ip s =
    poke machine_get_ipreg
      (word_store_integer (peek machine_get_ipreg s)
        (add32 (word_get_integer (peek machine_get_ipreg s)) (pos 2)))
      s

-- What machine_translate_address does with the address that the page table gives.
unfoldable pub translation_failure : ℤ → ℤ → M ℤ
translation_failure address ret_addr =
    if eq_ℤ mem_nowrite ret_addr
    then (do exception_set_ma address; machine_register_exception "Access violation" illegal_memory)
    else if eq_ℤ mem_pagefault ret_addr
    then (do
      exception_set_epn (memory_addr_page address)
      machine_register_exception "Page fault" page_fault)
    else if eq_ℤ mem_illpage ret_addr
    then (do
      exception_set_ma address
      machine_register_exception "Address outside logical address space" illegal_memory)
    else pure ret_addr

unfoldable pub check_translation : ℤ → Fetch → Option ℤ → M ℤ
check_translation address type none = undefined
check_translation address type (some ret_addr) =
    if ltb_ℤ ret_addr (pos 0) && is_debug_fetch type
    then pure ret_addr
    else if ltb_ℤ ret_addr (pos 0) && is_instr_fetch type
    then (do modify advance_ip; translation_failure address ret_addr)
    else translation_failure address ret_addr

unfoldable pub machine_translate_address : ℤ → Bool → Fetch → Mode → M ℤ
machine_translate_address address write type kernel = pure address
machine_translate_address address write type user = do
  b ← get_integer (in_reg ptbr)
  l ← get_integer (in_reg ptlr)
  mem ← gets (λ s. s.mem)
  check_translation address type (memory_translate_address mem b l address write)

unfoldable pub check_word : ℤ → Option ℕ → M Loc
check_word address (some a) = pure (in_mem a)
check_word address none = do
  exception_set_ma address
  machine_register_exception "Illegal memory access" illegal_memory

unfoldable pub machine_memory_get_word : ℤ → M Loc
machine_memory_get_word address = check_word address (memory_get_word address)
